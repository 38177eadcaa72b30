-- ===== src/Tests/Waits.antt =====
-- The theorem on waiting at a Windows that keeps the numbers of milliseconds it was asked to wait for.
use carrica.Base.{ℕ, ◌≡◌, refl, true, some, List, [], ◌∷◌, arith}
use carrica.Threads.{Windows, ms_to_timespec, pthread_cond_timedwait}
use carrica.Threads.Waiting.{pthread_cond_timedwait-ms_to_timespec}

abbrev windows : Windows (List ℕ)
windows = record {
  initialize_critical_section = λ m s. s;
  delete_critical_section = λ m s. s;
  enter_critical_section = λ m s. s;
  leave_critical_section = λ m s. s;
  initialize_condition_variable = λ c s. s;
  sleep_condition_variable = λ c m ms s. (true, ms ∷ s);
  wake_condition_variable = λ c s. s;
  wake_all_condition_variable = λ c s. s;
  time = λ s. 102;
}

pthread_cond_timedwait-ms_to_timespec_example :
    pthread_cond_timedwait windows (some 1) (some 2) (some (ms_to_timespec 100 2500)) []
    ≡ (0, 500 ∷ [])
pthread_cond_timedwait-ms_to_timespec_example =
    pthread_cond_timedwait-ms_to_timespec windows 1 2 100 2 2500 [] refl (omega arith) (omega arith)
