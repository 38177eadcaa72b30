-- ===== src/Threads.antt =====
-- src/xthread.c: locks, conditions and threads over the API of Windows, which is an argument, and the
-- time until which a condition is waited for. Lua and Wren do not use it: CARRICA_USE_THREADS is not
-- defined.
pub mod Waiting
use carrica.Base.{ℕ, ◌+◌, ◌-◌, ◌*◌, ltb, Bool, true, false, Option, none, some, if◌then◌else◌}
use Prim.Native.Nat.{◌/◌, ◌%◌, ◌^◌}

-- struct timespec, of which no member is negative
pub record Timespec : Type 0 where
  pub tv_sec : ℕ
  pub tv_nsec : ℕ

-- The functions of Windows on a state of theirs: a critical section, a condition and a thread are the
-- memory at an address.
pub record Windows (S : Type 0) : Type 0 where
  pub initialize_critical_section : ℕ → S → S
  pub delete_critical_section : ℕ → S → S
  pub enter_critical_section : ℕ → S → S
  pub leave_critical_section : ℕ → S → S
  pub initialize_condition_variable : ℕ → S → S
  pub sleep_condition_variable : (cond mutex ms : ℕ) → S → Bool × S
  pub wake_condition_variable : ℕ → S → S
  pub wake_all_condition_variable : ℕ → S → S
  -- time(NULL), in seconds
  pub time : S → ℕ

abbrev pub infinite : ℕ
infinite = 2 ^ 32 - 1

-- A number of 64 bits with a sign as it is stored, and what a DWORD keeps of it.
abbrev pub sub_64 : ℕ → ℕ → ℕ
sub_64 a b = a + 2 ^ 64 - b

abbrev pub dword : ℕ → ℕ
dword n = n % 2 ^ 32

-- A DWORD is never below 0.
abbrev pub not_negative : ℕ → ℕ
not_negative t = if ltb t 0 then 1 else t

-- timespec_to_ms at the time `now`
unfoldable pub timespec_to_ms : ℕ → Option Timespec → ℕ
timespec_to_ms now none = infinite
timespec_to_ms now (some t) =
    not_negative (dword (sub_64 t.tv_sec now * 1000 + t.tv_nsec / 1000000))

-- ms_to_timespec at the time `now`, for a pointer that is not NULL
unfoldable pub ms_to_timespec : ℕ → ℕ → Timespec
ms_to_timespec now ms = record { tv_sec = ms / 1000 + now; tv_nsec = (ms % 1000) * 1000000 }

module _ {S : Type 0} (W : Windows S) where
  -- The result 1 for a pointer that is NULL.
  abbrev pub on_pointer : (ℕ → S → S) → Option ℕ → S → ℕ × S
  on_pointer run none s = (1, s)
  on_pointer run (some p) s = (0, run p s)

  unfoldable pub pthread_mutex_init : Option ℕ → S → ℕ × S
  pthread_mutex_init = on_pointer W.initialize_critical_section

  unfoldable pub pthread_mutex_destroy : Option ℕ → S → ℕ × S
  pthread_mutex_destroy = on_pointer W.delete_critical_section

  unfoldable pub pthread_mutex_lock : Option ℕ → S → ℕ × S
  pthread_mutex_lock = on_pointer W.enter_critical_section

  unfoldable pub pthread_mutex_unlock : Option ℕ → S → ℕ × S
  pthread_mutex_unlock = on_pointer W.leave_critical_section

  unfoldable pub pthread_cond_init : Option ℕ → S → ℕ × S
  pthread_cond_init = on_pointer W.initialize_condition_variable

  unfoldable pub pthread_cond_destroy : Option ℕ → S → ℕ × S
  pthread_cond_destroy cond s = (0, s)

  abbrev pub slept : Bool × S → ℕ × S
  slept (true, s) = (0, s)
  slept (false, s) = (1, s)

  unfoldable pub pthread_cond_timedwait : (cond mutex : Option ℕ) → Option Timespec → S → ℕ × S
  unfolding timespec_to_ms
  pthread_cond_timedwait (some c) (some m) abstime s =
      slept (W.sleep_condition_variable c m (timespec_to_ms (W.time s) abstime) s)
  pthread_cond_timedwait _ _ abstime s = (1, s)

  unfoldable pub pthread_cond_wait : (cond mutex : Option ℕ) → S → ℕ × S
  unfolding pthread_cond_timedwait
  pthread_cond_wait (some c) (some m) s = pthread_cond_timedwait (some c) (some m) none s
  pthread_cond_wait _ _ s = (1, s)

  unfoldable pub pthread_cond_signal : Option ℕ → S → ℕ × S
  pthread_cond_signal = on_pointer W.wake_condition_variable

  unfoldable pub pthread_cond_broadcast : Option ℕ → S → ℕ × S
  pthread_cond_broadcast = on_pointer W.wake_all_condition_variable
