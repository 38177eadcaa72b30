-- ===== src/Threads/Waiting.antt =====
-- How long pthread_cond_timedwait of src/xthread.c waits.
use carrica.Base.{ℕ, ◌+◌, ◌-◌, ◌*◌, ◌<◌, ◌≤◌, ◌≡◌, ◌∙◌, ap, ltb, some, arith, if◌then◌else◌}
use Prim.Native.Nat.{◌/◌, ◌%◌, ◌^◌}
use carrica.Threads.{
  Windows, sub_64, dword, not_negative, timespec_to_ms, ms_to_timespec, slept,
  pthread_cond_timedwait,
}

not_negative-same : (t : ℕ) → not_negative t ≡ t
not_negative-same t = ground arith

-- The time that is left, before a DWORD keeps its low bits.
left :
    (now d ms : ℕ)
    → d ≤ 2 ^ 62
    → sub_64 (ms / 1000 + now) (now + d) * 1000 + (ms % 1000 * 1000000) / 1000000
      ≡ ms + 2 ^ 64 * 1000 - d * 1000
left now d ms small = omega arith

-- What a DWORD keeps of it.
kept :
    (d ms : ℕ)
    → ms < 2 ^ 32
    → d ≤ 4000000
    → dword (ms + 2 ^ 64 * 1000 - d * 1000)
      ≡ (if ltb ms (d * 1000) then 2 ^ 32 + ms - d * 1000 else ms - d * 1000)
kept d ms small recent = ground arith

-- A condition, with its mutex, that is waited for until a time that ms_to_timespec made d seconds
-- before, at most 4,000,000, and ms milliseconds ahead: Windows is asked to wait for the milliseconds
-- that are left, and the result is 0 or 1 as the condition was signalled or not; but when that time has
-- passed, it is asked to wait for 2 ^ 32 milliseconds less the time that has passed since.
pub pthread_cond_timedwait-ms_to_timespec :
    {S : Type 0} (W : Windows S) (c m now d ms : ℕ) (s : S)
    → W.time s ≡ now + d
    → ms < 2 ^ 32
    → d ≤ 4000000
    → pthread_cond_timedwait W (some c) (some m) (some (ms_to_timespec now ms)) s
      ≡ slept W (
          W.sleep_condition_variable c m
            (if ltb ms (d * 1000) then 2 ^ 32 + ms - d * 1000 else ms - d * 1000)
            s)
unfolding pthread_cond_timedwait timespec_to_ms ms_to_timespec
pthread_cond_timedwait-ms_to_timespec W c m now d ms s time small recent =
    ap (λ x. slept W (W.sleep_condition_variable c m x s))
      (ap (λ n. timespec_to_ms n (some (ms_to_timespec now ms))) time
        ∙ not_negative-same _
        ∙ ap dword (left now d ms (omega arith))
        ∙ kept d ms small recent)
