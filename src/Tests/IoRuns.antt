-- ===== src/Tests/IoRuns.antt =====
-- One thread that reads one job, a file of which one byte comes at a time, and a tuner over 4800
-- calls.
use moestream.Prelude.{
  ℕ, zero, suc, ◌+◌, ◌*◌, ◌<◌, ◌≤◌, ◌≡◌, ◌⊎◌, refl, true, false, not, ◌&&◌, List, [], ◌∷◌, update,
  count, length, ◌==◌, if◌then◌else◌, arith,
}
use moestream.Prelude.Int.{pos, negsuc}
use moestream.Io.Read.{Pread, SlabInfo, do_read}
use moestream.Io.Read.Laws.{AtMost, Readable, do_read-bytes}
use moestream.Io.Pool.{
  idle, returned, Pool, taken, Step, started, Reach, fetch, read, begin, later, steps,
}
use moestream.Io.Pool.Laws.{finished_once, pool_ends}
use moestream.Io.Tuner.{Tuner}
use moestream.Io.Tuner.Laws.{Tuning, AllTimed, record_all, record_all_settles}
use moestream.Tests.Inputs.{nat_doubles}

abbrev waiting_0 : Pool
waiting_0 = record { next = 1; workers = update (λ i. idle) 0 (taken 1 0); finished = [] }

abbrev read_0 : Pool
read_0 = record waiting_0 { workers = update waiting_0.workers 0 idle; finished = 0 ∷ [] }

abbrev ended_0 : Pool
ended_0 = record read_0 { next = 2; workers = update read_0.workers 0 (taken 1 1) }

one_job : Reach 1 1 ended_0
one_job =
    later
      (later (later begin (fetch started 0 (omega arith) refl))
        (read waiting_0 0 0 (omega arith) refl))
      (fetch read_0 0 (omega arith) refl)

one_job_returned : (i : ℕ) → i < 1 → ended_0.workers i ≡ returned
one_job_returned i h = ground arith

finished_once_example : count 0 ended_0.finished ≡ 1
finished_once_example = finished_once one_job (omega arith) one_job_returned 0

pool_ends_example :
    (steps one_job ≤ 2 * (1 + 1))
    × ((i : ℕ) → i < 1 → (ended_0.workers i ≡ returned) ⊎ ((q : Pool) × Step 1 1 ended_0 q))
pool_ends_example = pool_ends one_job

abbrev pub byte_wise : Pread
byte_wise k off left = if left == 0 then pos 0 else pos 1

pub byte_wise-AtMost : AtMost byte_wise
byte_wise-AtMost k off left = ground arith

pub byte_wise-Readable : (size : ℕ) → Readable size byte_wise
byte_wise-Readable size k off left h inside = ground arith

abbrev pub two_experts : SlabInfo
two_experts = record {
  present = true;
  file_offset = 5;
  expert_bytes = 3;
  n_expert = 2;
  file_idx = 0;
}

do_read-bytes_example :
    do_read (λ f i. 100 + i) byte_wise (λ f. true) two_experts 1 (λ i. 0) 2 ≡ 110
do_read-bytes_example =
    do_read-bytes (λ f i. 100 + i) byte_wise (λ f. true) two_experts 1 11 (λ i. 0) byte_wise-AtMost
      (byte_wise-Readable 11) refl (omega arith) 2

-- One byte, and then an error.
abbrev breaks_off : Pread
breaks_off k off left = if k == 0 && not (left == 0) then pos 1 else negsuc 0

abbrev fresh_tuner : Tuner ℕ
fresh_tuner = record {
  io_auto = true;
  nthreads = 4;
  th_bytes = λ i. 0;
  th_time = λ i. 0;
  th_cur = 0;
  th_calls = 0;
  th_settled = false;
}

-- The same call, `n` times.
unfoldable same_call : ℕ → List (ℕ × ℕ × ℕ)
same_call zero = []
same_call (suc n) = (4096, 10, 12) ∷ same_call n

same_call-AllTimed : (n : ℕ) → AllTimed nat_doubles (same_call n)
unfolding same_call
same_call-AllTimed zero = tt
same_call-AllTimed (suc n) = (refl, same_call-AllTimed n)

length-same_call : (n : ℕ) → length (same_call n) ≡ n
unfolding same_call
length-same_call zero = refl
length-same_call (suc n) = omega (arith, length-same_call n)

fresh_tuner-Tuning : Tuning 0 fresh_tuner
fresh_tuner-Tuning = record {
  automatic = refl;
  cur = omega arith;
  measuring = λ h. (refl, omega arith);
  chosen = λ h. absurd (ground arith);
}

record_all_settles_example :
    ((record_all nat_doubles (same_call 4800) fresh_tuner).th_settled ≡ true)
    × (2 ≤ (record_all nat_doubles (same_call 4800) fresh_tuner).nthreads)
    × ((record_all nat_doubles (same_call 4800) fresh_tuner).nthreads ≤ 16)
record_all_settles_example =
    record_all_settles nat_doubles (same_call 4800) fresh_tuner (same_call-AllTimed 4800)
      fresh_tuner-Tuning (omega (arith, length-same_call 4800))
