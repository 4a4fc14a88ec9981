-- ===== src/Io/Pool.antt =====
-- src/llama-moestream.cpp, `run_reads_parallel`: threads that take the jobs from a shared counter,
-- in every order of their steps.
pub mod Laws
use moestream.Prelude.{ℕ, zero, suc, ◌+◌, ◌<◌, ◌≡◌, List, [], ◌∷◌, update, ltb, if◌then◌else◌}

-- Where a thread stands: before `fetch_add`, with the number of a job, or returned.
pub data Worker : Type 0 where
  idle : Worker
  holding : ℕ → Worker
  returned : Worker

pub record Pool : Type 0 where
  pub next : ℕ
  pub workers : ℕ → Worker
  -- The jobs that were read, the last one first.
  pub finished : List ℕ

-- `k >= jobs.size()` ends the thread.
abbrev pub taken : ℕ → ℕ → Worker
taken size k = if ltb k size then holding k else returned

-- `n` threads on `size` jobs.
pub data Step (n size : ℕ) : Pool → Pool → Type 0 where
  fetch :
      (p : Pool) (i : ℕ)
      → i < n
      → p.workers i ≡ idle
      → Step n size p
          (record p { next = p.next + 1; workers = update p.workers i (taken size p.next) })
  read :
      (p : Pool) (i k : ℕ)
      → i < n
      → p.workers i ≡ holding k
      → Step n size p (record p { workers = update p.workers i idle; finished = k ∷ p.finished })

abbrev pub started : Pool
started = record { next = 0; workers = λ _. idle; finished = [] }

pub data Reach (n size : ℕ) : Pool → Type 0 where
  begin : Reach n size started
  later : {p q : Pool} → Reach n size p → Step n size p q → Reach n size q

-- The number of threads: `std::min<int>(nthreads, jobs.size())`.
abbrev pub pool_size : ℕ → ℕ → ℕ
pool_size nthreads jobs = if ltb jobs nthreads then jobs else nthreads

abbrev pub steps : {n size : ℕ} {p : Pool} → Reach n size p → ℕ
steps begin = 0
steps (later r s) = steps r + 1
