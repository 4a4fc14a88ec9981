-- ===== src/Io/Pool/Laws.antt =====
-- Whatever the order of the threads' steps, every job is read once.
use moestream.Prelude.{
  ℕ, ◌+◌, ◌≤◌, ◌<◌, ◌≡◌, refl, ap, ◌∙◌, ◌&&◌, count, length, ◌*◌, ◌⊎◌, inl, inr, sum_below-ext,
  sum_below-le-const, ltb, ◌==◌, if◌then◌else◌, sum_below, sum_below-update, sum_below-zero, arith,
}
use moestream.Io.Pool.{
  Worker, idle, holding, returned, Pool, taken, Step, fetch, read, Reach, begin, later, steps,
}

-- 1 if the thread holds job `k`.
abbrev has : ℕ → Worker → ℕ
has k idle = 0
has k (holding j) = if j == k then 1 else 0
has k returned = 0

record Inv (n size : ℕ) (p : Pool) : Type 0 where
  -- A job that was handed out is held by one thread or was read.
  jobs :
      (k : ℕ)
      → count k p.finished + sum_below n (λ i. has k (p.workers i))
        ≡ (if ltb k p.next && ltb k size then 1 else 0)
  ended : (i : ℕ) → p.workers i ≡ returned → size ≤ p.next

taken-has : (size next k : ℕ) → has k (taken size next) ≡ (if next == k && ltb k size then 1 else 0)
taken-has size next k = ground arith

Step-Inv : {n size : ℕ} {p q : Pool} → Step n size p q → Inv n size p → Inv n size q
Step-Inv {n} {size} (fetch p i lt at) v = record {
  jobs = λ k. ground (
    arith,
    v.jobs k,
    sum_below-update n (has k) p.workers i (taken size p.next) lt,
    taken-has size p.next k,
    ap (has k) at,
  );
  ended = λ j h. ground (arith, v.ended j);
}
Step-Inv {n} {size} (read p i j lt at) v = record {
  jobs =
      λ k. ground (arith, v.jobs k, sum_below-update n (has k) p.workers i idle lt, ap (has k) at);
  ended = λ m h. ground (arith, v.ended m);
}

Reach-Inv : {n size : ℕ} {p : Pool} → Reach n size p → Inv n size p
Reach-Inv {n} begin = record {
  jobs = λ k. ground (arith, sum_below-zero n (λ i. has k idle) (λ i. refl));
  ended = λ i h. absurd (ground arith);
}
Reach-Inv (later r s) = Step-Inv s (Reach-Inv r)

-- When all of the threads, at least one, have returned, every job was read exactly once, whatever
-- the order of their steps.
pub finished_once :
    {n size : ℕ} {p : Pool}
    → Reach n size p
    → 0 < n
    → ((i : ℕ) → i < n → p.workers i ≡ returned)
    → (k : ℕ) → count k p.finished ≡ (if ltb k size then 1 else 0)
finished_once {n} {size} {p} r some all k =
    let v = Reach-Inv r in
    let gone : sum_below n (λ i. has k (p.workers i)) ≡ 0 =
      sum_below-ext n _ (λ _. 0) (λ i h. ap (has k) (all i h))
      ∙ sum_below-zero n (λ _. 0) (λ i. refl) in
    ground (arith, v.jobs k, v.ended 0 (all 0 some))

abbrev busy : Worker → ℕ
busy (holding k) = 1
busy idle = 0
busy returned = 0

abbrev over : Worker → ℕ
over returned = 1
over idle = 0
over (holding k) = 0

record Count (n size t : ℕ) (p : Pool) : Type 0 where
  total : t ≡ p.next + length p.finished
  read_le : length p.finished + sum_below n (λ i. busy (p.workers i)) ≤ p.next
  next_le : p.next ≤ size + sum_below n (λ i. over (p.workers i))

Step-Count :
    {n size : ℕ} {p q : Pool} (t : ℕ) → Step n size p q → Count n size t p → Count n size (t + 1) q
Step-Count {n} {size} t (fetch p i lt at) v =
    let a = sum_below-update n busy p.workers i (taken size p.next) lt in
    let b = sum_below-update n over p.workers i (taken size p.next) lt in
    record {
      total = omega (arith, v.total);
      read_le = ground (arith, v.read_le, a, ap busy at);
      next_le = ground (arith, v.next_le, b, ap over at);
    }
Step-Count {n} {size} t (read p i j lt at) v =
    let a = sum_below-update n busy p.workers i idle lt in
    let b = sum_below-update n over p.workers i idle lt in
    record {
      total = omega (arith, v.total);
      read_le = ground (arith, v.read_le, a, ap busy at);
      next_le = ground (arith, v.next_le, b, ap over at);
    }

Reach-Count : {n size : ℕ} {p : Pool} (r : Reach n size p) → Count n size (steps r) p
Reach-Count {n} begin = record {
  total = refl;
  read_le = omega (arith, sum_below-zero n (λ i. busy idle) (λ i. refl));
  next_le = omega arith;
}
Reach-Count (later r s) = Step-Count (steps r) s (Reach-Count r)

over-le : (w : Worker) → over w ≤ 1
over-le idle = omega arith
over-le (holding k) = omega arith
over-le returned = omega arith

worker-Step :
    {n size : ℕ} (w : Worker) (p : Pool) (i : ℕ)
    → i < n
    → p.workers i ≡ w
    → (p.workers i ≡ returned) ⊎ ((q : Pool) × Step n size p q)
worker-Step idle p i h e = inr (_, fetch p i h e)
worker-Step (holding k) p i h e = inr (_, read p i k h e)
worker-Step returned p i h e = inl e

-- The threads return: no schedule has more than `2 * (size + n)` steps, and in every reachable
-- state each thread that has not returned can make a step.
pub pool_ends :
    {n size : ℕ} {p : Pool} (r : Reach n size p)
    → (steps r ≤ 2 * (size + n))
      × ((i : ℕ) → i < n → (p.workers i ≡ returned) ⊎ ((q : Pool) × Step n size p q))
pool_ends {n} {size} {p} r =
    let v = Reach-Count r in
    (
      omega (
        arith,
        v.total,
        v.read_le,
        v.next_le,
        sum_below-le-const n 1 (λ i. over (p.workers i)) (λ i. over-le (p.workers i)),
      ),
      λ i h. worker-Step (p.workers i) p i h refl,
    )
