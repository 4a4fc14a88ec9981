-- ===== src/Io/Tuner/Laws.antt =====
-- The measuring ends, and its choice is one of the candidates.
use moestream.Prelude.{
  ℕ, zero, suc, ◌+◌, ◌*◌, ◌≤◌, ◌<◌, ◌≡◌, refl, true, false, not, ◌||◌, List, [], ◌∷◌, length, leb,
  if_intro, subst, Bool-cases, inl, inr, arith,
}
use moestream.Cache.Doubles.{Doubles}
use moestream.Io.Tuner.{
  Tuner, th_n, th_cand, best_candidate, measured, advance, settle_threads, io_threads_record, gt,
}

th_cand_range : (i : ℕ) → (2 ≤ th_cand i) × (th_cand i ≤ 16)
th_cand_range zero = omega arith
th_cand_range (suc zero) = omega arith
th_cand_range (suc (suc zero)) = omega arith
th_cand_range (suc (suc (suc zero))) = omega arith
th_cand_range (suc (suc (suc (suc zero)))) = omega arith
th_cand_range (suc (suc (suc (suc (suc i))))) = omega arith

-- After `n` timed calls.
pub record Tuning {F : Type 0} (n : ℕ) (t : Tuner F) : Type 0 where
  pub automatic : t.io_auto ≡ true
  pub cur : t.th_cur < th_n
  pub measuring : t.th_settled ≡ false → (t.th_calls ≡ n) × (n < 40 * th_n * 20)
  pub chosen : t.th_settled ≡ true → (2 ≤ t.nthreads) × (t.nthreads ≤ 16)

module _ (D : Doubles) where
  open D use {Double, le, from_nat, sub}

  record Same (t u : Tuner Double) : Type 0 where
    automatic : u.io_auto ≡ t.io_auto
    cur : u.th_cur ≡ t.th_cur
    calls : u.th_calls ≡ t.th_calls
    settled : u.th_settled ≡ t.th_settled

  measured-Same : (bytes : ℕ) (dt : Double) (t : Tuner Double) → Same t (measured D bytes dt t)
  unfolding measured
  measured-Same bytes dt t =
      if_intro (Same t) (gt D dt (from_nat 0)) _ _
        (λ b. record { automatic = refl; cur = refl; calls = refl; settled = refl })
        (λ b. record { automatic = refl; cur = refl; calls = refl; settled = refl })

  settle-Tuning :
      (n : ℕ) (t : Tuner Double)
      → t.io_auto ≡ true
      → t.th_cur < th_n
      → t.th_calls ≡ n + 1
      → t.th_settled ≡ false
      → Tuning (n + 1) (settle_threads D t)
  unfolding settle_threads
  settle-Tuning n t a c k s =
      if_intro (Tuning (n + 1)) (leb (40 * th_n * 20) t.th_calls) _ _
        (λ b. record {
          automatic = a;
          cur = c;
          measuring = λ h. absurd (ground arith);
          chosen = λ h. th_cand_range (best_candidate D th_n t).0;
        })
        (λ b. record {
          automatic = a;
          cur = c;
          measuring = λ h. ground arith;
          chosen = λ h. absurd (ground arith);
        })

  record-Tuning :
      (n bytes : ℕ) (t0 now : Double) (t : Tuner Double)
      → le t0 (from_nat 0) ≡ false
      → Tuning n t
      → Tuning (n + 1) (io_threads_record D bytes t0 now t)
  unfolding io_threads_record advance
  record-Tuning n bytes t0 now t timed v =
      if_intro (Tuning (n + 1)) (not t.io_auto || t.th_settled || le t0 (from_nat 0)) _ _
        (λ b.
          let done : t.th_settled ≡ true = ground (arith, v.automatic) in
          record {
            automatic = v.automatic;
            cur = v.cur;
            measuring = λ h. absurd (ground arith);
            chosen = v.chosen;
          })
        (λ b.
          let same = measured-Same bytes (sub now t0) t in
          let open' : t.th_settled ≡ false = ground arith in
          let (calls, few) = v.measuring open' in
          let m = measured D bytes (sub now t0) t in
          settle-Tuning n (advance D m) (ground (arith, same.automatic, v.automatic))
            (ground (arith, same.cur, v.cur)) (ground (arith, same.calls, calls))
            (ground (arith, same.settled)))

  -- The calls: their bytes, and when they began and ended.
  abbrev pub record_all : List (ℕ × Double × Double) → Tuner Double → Tuner Double
  record_all [] t = t
  record_all ((bytes, t0, now) ∷ calls) t = record_all calls (io_threads_record D bytes t0 now t)

  abbrev pub AllTimed : List (ℕ × Double × Double) → Type 0
  AllTimed [] = Unit {0}
  AllTimed ((bytes, t0, now) ∷ calls) = (le t0 (from_nat 0) ≡ false) × AllTimed calls

  record_all-Tuning :
      (calls : List (ℕ × Double × Double)) (n : ℕ) (t : Tuner Double)
      → AllTimed calls
      → Tuning n t
      → Tuning (n + length calls) (record_all calls t)
  record_all-Tuning [] n t h v = subst (λ (k : ℕ). Tuning k t) (omega arith) v
  record_all-Tuning ((bytes, t0, now) ∷ calls) n t h v =
      let next = io_threads_record D bytes t0 now t in
      subst (λ (k : ℕ). Tuning k (record_all calls next)) (omega arith)
        (record_all-Tuning calls (n + 1) next h.1 (record-Tuning n bytes t0 now t h.0 v))

  -- Counted from an automatic tuner that has timed nothing, the tuner has settled after 4800 timed
  -- calls, whatever the clock said, on one of its candidates, between 2 and 16 threads.
  pub record_all_settles :
      (calls : List (ℕ × Double × Double)) (t : Tuner Double)
      → AllTimed calls
      → Tuning 0 t
      → 4800 ≤ length calls
      → ((record_all calls t).th_settled ≡ true)
        × (2 ≤ (record_all calls t).nthreads)
        × ((record_all calls t).nthreads ≤ 16)
  record_all_settles calls t h v long =
      let w = record_all-Tuning calls 0 t h v in
      elim (Bool-cases (record_all calls t).th_settled) [
        | inl done ↦ (done, (w.chosen done).0, (w.chosen done).1)
        | inr going ↦ absurd (omega (arith, w.measuring going))
      ]
