-- ===== src/Policy/Lru/Hits.antt =====
-- The histogram of the distances below the number of slots has as many entries as there were hits.
use moestream.Prelude.{
  ℕ, ◌+◌, ◌^◌, ◌≤◌, ◌<◌, ◌≡◌, ◌≢◌, sym, ◌∙◌, ◌==◌, if◌then◌else◌, if_intro, update, update_at,
  update_ne, inc64, sum_below, sum_below-update, sum_below-update_above, arith,
}
use native.Mathlib.Decide.{ℕ_discrete, dec_lt}
use moestream.Policy.Lru.{Lru}
use moestream.Policy.Lru.Distances.{dist}
use moestream.Policy.Lru.Laws.{Tracks, there}

-- The histogram and the hits.
pub record Counts (c : ℕ) (s : Lru) (hist : ℕ → ℕ) : Type 0 where
  pub hits : s.hit ≡ sum_below c hist
  pub few : (r : ℕ) → hist r ≤ s.clock
  pub few_hits : s.hit ≤ s.clock

module _ {n c : ℕ} {s : Lru} {last hist : ℕ → ℕ} (e : ℕ) (inside : e < n)
    (early : s.clock + 2 < 2 ^ 64) (v : Tracks n c s.clock last (s.last 0) (s.resident 0))
    (k : Counts c s hist) (t : Lru) (tick : t.clock ≡ s.clock + 1) where
  raised_few : (r : ℕ) → update hist (dist n last e) (inc64 (hist (dist n last e))) r ≤ t.clock
  raised_few r = elim (ℕ_discrete r (dist n last e)) [
    | yes q ↦ omega (
      arith,
      update_at hist (dist n last e) r (inc64 (hist (dist n last e))) q,
      k.few (dist n last e),
      early,
      tick,
    )
    | no q ↦
        omega
          (arith, update_ne hist (dist n last e) r (inc64 (hist (dist n last e))) q, k.few r, tick)
  ]

  Counts-hit :
      s.last 0 e ≢ 0
      → t.hit ≡ inc64 s.hit
      → Counts c t (update hist (dist n last e) (inc64 (hist (dist n last e))))
  Counts-hit here one_more =
      let step =
        sum_below-update c (λ (x : ℕ). x) hist (dist n last e) (inc64 (hist (dist n last e)))
          (there v e inside here).1 in
      record {
        hits = omega (arith, one_more, step, k.hits, k.few_hits, k.few (dist n last e), early);
        few = raised_few;
        few_hits = omega (arith, one_more, k.few_hits, tick, early);
      }

  Counts-cold : t.hit ≡ s.hit → Counts c t hist
  Counts-cold same = record {
    hits = same ∙ k.hits;
    few = λ r. omega (arith, k.few r, tick);
    few_hits = omega (arith, same, k.few_hits, tick);
  }

  Counts-far :
      s.last 0 e ≡ 0
      → last e ≢ 0
      → t.hit ≡ s.hit
      → Counts c t (update hist (dist n last e) (inc64 (hist (dist n last e))))
  Counts-far gone used same = elim (dec_lt (dist n last e) c) [
    | yes near ↦ absurd (used (sym (v.known e inside used near) ∙ gone))
    | no far ↦
        let step =
          sum_below-update_above c (λ (x : ℕ). x) hist (dist n last e)
            (inc64 (hist (dist n last e))) (omega (arith, far)) in
        record {
          hits = same ∙ k.hits ∙ sym step;
          few = raised_few;
          few_hits = omega (arith, same, k.few_hits, tick);
        }
  ]

  pub Counts-access :
      t.hit ≡ (if s.last 0 e == 0 then s.hit else inc64 s.hit)
      → Counts c t
          (if last e == 0 then hist else update hist (dist n last e) (inc64 (hist (dist n last e))))
  Counts-access hit = elim (ℕ_discrete (s.last 0 e) 0) [
    | yes gone ↦
        let same : t.hit ≡ s.hit = ground (arith, hit, gone) in
        if_intro (Counts c t) (last e == 0) _ _ (λ b. Counts-cold same)
          (λ b. Counts-far gone (ground (arith, b)) same)
    | no here ↦
        let one_more : t.hit ≡ inc64 s.hit = ground (arith, hit, here) in
        if_intro (Counts c t) (last e == 0) _ _
          (λ b. absurd ((there v e inside here).0 (ground (arith, b))))
          (λ b. Counts-hit here one_more)
  ]
