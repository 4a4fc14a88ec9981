-- ===== src/Remap/Mrc/Laws.antt =====
-- The reuse-distance statistics add up.
use moestream.Prelude.{
  ℕ, zero, suc, ◌+◌, ◌^◌, ◌%◌, ◌≤◌, ◌<◌, ◌≡◌, ap, ◌&&◌, update, ltb, ◌==◌, if_intro, inc64,
  sum_below, sum_below-update, arith,
}
use native.Mathlib.Decide.{ℕ_discrete}
use moestream.Remap.Mrc.{Mrc, reuse_distance, count_distance, note_distance, mrc_touch}

reuse_distance-le : (n : ℕ) (last : ℕ → ℕ) (t : ℕ) → reuse_distance n last t ≤ n
unfolding reuse_distance
reuse_distance-le zero last t = omega arith
reuse_distance-le (suc n) last t = ground (arith, reuse_distance-le n last t)

-- The expert itself was not touched after it was touched.
pub reuse_distance-lt : (n : ℕ) (last : ℕ → ℕ) (e : ℕ) → e < n → reuse_distance n last (last e) < n
unfolding reuse_distance
reuse_distance-lt zero last e h = absurd (omega arith)
reuse_distance-lt (suc n) last e h = elim (ℕ_discrete e n) [
  | yes p ↦ ground (arith, reuse_distance-le n last (last e), ap last p)
  | no p ↦ ground (arith, reuse_distance-lt n last e (omega arith))
]

-- Every access is cold or has a distance.
pub record Balanced (m : Mrc) : Type 0 where
  pub sums : m.total % 2 ^ 64 ≡ (m.cold + sum_below m.n_expert m.hist) % 2 ^ 64

-- One access more than has been accounted for.
Owing : Mrc → Type 0
Owing m = m.total % 2 ^ 64 ≡ (m.cold + sum_below m.n_expert m.hist + 1) % 2 ^ 64

count_distance-Balanced :
    (il r : ℕ) (m : Mrc) → r < m.n_expert → Owing m → Balanced (count_distance il r m)
unfolding count_distance Owing
count_distance-Balanced il r m h o =
    let step = sum_below-update m.n_expert (λ (x : ℕ). x) m.hist r (inc64 (m.hist r)) h in
    if_intro Balanced (ltb r m.n_expert) _ _ (λ b. record { sums = omega (arith, step, o) })
      (λ b. absurd (ground arith))

note_distance-Balanced :
    (il e : ℕ) (m : Mrc) → e < m.n_expert → Owing m → Balanced (note_distance il e (m.last il e) m)
unfolding note_distance Owing
note_distance-Balanced il e m h o =
    if_intro Balanced (m.last il e == 0) _ _ (λ b. record { sums = omega (arith, o) })
      (λ b.
        count_distance-Balanced il (reuse_distance m.n_expert (m.last il) (m.last il e)) m
          (reuse_distance-lt m.n_expert (m.last il) e h) o)

-- `mrc_touch` keeps the number of accesses, the number of first accesses and the histogram of the
-- distances in balance, modulo the width of the counters.
pub mrc_touch-Balanced : (il e : ℕ) (m : Mrc) → Balanced m → Balanced (mrc_touch il e m)
unfolding mrc_touch Owing
mrc_touch-Balanced il e m b =
    if_intro Balanced (m.on && ltb il m.n_layer && ltb e m.n_expert) _ _
      (λ h.
        let counted = record m {
          total = inc64 m.total;
          tot_l = update m.tot_l il (inc64 (m.tot_l il));
        } in
        let low : e < m.n_expert = ground arith in
        record { sums = (note_distance-Balanced il e counted low (omega (arith, b.sums))).sums })
      (λ h. b)
