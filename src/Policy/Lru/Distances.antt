-- ===== src/Policy/Lru/Distances.antt =====
-- How many experts were used more recently, and which of them are there.
use native.Mathlib.Decide.{ℕ_discrete}
use moestream.Prelude.{
  ℕ, zero, suc, ◌+◌, ◌≤◌, ◌<◌, ◌≡◌, ◌≢◌, refl, ap, ◌∙◌, ltb, if◌then◌else◌, update, update_at,
  update_ne, sum_below, sum_below-zero, sum_below-update, arith,
}
use moestream.Remap.Mrc.{reuse_distance}

abbrev pub newer : ℕ → ℕ → ℕ
newer t v = if ltb t v then 1 else 0

pub reuse_distance-sum_below :
    (n : ℕ) (last : ℕ → ℕ) (t : ℕ) → reuse_distance n last t ≡ sum_below n (λ x. newer t (last x))
unfolding reuse_distance sum_below
reuse_distance-sum_below zero last t = refl
reuse_distance-sum_below (suc n) last t = omega (arith, reuse_distance-sum_below n last t)

pub sum_below-le :
    (n : ℕ) (f g : ℕ → ℕ) → ((i : ℕ) → i < n → f i ≤ g i) → sum_below n f ≤ sum_below n g
unfolding sum_below
sum_below-le zero f g h = omega arith
sum_below-le (suc n) f g h =
    omega (arith, h n (omega arith), sum_below-le n f g (λ i p. h i (omega arith)))

pub sum_below-lt :
    (n : ℕ) (f g : ℕ → ℕ) (k : ℕ)
    → k < n
    → ((i : ℕ) → i < n → f i ≤ g i)
    → f k < g k
    → sum_below n f < sum_below n g
unfolding sum_below
sum_below-lt zero f g k below h less = absurd (omega (arith, below))
sum_below-lt (suc n) f g k below h less = elim (ℕ_discrete k n) [
  | yes e ↦ omega (arith, ap f e, ap g e, less, sum_below-le n f g (λ i p. h i (omega arith)))
  | no d ↦
      omega (
        arith,
        h n (omega arith),
        sum_below-lt n f g k (omega arith) (λ i p. h i (omega arith)) less,
      )
]

-- A sum that is not 0 has a part that is not.
pub sum_below_some : (n : ℕ) (f : ℕ → ℕ) → 0 < sum_below n f → (y : ℕ) × (y < n) × (0 < f y)
unfolding sum_below
sum_below_some zero f h = absurd (omega (arith, h))
sum_below_some (suc n) f h = elim (ℕ_discrete (f n) 0) [
  | yes z ↦ let (y, p, q) = sum_below_some n f (omega (arith, h, z)) in (y, omega (arith, p), q)
  | no d ↦ (n, omega arith, omega (arith, d))
]

module _ (n : ℕ) (last : ℕ → ℕ) where
  -- Of an expert.
  abbrev pub dist : ℕ → ℕ
  dist x = reuse_distance n last (last x)

  -- One that was used later has a smaller distance.
  pub dist-lt : (x y : ℕ) → y < n → last x < last y → dist y < dist x
  dist-lt x y inside later =
      let strict =
        sum_below-lt n (λ i. newer (last y) (last i)) (λ i. newer (last x) (last i)) y inside
          (λ i p. ground (arith, later)) (ground (arith, later)) in
      omega (
        arith,
        strict,
        reuse_distance-sum_below n last (last x),
        reuse_distance-sum_below n last (last y),
      )

  -- The distance of the others after expert `e` is used.
  pub dist-update :
      (e x now : ℕ)
      → e < n
      → x ≢ e
      → ((i : ℕ) → last i < now)
      → reuse_distance n (update last e now) (update last e now x) + newer (last x) (last e)
        ≡ dist x + 1
  dist-update e x now inside other before =
      let step = sum_below-update n (newer (last x)) last e now inside in
      let one : newer (last x) now ≡ 1 = ground (arith, before x) in
      let there = reuse_distance-sum_below n (update last e now) (last x) in
      let here = reuse_distance-sum_below n last (last x) in
      ap (λ (t : ℕ). reuse_distance n (update last e now) t + newer (last x) (last e))
        (update_ne last e x now other)
      ∙ omega (arith, step, one, there, here)

  -- Nothing was used after the expert that has just been used.
  pub dist-newest :
      (e now : ℕ)
      → ((i : ℕ) → last i < now)
      → reuse_distance n (update last e now) (update last e now e) ≡ 0
  dist-newest e now before =
      ap (reuse_distance n (update last e now)) (update_at last e e now refl)
      ∙ reuse_distance-sum_below n (update last e now) now
      ∙ sum_below-zero n (λ i. newer now (update last e now i))
          (λ i. elim (ℕ_discrete i e) [
            | yes q ↦ ground (arith, update_at last e i now q)
            | no d ↦ ground (arith, update_ne last e i now d, before i)
          ])
