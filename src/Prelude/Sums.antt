-- ===== src/Prelude/Sums.antt =====
-- Arrays as functions of the index, and sums over an array.
use Prim.Native.Nat.{ℕ, zero, suc, ◌+◌, ◌*◌, ◌≤◌, ◌<◌}
use mathlib.Core.Path.{◌≡◌, refl, ap}
use mathlib.Core.Logic.{◌≢◌}
use native.Mathlib.Omega.{arith}
use native.Mathlib.Decide.{ℕ_discrete}
use moestream.Prelude.Tests.{◌==◌, ltb, leb, if◌then◌else◌}

-- `a[i] = v`.
abbrev pub update {ℓ} : {A : Type ℓ} → (ℕ → A) → ℕ → A → ℕ → A
update f i v j = if j == i then v else f j

pub update_at {ℓ} : {A : Type ℓ} (f : ℕ → A) (i j : ℕ) (v : A) → j ≡ i → update f i v j ≡ v
update_at f i j v h = ground arith

pub update_ne {ℓ} : {A : Type ℓ} (f : ℕ → A) (i j : ℕ) (v : A) → j ≢ i → update f i v j ≡ f j
update_ne f i j v h = ground arith

-- The sum of `f i` for `i` below `n`.
unfoldable pub sum_below : ℕ → (ℕ → ℕ) → ℕ
sum_below zero f = 0
sum_below (suc n) f = sum_below n f + f n

pub sum_below-ext :
    (n : ℕ) (f g : ℕ → ℕ) → ((i : ℕ) → i < n → f i ≡ g i) → sum_below n f ≡ sum_below n g
unfolding sum_below
sum_below-ext zero f g h = refl
sum_below-ext (suc n) f g h =
    omega (arith, h n (omega arith), sum_below-ext n f g (λ i p. h i (omega arith)))

pub sum_below-update_above {ℓ} :
    {A : Type ℓ} (n : ℕ) (w : A → ℕ) (f : ℕ → A) (i : ℕ) (v : A)
    → n ≤ i
    → sum_below n (λ j. w (update f i v j)) ≡ sum_below n (λ j. w (f j))
sum_below-update_above n w f i v h =
    sum_below-ext n _ _ (λ j p. ap w (update_ne f i j v (omega arith)))

-- One write changes a sum by the difference that it makes.
pub sum_below-update {ℓ} :
    {A : Type ℓ} (n : ℕ) (w : A → ℕ) (f : ℕ → A) (i : ℕ) (v : A)
    → i < n
    → sum_below n (λ j. w (update f i v j)) + w (f i) ≡ sum_below n (λ j. w (f j)) + w v
unfolding sum_below
sum_below-update zero w f i v h = elim h [ ]
sum_below-update (suc n) w f i v h = elim (ℕ_discrete n i) [
  | yes e ↦ omega (
    arith,
    sum_below-update_above n w f i v (omega arith),
    ap w (update_at f i n v e),
    ap (λ k. w (f k)) e,
  )
  | no d ↦ omega (arith, sum_below-update n w f i v (omega arith), ap w (update_ne f i n v d))
]

pub le-sum_below : (n : ℕ) (f : ℕ → ℕ) (i : ℕ) → i < n → f i ≤ sum_below n f
unfolding sum_below
le-sum_below zero f i h = elim h [ ]
le-sum_below (suc n) f i h = elim (ℕ_discrete i n) [
  | yes e ↦ omega (arith, ap f e)
  | no d ↦ omega (arith, le-sum_below n f i (omega arith))
]

-- Two different places contribute both.
pub add-le-sum_below : (n : ℕ) (f : ℕ → ℕ) (i j : ℕ) → i < j → j < n → f i + f j ≤ sum_below n f
unfolding sum_below
add-le-sum_below zero f i j h k = elim k [ ]
add-le-sum_below (suc n) f i j h k = elim (ℕ_discrete j n) [
  | yes e ↦ omega (arith, ap f e, le-sum_below n f i (omega arith))
  | no d ↦ omega (arith, add-le-sum_below n f i j h (omega arith))
]

pub sum_below-zero : (n : ℕ) (f : ℕ → ℕ) → ((i : ℕ) → f i ≡ 0) → sum_below n f ≡ 0
unfolding sum_below
sum_below-zero zero f h = refl
sum_below-zero (suc n) f h = omega (arith, h n, sum_below-zero n f h)

-- `even` each, and one more below `r`.
pub sum_below-shares :
    (n even r : ℕ)
    → sum_below n (λ m. even + (if ltb m r then 1 else 0)) ≡ n * even + (if leb r n then r else n)
unfolding sum_below
sum_below-shares zero even r = ground arith
sum_below-shares (suc n) even r = ground (arith, sum_below-shares n even r)

pub sum_below-const-le : (n k : ℕ) (f : ℕ → ℕ) → ((i : ℕ) → k ≤ f i) → n * k ≤ sum_below n f
unfolding sum_below
sum_below-const-le zero k f h = omega arith
sum_below-const-le (suc n) k f h = omega (arith, h n, sum_below-const-le n k f h)

pub sum_below-one : (n : ℕ) (f : ℕ → ℕ) → n ≡ 1 → sum_below n f ≡ f 0
unfolding sum_below
sum_below-one zero f h = absurd (omega arith)
sum_below-one (suc zero) f h = omega arith
sum_below-one (suc (suc n)) f h = absurd (omega arith)

pub sum_below-le-const : (n k : ℕ) (f : ℕ → ℕ) → ((i : ℕ) → f i ≤ k) → sum_below n f ≤ n * k
unfolding sum_below
sum_below-le-const zero k f h = omega arith
sum_below-le-const (suc n) k f h = omega (arith, h n, sum_below-le-const n k f h)
