-- ===== src/Prelude/Lists.antt =====
-- Lists of native numbers: length, counting, membership as a test, first-occurrence removal.
use Prim.Native.Nat.{ℕ, suc, ◌+◌, ◌<◌}
use mathlib.Core.Path.{◌≡◌, refl}
use mathlib.Core.Bool.{Bool, true, false}
use mathlib.Core.List.{List, [], ◌∷◌, ◌++◌}
use native.Mathlib.Omega.{arith}
use moestream.Prelude.Tests.{◌==◌, if◌then◌else◌}

module _ {ℓ} {A : Type ℓ} where
  abbrev pub length : List A → ℕ
  length [] = 0
  length (x ∷ xs) = suc (length xs)

  pub length-append : (xs ys : List A) → length (xs ++ ys) ≡ length xs + length ys
  length-append [] ys = omega arith
  length-append (x ∷ xs) ys = omega (arith, length-append xs ys)

-- How often a number stands in a list.
abbrev pub count : ℕ → List ℕ → ℕ
count a [] = 0
count a (x ∷ xs) = (if x == a then 1 else 0) + count a xs

pub count-append :
    (needle : ℕ) (front back : List ℕ)
    → count needle (front ++ back) ≡ count needle front + count needle back
count-append needle [] back = omega arith
count-append needle (item ∷ front) back = omega (arith, count-append needle front back)

-- `std::find(…) != end()`.
abbrev pub elem : ℕ → List ℕ → Bool
elem a [] = false
elem a (x ∷ xs) = if x == a then true else elem a xs

-- `erase(std::find(…))`: the first occurrence goes.
abbrev pub erase_first : ℕ → List ℕ → List ℕ
erase_first a [] = []
erase_first a (x ∷ xs) = if x == a then xs else x ∷ erase_first a xs

pub elem_pos : (a : ℕ) (xs : List ℕ) → elem a xs ≡ true → 0 < count a xs
elem_pos a [] h = ground arith
elem_pos a (x ∷ xs) h = ground (arith, elem_pos a xs)

pub elem_absent : (a : ℕ) (xs : List ℕ) → elem a xs ≡ false → count a xs ≡ 0
elem_absent a [] h = refl
elem_absent a (x ∷ xs) h = ground (arith, elem_absent a xs)

pub count-erase_first :
    (a b : ℕ) (xs : List ℕ)
    → elem a xs ≡ true
    → count b (erase_first a xs) + (if a == b then 1 else 0) ≡ count b xs
count-erase_first a b [] h = ground arith
count-erase_first a b (x ∷ xs) h = ground (arith, count-erase_first a b xs)

pub length-erase_first :
    (a : ℕ) (xs : List ℕ) → elem a xs ≡ true → length (erase_first a xs) + 1 ≡ length xs
length-erase_first a [] h = ground arith
length-erase_first a (x ∷ xs) h = ground (arith, length-erase_first a xs)
