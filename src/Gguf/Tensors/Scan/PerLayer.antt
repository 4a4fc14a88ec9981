-- ===== src/Gguf/Tensors/Scan/PerLayer.antt =====
-- The bytes of the layers, in the map and the greatest of them.
use moestream.Prelude.{
  ℕ, ◌≤◌, ◌≡◌, sym, ap, ◌∙◌, Bool, Option, List, [], ◌∷◌, ltb, if◌then◌else◌, if_intro, Bool-cases,
  inl, inr, arith,
}
use moestream.Prelude.Int.{ℤ, ltb_ℤ}
use moestream.Loader.Map.{same_key, same_key-eq, lookup, put, lookup-put, lookup-put_other}
use moestream.Gguf.Tensors.Scan.{or_none, bytes_in_layer, greatest}

-- Every layer has at most so many bytes.
abbrev pub AllBelow : ℕ → List (ℤ × ℕ) → Type 0
AllBelow most [] = Unit {0}
AllBelow most ((k, n) ∷ m) = (n ≤ most) × AllBelow most m

pub AllBelow-le : (a b : ℕ) (m : List (ℤ × ℕ)) → a ≤ b → AllBelow a m → AllBelow b m
AllBelow-le a b [] h w = tt
AllBelow-le a b ((k, n) ∷ m) h (q, w) = (omega (arith, q, h), AllBelow-le a b m h w)

pub put-AllBelow :
    (il : ℤ) (n most : ℕ) (m : List (ℤ × ℕ))
    → n ≤ most
    → AllBelow most m
    → AllBelow most (put il n m)
unfolding put
put-AllBelow il n most [] h w = (h, tt)
put-AllBelow il n most ((k, x) ∷ m) h (q, w) =
    if_intro (AllBelow most) (same_key k il) _ _ (λ s. (h, w))
      (λ s.
        if_intro (AllBelow most) (ltb_ℤ il k) _ _ (λ l. (h, (q, w)))
          (λ l. (q, put-AllBelow il n most m h w)))

pub bytes_in_layer-le :
    (il : ℤ) (most : ℕ) (m : List (ℤ × ℕ)) → AllBelow most m → bytes_in_layer il m ≤ most
unfolding bytes_in_layer lookup
bytes_in_layer-le il most [] w = omega arith
bytes_in_layer-le il most ((k, n) ∷ m) (q, w) =
    if_intro (λ (o : Option ℕ). or_none o ≤ most) (same_key k il) _ _ (λ s. q)
      (λ s. bytes_in_layer-le il most m w)

pub greatest-le :
    (m : List (ℤ × ℕ)) (acc most : ℕ) → acc ≤ most → AllBelow most m → greatest m acc ≤ most
unfolding greatest
greatest-le [] acc most h w = h
greatest-le ((k, n) ∷ m) acc most h (q, w) =
    greatest-le m (if ltb acc n then n else acc) most (ground (arith, h, q)) w

le-greatest : (m : List (ℤ × ℕ)) (acc : ℕ) → acc ≤ greatest m acc
unfolding greatest
le-greatest [] acc = omega arith
le-greatest ((k, n) ∷ m) acc =
    let h = le-greatest m (if ltb acc n then n else acc) in ground (arith, h)

pub bytes_in_layer-le-greatest :
    (il : ℤ) (m : List (ℤ × ℕ)) (acc : ℕ) → bytes_in_layer il m ≤ greatest m acc
unfolding bytes_in_layer lookup greatest
bytes_in_layer-le-greatest il [] acc = omega arith
bytes_in_layer-le-greatest il ((k, n) ∷ m) acc =
    if_intro (λ (o : Option ℕ). or_none o ≤ greatest m (if ltb acc n then n else acc))
      (same_key k il) _ _
      (λ s. let h = le-greatest m (if ltb acc n then n else acc) in ground (arith, h))
      (λ s. bytes_in_layer-le-greatest il m (if ltb acc n then n else acc))

pub bytes_in_layer-put :
    (il j : ℤ) (n : ℕ) (m : List (ℤ × ℕ))
    → bytes_in_layer j (put il n m) ≡ (if same_key il j then n else bytes_in_layer j m)
unfolding bytes_in_layer
bytes_in_layer-put il j n m = elim (Bool-cases (same_key il j)) [
  | inl s ↦
      ap (λ (i : ℤ). or_none (lookup i (put il n m))) (sym (same_key-eq il j s))
      ∙ ap or_none (lookup-put il n m)
      ∙ ap (λ (b : Bool). if b then n else or_none (lookup j m)) (sym s)
  | inr s ↦
      ap or_none (lookup-put_other j il n m s)
      ∙ ap (λ (b : Bool). if b then n else or_none (lookup j m)) (sym s)
]
