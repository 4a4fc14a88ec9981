-- ===== src/Loader/Map.antt =====
-- A `std::map` with `int` keys, as the list of its entries in the order of the keys.
use moestream.Prelude.{
  ◌≡◌, sym, ap, ◌∙◌, Bool, true, false, Option, none, some, List, [], ◌∷◌, if◌then◌else◌, if_intro,
  ◌==◌, arith,
}
use moestream.Prelude.Int.{ℤ, pos, negsuc, ltb_ℤ}

abbrev pub same_key : ℤ → ℤ → Bool
same_key (pos a) (pos b) = a == b
same_key (pos a) (negsuc b) = false
same_key (negsuc a) (pos b) = false
same_key (negsuc a) (negsuc b) = a == b

pub same_key-eq : (a b : ℤ) → same_key a b ≡ true → a ≡ b
same_key-eq (pos a) (pos b) h = ap pos (ground arith)
same_key-eq (pos a) (negsuc b) h = ground arith
same_key-eq (negsuc a) (pos b) h = ground arith
same_key-eq (negsuc a) (negsuc b) h = ap negsuc (ground arith)

same_key_refl : (a : ℤ) → same_key a a ≡ true
same_key_refl (pos a) = ground arith
same_key_refl (negsuc a) = ground arith

module _ {ℓ} {A : Type ℓ} where
  -- `find`.
  unfoldable pub lookup : ℤ → List (ℤ × A) → Option A
  lookup k [] = none
  lookup k ((i, x) ∷ m) = if same_key i k then some x else lookup k m

  -- `m[k] = v`.
  unfoldable pub put : ℤ → A → List (ℤ × A) → List (ℤ × A)
  put k v [] = (k, v) ∷ []
  put k v ((i, x) ∷ m) =
      let rest = put k v m in
      if same_key i k then (k, v) ∷ m else if ltb_ℤ k i then (k, v) ∷ (i, x) ∷ m else (i, x) ∷ rest

  lookup_first : (k : ℤ) (v : A) (rest : List (ℤ × A)) → lookup k ((k, v) ∷ rest) ≡ some v
  unfolding lookup
  lookup_first k v rest = ap (λ (b : Bool). if b then some v else lookup k rest) (same_key_refl k)

  pub lookup-put : (k : ℤ) (v : A) (m : List (ℤ × A)) → lookup k (put k v m) ≡ some v
  unfolding lookup put
  lookup-put k v [] = ap (λ (b : Bool). if b then some v else none) (same_key_refl k)
  lookup-put k v ((i, x) ∷ m) =
      if_intro (λ (n : List (ℤ × A)). lookup k n ≡ some v) (same_key i k) _ _
        (λ s. lookup_first k v m)
        (λ s.
          if_intro (λ (n : List (ℤ × A)). lookup k n ≡ some v) (ltb_ℤ k i) _ _
            (λ l. lookup_first k v ((i, x) ∷ m))
            (λ l.
              ap (λ (b : Bool). if b then some x else lookup k (put k v m)) s ∙ lookup-put k v m))

  pub lookup-put_other :
      (j k : ℤ) (v : A) (m : List (ℤ × A))
      → same_key k j ≡ false
      → lookup j (put k v m) ≡ lookup j m
  unfolding lookup put
  lookup-put_other j k v [] h = ap (λ (b : Bool). if b then some v else none) h
  lookup-put_other j k v ((i, x) ∷ m) h =
      if_intro P (same_key i k) _ _
        (λ s.
          skip m
          ∙ sym (
              ap (λ (b : Bool). if b then some x else lookup j m)
                (ap (λ (t : ℤ). same_key t j) (same_key-eq i k s) ∙ h)))
        (λ s.
          if_intro P (ltb_ℤ k i) _ _ (λ l. skip ((i, x) ∷ m))
            (λ l.
              ap (λ (o : Option A). if same_key i j then some x else o)
                (lookup-put_other j k v m h)))
    where
      P : List (ℤ × A) → Type ℓ
      P n = lookup j n ≡ lookup j ((i, x) ∷ m)

      skip : (rest : List (ℤ × A)) → lookup j ((k, v) ∷ rest) ≡ lookup j rest
      skip rest = ap (λ (b : Bool). if b then some v else lookup j rest) h
