-- ===== src/Prefill/Ids/Laws.antt =====
-- The copy of the ids of a batch has every id at its place, and the marks are those of the ids in
-- range.
use moestream.Prelude.{
  ℕ, zero, suc, ◌+◌, ◌*◌, ◌≤◌, ◌<◌, ◌≡◌, ◌↔◌, ◌⊎◌, inl, inr, refl, sym, ap, ◌∙◌, Bool, true, Option,
  none, some, update_at, update_ne, arith,
}
use moestream.Prelude.Int.{ℤ}
use native.Mathlib.Decide.{ℕ_discrete}
use moestream.Remap.Ids.{expert_of}
use moestream.Prefill.Ids.{Ids, Copied, mark_expert, mark_id, copy_row, copy_rows, copy_ids}

mul_mono : (a b c : ℕ) → a ≤ b → a * c ≤ b * c
mul_mono a b zero h = omega arith
mul_mono a b (suc c) h = omega (arith, mul_mono a b c h)

rows_before : (i j k t : ℕ) → i < j → k < t → i * t + k < j * t
rows_before i j k t h q = omega (arith, mul_mono (suc i) j t h)

module _ (a : Ids) (NE : ℕ) where
  copy_row-before :
      (j n p : ℕ) (st : Copied) → p < j * a.tk → (copy_row a NE j n st).out p ≡ st.out p
  unfolding copy_row
  copy_row-before j zero p st h = refl
  copy_row-before j (suc n) p st h =
      update_ne (copy_row a NE j n st).out (j * a.tk + n) p _ (λ q. absurd (omega arith))
      ∙ copy_row-before j n p st h

  copy_row-after :
      (j n p : ℕ) (st : Copied) → j * a.tk + n ≤ p → (copy_row a NE j n st).out p ≡ st.out p
  unfolding copy_row
  copy_row-after j zero p st h = refl
  copy_row-after j (suc n) p st h =
      update_ne (copy_row a NE j n st).out (j * a.tk + n) p _ (λ q. absurd (omega arith))
      ∙ copy_row-after j n p st (omega arith)

  copy_row-at :
      (j n k : ℕ) (st : Copied) → k < n → (copy_row a NE j n st).out (j * a.tk + k) ≡ a.ids j k
  unfolding copy_row
  copy_row-at j zero k st h = absurd (omega arith)
  copy_row-at j (suc n) k st h = elim (ℕ_discrete k n) [
    | yes q ↦
        update_at (copy_row a NE j n st).out (j * a.tk + n) (j * a.tk + k) _ (omega arith)
        ∙ ap (a.ids j) (sym q)
    | no q ↦
        update_ne (copy_row a NE j n st).out (j * a.tk + n) (j * a.tk + k) _ (λ r. q (omega arith))
        ∙ copy_row-at j n k st (omega arith)
  ]

  copy_rows-at :
      (n j k : ℕ) (st : Copied)
      → j < n
      → k < a.tk
      → (copy_rows a NE n st).out (j * a.tk + k) ≡ a.ids j k
  unfolding copy_rows
  copy_rows-at zero j k st h q = absurd (omega arith)
  copy_rows-at (suc n) j k st h q = elim (ℕ_discrete j n) [
    | yes same ↦
        ap (λ (i : ℕ). (copy_row a NE n a.tk (copy_rows a NE n st)).out (i * a.tk + k)) same
        ∙ copy_row-at n a.tk k _ q
        ∙ ap (λ (i : ℕ). a.ids i k) (sym same)
    | no other ↦
        copy_row-before n a.tk (j * a.tk + k) _ (rows_before j n k a.tk (omega arith) q)
        ∙ copy_rows-at n j k st (omega arith) q
  ]

  copy_rows-after : (n p : ℕ) (st : Copied) → n * a.tk ≤ p → (copy_rows a NE n st).out p ≡ st.out p
  unfolding copy_rows
  copy_rows-after zero p st h = refl
  copy_rows-after (suc n) p st h =
      copy_row-after n a.tk p _ (omega arith) ∙ copy_rows-after n p st (omega arith)

  mark_id-keeps : (x : ℤ) (need : ℕ → Bool) (e : ℕ) → need e ≡ true → mark_id a NE x need e ≡ true
  mark_id-keeps x need e h = marking (expert_of NE x)
    where
      marking : (o : Option ℕ) → mark_expert o need e ≡ true
      marking none = h
      marking (some y) = ground arith

  mark_id-own :
      (x : ℤ) (need : ℕ → Bool) (e : ℕ) → expert_of NE x ≡ some e → mark_id a NE x need e ≡ true
  mark_id-own x need e q =
      ap (λ (o : Option ℕ). mark_expert o need e) q ∙ update_at need e e true refl

  mark_id-only :
      (x : ℤ) (need : ℕ → Bool) (e : ℕ)
      → mark_id a NE x need e ≡ true
      → (need e ≡ true) ⊎ (expert_of NE x ≡ some e)
  mark_id-only x need e = marking (expert_of NE x)
    where
      marking : (o : Option ℕ) → mark_expert o need e ≡ true → (need e ≡ true) ⊎ (o ≡ some e)
      marking none h = inl h
      marking (some y) h = elim (ℕ_discrete e y) [
        | yes q ↦ inr (ap some (sym q))
        | no q ↦ inl (sym (update_ne need y e true q) ∙ h)
      ]

  copy_row-keeps :
      (j n e : ℕ) (st : Copied) → st.need e ≡ true → (copy_row a NE j n st).need e ≡ true
  unfolding copy_row
  copy_row-keeps j zero e st h = h
  copy_row-keeps j (suc n) e st h = mark_id-keeps (a.ids j n) _ e (copy_row-keeps j n e st h)

  copy_row-marks :
      (j n k e : ℕ) (st : Copied)
      → k < n
      → expert_of NE (a.ids j k) ≡ some e
      → (copy_row a NE j n st).need e ≡ true
  unfolding copy_row
  copy_row-marks j zero k e st h q = absurd (omega arith)
  copy_row-marks j (suc n) k e st h q = elim (ℕ_discrete k n) [
    | yes r ↦ mark_id-own (a.ids j n) _ e (ap (λ (i : ℕ). expert_of NE (a.ids j i)) (sym r) ∙ q)
    | no r ↦ mark_id-keeps (a.ids j n) _ e (copy_row-marks j n k e st (omega arith) q)
  ]

  copy_rows-marks :
      (n j k e : ℕ) (st : Copied)
      → j < n
      → k < a.tk
      → expert_of NE (a.ids j k) ≡ some e
      → (copy_rows a NE n st).need e ≡ true
  unfolding copy_rows
  copy_rows-marks zero j k e st h i q = absurd (omega arith)
  copy_rows-marks (suc n) j k e st h i q = elim (ℕ_discrete j n) [
    | yes r ↦ copy_row-marks n a.tk k e _ i (ap (λ (t : ℕ). expert_of NE (a.ids t k)) (sym r) ∙ q)
    | no r ↦ copy_row-keeps n a.tk e _ (copy_rows-marks n j k e st (omega arith) i q)
  ]

  -- Some token among the first `n` has the expert among its ids.
  abbrev pub Named : ℕ → ℕ → Type 0
  Named n e = (j : ℕ) × (k : ℕ) × (j < n) × (k < a.tk) × (expert_of NE (a.ids j k) ≡ some e)

  copy_row-only :
      (j n e : ℕ) (st : Copied)
      → n ≤ a.tk
      → (copy_row a NE j n st).need e ≡ true
      → (st.need e ≡ true) ⊎ ((k : ℕ) × (k < a.tk) × (expert_of NE (a.ids j k) ≡ some e))
  unfolding copy_row
  copy_row-only j zero e st h m = inl m
  copy_row-only j (suc n) e st h m = elim (mark_id-only (a.ids j n) _ e m) [
    | inl before ↦ copy_row-only j n e st (omega arith) before
    | inr named ↦ inr (n, omega arith, named)
  ]

  copy_rows-only :
      (n e : ℕ) (st : Copied) → (copy_rows a NE n st).need e ≡ true → (st.need e ≡ true) ⊎ Named n e
  unfolding copy_rows
  copy_rows-only zero e st m = inl m
  copy_rows-only (suc n) e st m = elim (copy_row-only n a.tk e _ (omega arith) m) [
    | inl before ↦ elim (copy_rows-only n e st before) [
      | inl first ↦ inl first
      | inr (j, k, h, i, named) ↦ inr (j, k, omega arith, i, named)
    ]
    | inr (k, i, named) ↦ inr (n, k, omega arith, i, named)
  ]

  module _ (out : ℕ → ℤ) where
    -- The ids are passed on, each at its place in an array without gaps, and nothing else of the
    -- output changes.
    pub copy_ids-out :
        ((j k : ℕ) → j < a.nt → k < a.tk → (copy_ids a NE out).out (j * a.tk + k) ≡ a.ids j k)
        × ((p : ℕ) → a.nt * a.tk ≤ p → (copy_ids a NE out).out p ≡ out p)
    unfolding copy_ids
    copy_ids-out = (λ j k h q. copy_rows-at a.nt j k _ h q, λ p h. copy_rows-after a.nt p _ h)

    -- The marked experts are those that an id in range names.
    pub copy_ids-need : (e : ℕ) → ((copy_ids a NE out).need e ≡ true) ↔ Named a.nt e
    unfolding copy_ids
    copy_ids-need e = (
      λ m. elim (copy_rows-only a.nt e _ m) [ inl b ↦ absurd (ground arith) | inr named ↦ named ],
      λ (j, k, h, i, named). copy_rows-marks a.nt j k e _ h i named,
    )
