-- ===== src/Loader/Tables/Claim.antt =====
-- A weight is left unread exactly if it was claimed or is an expert's, and where the split of a
-- dense model lies.
use moestream.Prelude.{
  ℕ, ◌≤◌, ◌≡◌, refl, sym, ap, ◌∙◌, inl, inr, Bool, true, false, not, ◌&&◌, ◌||◌, Option, none, some,
  List, ◌∷◌, ◌==◌, if◌then◌else◌, if_intro, Bool-cases, arith,
}
use moestream.Prelude.Int.{ℤ, pos, negsuc, ltb_ℤ}
use moestream.Cache.Doubles.{Doubles}
use moestream.Loader.Names.{Name, same_text, parse_name, parse_dense_any}
use moestream.Loader.Names.Laws.{same_text-eq}
use moestream.Loader.Tables.{
  Split, Budget, has_name, insert_name, clamp, split_at, off, auto_frac, decide_split, streams,
  claim_in, is_zero, claim_parsed, dense_claim, is_some, skip_load,
}

or_false : (x : Bool) → (x || false) ≡ x
or_false true = refl
or_false false = refl

skip_more :
    (p x y z : Bool)
    → x ≡ (y || z)
    → (if p then true else x) ≡ ((if p then true else y) || (true && z))
skip_more true x y z h = refl
skip_more false x y z h = h

has_name-insert :
    (n name : Name) (xs : List Name)
    → has_name n (insert_name name xs) ≡ (has_name n xs || same_text name n)
has_name-insert n name xs = elim (Bool-cases (has_name name xs)) [
  | inl t ↦
      ap (λ (b : Bool). has_name n (if b then xs else name ∷ xs)) t
      ∙ elim (Bool-cases (same_text name n)) [
        | inl same ↦
            let there = ap (λ (m : Name). has_name m xs) (sym (same_text-eq name n same)) ∙ t in
            ground (arith, there, same)
        | inr other ↦ ground (arith, other)
      ]
  | inr f ↦ ap (λ (b : Bool). has_name n (if b then xs else name ∷ xs)) f ∙ ground arith
]

module _ (D : Doubles) (least : ℕ) (b : Budget D.Double) (name : Name) (n_dims nbytes : ℕ)
    (s : Split D.Double) where
  open D use {Double}

  abbrev claim : Bool → Split Double × Bool
  claim enabled = dense_claim D enabled least b name n_dims nbytes s

  -- The ways through the call: it is refused, and then nothing but the split may have changed, or
  -- the name is among the claimed ones.
  dense_claim-cases {ℓ} :
      (P : Split Double × Bool → Type ℓ)
      → P (s, false)
      → ((il : ℤ) (role : ℕ)
          → parse_dense_any least name nbytes ≡ some (il, role)
          → P (claim_in D il name (if is_zero D s.dn_nlayer then decide_split D b nbytes s else s)))
      → P (claim true)
  unfolding dense_claim claim_parsed
  dense_claim-cases P refused claimed =
      if_intro P (not (n_dims == 2)) _ _ (λ a. refused)
        (λ a. parsed (parse_dense_any least name nbytes) claimed)
    where
      parsed :
          (o : Option (ℤ × ℕ))
          → ((il : ℤ) (role : ℕ)
              → o ≡ some (il, role)
              → P (
                  claim_in D il name
                    (if is_zero D s.dn_nlayer then decide_split D b nbytes s else s)))
          → P (claim_parsed D b o name nbytes s)
      parsed none f = refused
      parsed (some (il, role)) f = f il role refl

  -- The state after the decision, if one was due.
  abbrev decided : Split Double
  decided = if is_zero D s.dn_nlayer then decide_split D b nbytes s else s

  decided-claimed : decided.claimed ≡ s.claimed
  unfolding decide_split
  decided-claimed =
      if_intro (λ (t : Split Double). t.claimed ≡ s.claimed) (is_zero D s.dn_nlayer) _ s
        (λ a.
          if_intro (λ (t : Split Double). t.claimed ≡ s.claimed) (ltb_ℤ (pos 0) b.nexpert) _ _
            (λ c. refl)
            (λ c.
              if_intro (λ (t : Split Double). t.claimed ≡ s.claimed) (not (ltb_ℤ (pos 0) b.nlayer))
                _ _ (λ d. refl)
                (λ d.
                  if_intro (λ (t : Split Double). t.claimed ≡ s.claimed) _ _ _ (λ e. refl)
                    (λ e. refl))))
        (λ a. refl)

  -- With the library enabled, whatever the split and the call's arguments: after a call of
  -- `dense_claim` a name is left unread exactly if it was left unread before, or the call has
  -- claimed it.
  pub skip_load-dense_claim :
      (n : Name)
      → skip_load true (claim true).0.claimed n
        ≡ (skip_load true s.claimed n || ((claim true).1 && same_text name n))
  unfolding skip_load claim_in
  skip_load-dense_claim n = dense_claim-cases P (sym (or_false _)) (λ il role q.
      if_intro P (ltb_ℤ decided.dn_nlayer (pos 0)) _ _ (λ a. unclaimed)
        (λ a.
          if_intro P (not (streams D decided.dn_first il)) _ _ (λ c. unclaimed)
            (λ c.
              ap (λ (xs : List Name). skipped (has_name n (insert_name name xs))) decided-claimed
              ∙ skip_more (is_some (parse_name n)) _ (has_name n s.claimed) (same_text name n)
                  (has_name-insert n name s.claimed))))
    where
      skipped : Bool → Bool
      skipped x = if is_some (parse_name n) then true else x

      P : Split Double × Bool → Type 0
      P x =
          skipped (has_name n x.0.claimed)
          ≡ (skipped (has_name n s.claimed) || (x.1 && same_text name n))

      unclaimed : P (decided, false)
      unclaimed =
          ap (λ (xs : List Name). skipped (has_name n xs)) decided-claimed ∙ sym (or_false _)

  -- The split of a model that is streamed lies within its layers.
  abbrev pub SplitOk : Split Double → Type 0
  SplitOk t =
      ltb_ℤ (pos 0) t.dn_nlayer ≡ true
      → (k : ℕ) × (n : ℕ) × (t.dn_first ≡ pos k) × (t.dn_nlayer ≡ pos n) × (k ≤ n)

  clamp-between : (n : ℕ) (k : ℤ) → (j : ℕ) × (clamp D (pos n) k ≡ pos j) × (j ≤ n)
  clamp-between n (negsuc k) = (0, ground arith, omega arith)
  clamp-between n (pos k) =
      if_intro (λ (x : ℤ). (j : ℕ) × (x ≡ pos j) × (j ≤ n)) (ltb_ℤ (pos k) (pos 0)) _ _
        (λ a. (0, refl, omega arith))
        (λ a.
          if_intro (λ (x : ℤ). (j : ℕ) × (x ≡ pos j) × (j ≤ n)) (ltb_ℤ (pos n) (pos k)) _ _
            (λ c. (n, refl, omega arith)) (λ c. (k, refl, ground arith)))

  split_at-SplitOk : (nl : ℤ) (frac : Double) → SplitOk (split_at D nl frac s)
  split_at-SplitOk (negsuc n) frac h = absurd (ground arith)
  split_at-SplitOk (pos n) frac h =
      let (j, q, below) = clamp-between n (D.to_int64 (D.add (D.mul frac (D.from_nat n)) D.half)) in
      (j, n, q, refl, below)

  decide_split-SplitOk : SplitOk (decide_split D b nbytes s)
  unfolding decide_split
  decide_split-SplitOk =
      if_intro SplitOk (ltb_ℤ (pos 0) b.nexpert) _ _ (λ a h. absurd (ground arith))
        (λ a.
          if_intro SplitOk (not (ltb_ℤ (pos 0) b.nlayer)) _ _ (λ c h. absurd (ground arith))
            (λ c.
              if_intro SplitOk (D.le (D.from_nat 1) frac) (off D (record s { dn_frac = frac }))
                (split_at D b.nlayer frac s) (λ d h. absurd (ground arith))
                (λ d. split_at-SplitOk b.nlayer frac)))
    where
      frac : Double
      frac = if b.dn_auto then auto_frac D b nbytes else s.dn_frac

  pub dense_claim-SplitOk :
      SplitOk s
      → let x = claim true in
        SplitOk x.0
        × (x.1 ≡ true
            → (il : ℤ) × (role : ℕ) × (parse_dense_any least name nbytes ≡ some (il, role))
              × (streams D x.0.dn_first il ≡ true))
        × (is_zero D s.dn_nlayer ≡ false
            → (x.0.dn_nlayer ≡ s.dn_nlayer) × (x.0.dn_first ≡ s.dn_first))
  unfolding claim_in
  dense_claim-SplitOk ok =
      dense_claim-cases P (ok, λ q. absurd (ground arith), λ z. (refl, refl))
        (λ il role q.
          if_intro P (ltb_ℤ decided.dn_nlayer (pos 0)) _ _
            (λ a. (decided_ok, λ r. absurd (ground arith), decided_once))
            (λ a.
              if_intro P (not (streams D decided.dn_first il)) _ _
                (λ c. (decided_ok, λ r. absurd (ground arith), decided_once))
                (λ c. (decided_ok, λ r. (il, role, q, ground arith), decided_once))))
    where
      P : Split Double × Bool → Type 0
      P x =
          SplitOk x.0
          × (x.1 ≡ true
              → (il : ℤ) × (role : ℕ) × (parse_dense_any least name nbytes ≡ some (il, role))
                × (streams D x.0.dn_first il ≡ true))
          × (is_zero D s.dn_nlayer ≡ false
              → (x.0.dn_nlayer ≡ s.dn_nlayer) × (x.0.dn_first ≡ s.dn_first))

      decided_ok : SplitOk decided
      decided_ok =
          if_intro SplitOk (is_zero D s.dn_nlayer) _ s (λ a. decide_split-SplitOk) (λ a. ok)

      decided_once :
          is_zero D s.dn_nlayer ≡ false
          → (decided.dn_nlayer ≡ s.dn_nlayer) × (decided.dn_first ≡ s.dn_first)
      decided_once z =
          if_intro (λ (t : Split Double). (t.dn_nlayer ≡ s.dn_nlayer) × (t.dn_first ≡ s.dn_first))
            (is_zero D s.dn_nlayer) (decide_split D b nbytes s) s (λ a. absurd (ground arith))
            (λ a. (refl, refl))
