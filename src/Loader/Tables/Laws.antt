-- ===== src/Loader/Tables/Laws.antt =====
-- What the registration of an expert's weights changes.
use moestream.Prelude.{
  ℕ, zero, suc, ◌<◌, ◌≡◌, refl, sym, ap, ◌∙◌, subst, inl, inr, Bool, true, ◌&&◌, Option, some, List,
  ◌==◌, if◌then◌else◌, if_intro, Bool-cases, arith,
}
use moestream.Prelude.Int.{ℤ}
use moestream.Io.Read.{SlabInfo}
use moestream.Loader.Names.{Name, parse_name}
use moestream.Loader.Map.{same_key, same_key-eq, lookup, put, lookup-put, lookup-put_other}
use moestream.Loader.Tables.{
  LayerSlabs, no_slabs, entry_or, set_role, note_ready, put_slab, register_slab,
}

abbrev pub member : ℕ → LayerSlabs → SlabInfo
member role l = if role == 0 then l.gate else if role == 1 then l.up else l.down

abbrev pub slabs_at : ℤ → List (ℤ × LayerSlabs) → LayerSlabs
slabs_at k layers = entry_or no_slabs (lookup k layers)

-- A layer is ready exactly if all its three members have tensors.
abbrev pub ReadyIff : List (ℤ × LayerSlabs) → Type 0
ReadyIff layers =
    (k : ℤ)
    → (slabs_at k layers).ready ≡ (
        (slabs_at k layers).gate.present
        && ((slabs_at k layers).up.present && (slabs_at k layers).down.present))

member-set_role :
    (q r : ℕ) (si : SlabInfo) (l : LayerSlabs)
    → q < 3
    → r < 3
    → member q (note_ready (set_role r si l)) ≡ (if q == r then si else member q l)
member-set_role zero zero si l h k = refl
member-set_role zero (suc zero) si l h k = refl
member-set_role zero (suc (suc zero)) si l h k = refl
member-set_role (suc zero) zero si l h k = refl
member-set_role (suc zero) (suc zero) si l h k = refl
member-set_role (suc zero) (suc (suc zero)) si l h k = refl
member-set_role (suc (suc zero)) zero si l h k = refl
member-set_role (suc (suc zero)) (suc zero) si l h k = refl
member-set_role (suc (suc zero)) (suc (suc zero)) si l h k = refl
member-set_role zero (suc (suc (suc r))) si l h k = absurd (omega arith)
member-set_role (suc zero) (suc (suc (suc r))) si l h k = absurd (omega arith)
member-set_role (suc (suc zero)) (suc (suc (suc r))) si l h k = absurd (omega arith)
member-set_role (suc (suc (suc q))) r si l h k = absurd (omega arith)

module _ (name : Name) (si : SlabInfo) (layers : List (ℤ × LayerSlabs)) (il : ℤ) (role : ℕ)
    (parsed : parse_name name ≡ some (il, role)) where
  abbrev after : List (ℤ × LayerSlabs)
  after = register_slab true name si layers

  set : LayerSlabs
  set = note_ready (set_role role si (slabs_at il layers))

  after-put : after ≡ put il set layers
  unfolding register_slab set
  after-put = ap (λ (o : Option (ℤ × ℕ)). put_slab o si layers) parsed

  slabs_at-after : (k : ℤ) → slabs_at k after ≡ (if same_key il k then set else slabs_at k layers)
  slabs_at-after k =
      ap (slabs_at k) after-put
      ∙ sym (
          if_intro (λ (l : LayerSlabs). l ≡ slabs_at k (put il set layers)) (same_key il k) set
            (slabs_at k layers)
            (λ s. sym (
              ap (λ (i : ℤ). slabs_at i (put il set layers)) (sym (same_key-eq il k s))
              ∙ ap (entry_or no_slabs) (lookup-put il set layers)))
            (λ s. sym (ap (entry_or no_slabs) (lookup-put_other k il set layers s))))

  -- Registering a name that is parsed to a layer and a role, with the library enabled, sets that
  -- member of that layer and no other member of any layer; if every layer was ready exactly if its
  -- three members have tensors, this holds afterwards too.
  pub register_slab-members :
      role < 3
      → ReadyIff layers
      → ((k : ℤ) (q : ℕ)
          → q < 3
          → member q (slabs_at k after)
            ≡ (if same_key il k && q == role then si else member q (slabs_at k layers)))
        × ReadyIff after
  unfolding set
  register_slab-members h ready = (
    λ k q below. ap (member q) (slabs_at-after k) ∙ elim (Bool-cases (same_key il k)) [
      | inl s ↦
          ap (λ (b : Bool). member q (if b then set else slabs_at k layers)) s
          ∙ member-set_role q role si (slabs_at il layers) below h
          ∙ ap (λ (i : ℤ). if q == role then si else member q (slabs_at i layers))
              (same_key-eq il k s)
          ∙ sym (ap (λ (b : Bool). if b && q == role then si else member q (slabs_at k layers)) s)
      | inr s ↦
          ap (λ (b : Bool). member q (if b then set else slabs_at k layers)) s
          ∙ sym (ap (λ (b : Bool). if b && q == role then si else member q (slabs_at k layers)) s)
    ],
    λ k.
        subst Iff (sym (slabs_at-after k))
          (if_intro Iff (same_key il k) set (slabs_at k layers) (λ s. refl) (λ s. ready k)),
  )
    where
      Iff : LayerSlabs → Type 0
      Iff l = l.ready ≡ (l.gate.present && (l.up.present && l.down.present))
