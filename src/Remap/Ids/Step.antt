-- ===== src/Remap/Ids/Step.antt =====
-- What one request to the cache of a layer does to the experts that the graph holds, and to the
-- memory of the slots.
use moestream.Prelude.{
  ℕ, ◌+◌, ◌^◌, ◌≤◌, ◌<◌, ◌≡◌, ◌≢◌, refl, sym, ap, ◌∙◌, subst, Bool, true, false, List, [], ◌∷◌,
  ◌++◌, length, count, count-append, length-append, inc16, update, update_at, update_ne, Bool-cases,
  inl, inr, arith,
}
use native.Mathlib.Decide.{ℕ_discrete}
use moestream.Cache.State.{is_seated, Entry, Config, ExpertCache, no_slot, total, idx, entry}
use moestream.Cache.Inv.{Inv, idx-lt-total}
use moestream.Cache.Owners.{slot-lt, slots_differ}
use moestream.Cache.Acquire.Served.{Served}

count-le-length : (e : ℕ) (xs : List ℕ) → count e xs ≤ length xs
count-le-length e [] = omega arith
count-le-length e (x ∷ xs) = ground (arith, count-le-length e xs)

-- The contents of the slots after the pending reads, each of which puts the weights of an expert
-- into a slot.
abbrev pub filled : {W : Type 0} → (ℕ → W) → List (ℕ × ℕ) → (ℕ → W) → ℕ → W
filled weights [] mem = mem
filled weights ((e, slot) ∷ pend) mem = filled weights pend (update mem slot (weights e))

pub filled-append :
    {W : Type 0} (weights : ℕ → W) (pend : List (ℕ × ℕ)) (e slot : ℕ) (mem : ℕ → W)
    → filled weights (pend ++ (e, slot) ∷ []) mem
      ≡ update (filled weights pend mem) slot (weights e)
filled-append weights [] e slot mem = refl
filled-append weights ((f, s) ∷ pend) e slot mem =
    filled-append weights pend e slot (update mem s (weights f))

module _ {F : Type 0} where
  -- `c` is the cache of a layer of `n` experts, and `held` lists its references.
  pub record Tracks (n : ℕ) (held : List ℕ) (c : ExpertCache F) : Type 0 where
    pub inv : Inv c
    pub one : c.cfg.n_layer ≡ 1
    pub experts : c.cfg.n_expert ≡ n
    pub refs : (e : ℕ) → e < n → (entry c 0 e).rc ≡ count e held
    pub none_else : (e : ℕ) → n ≤ e → count e held ≡ 0
    pub fits : length held < 2 ^ 16

  -- Every expert that has a slot has its weights there.
  abbrev pub Loaded : {W : Type 0} → (ℕ → W) → (ℕ → W) → ExpertCache F → Type 0
  Loaded weights mem c =
      (e : ℕ)
      → e < c.cfg.n_expert
      → is_seated (entry c 0 e).seg ≡ true
      → mem (entry c 0 e).slot ≡ weights e

  -- An expert that is in use in `c` has the same slot in `d`, and is in use there.
  pub record Keeping (c d : ExpertCache F) : Type 0 where
    pub n_slot : d.n_slot ≡ c.n_slot
    pub experts : d.cfg.n_expert ≡ c.cfg.n_expert
    pub kept :
        (e : ℕ)
        → e < c.cfg.n_expert
        → 0 < (entry c 0 e).rc
        → (0 < (entry d 0 e).rc) × ((entry d 0 e).slot ≡ (entry c 0 e).slot)

  module _ (n e : ℕ) (held : List ℕ) (c : ExpertCache F) (t : Tracks n held c) (k : e < n)
      (d : ExpertCache F) (hit : Bool) (slot : ℕ) (s : Served c 0 e (d, hit, slot)) where
    place : (f : ℕ) → idx d.cfg 0 f ≡ idx c.cfg 0 f
    place f = ap (λ (q : Config F). idx q 0 f) s.cfg

    apart : (f : ℕ) → f ≢ e → idx c.cfg 0 f ≢ idx c.cfg 0 e
    apart f h p = h (omega arith)

    in_table : (f : ℕ) → f < n → idx c.cfg 0 f < total c.cfg
    in_table f h = idx-lt-total t.inv.config 0 f (omega (arith, t.one)) (omega (arith, t.experts))

    in_new : (f : ℕ) → f < n → idx d.cfg 0 f < total d.cfg
    in_new f h =
        idx-lt-total s.inv.config 0 f (omega (arith, t.one, ap (λ (q : Config F). q.n_layer) s.cfg))
          (omega (arith, t.experts, ap (λ (q : Config F). q.n_expert) s.cfg))

    other_rc : (f : ℕ) → f ≢ e → (entry d 0 f).rc ≡ (entry c 0 f).rc
    other_rc f h = ap (λ (i : ℕ). (d.ent i).rc) (place f) ∙ s.counts (idx c.cfg 0 f) (apart f h)

    -- Read at the expert's place in the new table.
    own : (P : Entry → Type 0) → P (d.ent (idx c.cfg 0 e)) → P (entry d 0 e)
    own P = subst (λ (i : ℕ). P (d.ent i)) (sym (place e))

    few : (f : ℕ) → f < n → (entry c 0 f).rc < 2 ^ 16
    few f h = omega (arith, t.refs f h, count-le-length f held, t.fits)

    -- An expert without a slot was not in use.
    refused_before : slot ≡ no_slot → (entry c 0 e).rc ≡ 0
    refused_before h = elim (Bool-cases (is_seated (entry c 0 e).seg)) [
      | inl seated ↦
          let low = slot-lt c t.inv (idx c.cfg 0 e) (in_table e k) seated in
          absurd (omega (arith, s.hit_slot (s.hit ∙ seated), t.inv.slots))
      | inr bare ↦ ((t.inv.entries (idx c.cfg 0 e)).vacant bare).1
    ]

    in_layer : e < d.cfg.n_expert
    in_layer = omega (arith, t.experts, ap (λ (q : Config F). q.n_expert) s.cfg)

    pub served-Tracks : slot ≢ no_slot → length held + 1 < 2 ^ 16 → Tracks n (held ++ e ∷ []) d
    served-Tracks h fits = record {
      inv = s.inv;
      one = ap (λ (q : Config F). q.n_layer) s.cfg ∙ t.one;
      experts = ap (λ (q : Config F). q.n_expert) s.cfg ∙ t.experts;
      refs = λ f l. elim (ℕ_discrete f e) [
        | yes p ↦
            let (seated, here, rc, low) = s.seat h in
            let mine : (entry d 0 e).rc ≡ inc16 (entry c 0 e).rc =
              own (λ en. en.rc ≡ inc16 (entry c 0 e).rc) rc in
            let now : (entry d 0 f).rc ≡ (entry d 0 e).rc = ap (λ (i : ℕ). (entry d 0 i).rc) p in
            let many : count f held ≡ count e held = ap (λ (i : ℕ). count i held) p in
            ground
              (arith, t.refs e k, few e k, count-le-length e held, count-append f held (e ∷ []))
        | no p ↦ ground (arith, other_rc f p, t.refs f l, count-append f held (e ∷ []))
      ];
      none_else = λ f l. ground (arith, t.none_else f l, count-append f held (e ∷ []));
      fits = omega (arith, length-append held (e ∷ []));
    }

    pub refused-Tracks : slot ≡ no_slot → Tracks n held d
    refused-Tracks h = record {
      inv = s.inv;
      one = ap (λ (q : Config F). q.n_layer) s.cfg ∙ t.one;
      experts = ap (λ (q : Config F). q.n_expert) s.cfg ∙ t.experts;
      refs = λ f l. elim (ℕ_discrete f e) [
        | yes p ↦
            let (seated, rc) = s.refusal h in
            let mine : (entry d 0 e).rc ≡ 0 = own (λ en. en.rc ≡ 0) rc in
            ap (λ (i : ℕ). (entry d 0 i).rc) p
            ∙ mine
            ∙ sym (refused_before h)
            ∙ t.refs e k
            ∙ ap (λ (i : ℕ). count i held) (sym p)
        | no p ↦ other_rc f p ∙ t.refs f l
      ];
      none_else = t.none_else;
      fits = t.fits;
    }

    at_expert : (f : ℕ) → f ≡ e → (P : ℕ → Type 0) → P e → P f
    at_expert f p P = subst P (sym p)

    used_seated : 0 < (entry c 0 e).rc → is_seated (entry c 0 e).seg ≡ true
    used_seated u = elim (Bool-cases (is_seated (entry c 0 e).seg)) [
      | inl seated ↦ seated
      | inr bare ↦ absurd (omega (arith, ((t.inv.entries (idx c.cfg 0 e)).vacant bare).1))
    ]

    -- An expert that has a slot is found there.
    found : is_seated (entry c 0 e).seg ≡ true → (slot ≢ no_slot) × (slot ≡ (entry c 0 e).slot)
    found seated =
        let low = slot-lt c t.inv (idx c.cfg 0 e) (in_table e k) seated in
        let same = s.hit_slot (s.hit ∙ seated) in ((λ p. absurd (omega (arith, t.inv.slots))), same)

    -- The expert is in use in the slot that the answer names.
    pub served-here :
        slot ≢ no_slot
        → length held + 1 < 2 ^ 16
        → (e < d.cfg.n_expert) × (0 < (entry d 0 e).rc) × ((entry d 0 e).slot ≡ slot)
    served-here good room =
        let (seated, here, rc, low) = s.seat good in
        let mine : (entry d 0 e).rc ≡ inc16 (entry c 0 e).rc =
          own (λ en. en.rc ≡ inc16 (entry c 0 e).rc) rc in
        (
          in_layer,
          omega (arith, t.refs e k, count-le-length e held, room),
          own (λ en. en.slot ≡ slot) here,
        )

    used_stays :
        length held + 1 < 2 ^ 16
        → 0 < (entry c 0 e).rc
        → (0 < (entry d 0 e).rc) × ((entry d 0 e).slot ≡ (entry c 0 e).slot)
    used_stays room u =
        let (good, same) = found (used_seated u) in
        let (low, rc, here) = served-here good room in (rc, here ∙ same)

    -- The experts in use stay where they are.
    pub served-Keeping : length held + 1 < 2 ^ 16 → Keeping c d
    served-Keeping room = record {
      n_slot = s.n_slot;
      experts = ap (λ (q : Config F). q.n_expert) s.cfg;
      kept = λ f l u. elim (ℕ_discrete f e) [
        | no p ↦
            let same = ap (λ (i : ℕ). d.ent i) (place f) ∙ s.in_use (idx c.cfg 0 f) (apart f p) u in
            (omega (arith, ap (λ (en : Entry). en.rc) same), ap (λ (en : Entry). en.slot) same)
        | yes p ↦
            at_expert f p
              (λ i.
                0 < (entry c 0 i).rc
                → (0 < (entry d 0 i).rc) × ((entry d 0 i).slot ≡ (entry c 0 i).slot))
              (used_stays room) u
      ];
    }

    module _ {W : Type 0} (weights mem : ℕ → W) (l : Loaded weights mem c) where
      other_loaded :
          (f : ℕ)
          → f < n
          → f ≢ e
          → is_seated (entry d 0 f).seg ≡ true
          → mem (entry d 0 f).slot ≡ weights f
      other_loaded f h p seated =
          let (same, before) =
            s.stays (idx c.cfg 0 f) (apart f p)
              (ap (λ (i : ℕ). is_seated (d.ent i).seg) (sym (place f)) ∙ seated) in
          ap (λ (i : ℕ). mem (d.ent i).slot) (place f)
          ∙ ap mem same
          ∙ l f (omega (arith, t.experts)) before

      more : {f : ℕ} → f < d.cfg.n_expert → f < n
      more h = omega (arith, t.experts, ap (λ (q : Config F). q.n_expert) s.cfg)

      pub refused-Loaded : slot ≡ no_slot → Loaded weights mem d
      refused-Loaded r f h seated = elim (ℕ_discrete f e) [
        | yes p ↦
            let (bare, rc) = s.refusal r in
            let now : is_seated (entry d 0 e).seg ≡ false =
              own (λ en. is_seated en.seg ≡ false) bare in
            absurd (ground (arith, ap (λ (i : ℕ). is_seated (entry d 0 i).seg) p))
        | no p ↦ other_loaded f (more h) p seated
      ]

      pub hit-Loaded : hit ≡ true → Loaded weights mem d
      hit-Loaded r f h seated = elim (ℕ_discrete f e) [
        | yes p ↦
            let before : is_seated (entry c 0 e).seg ≡ true = sym s.hit ∙ r in
            let (good, same) = found before in
            let (now, here, rc, low) = s.seat good in
            at_expert f p (λ i. mem (entry d 0 i).slot ≡ weights i)
              (ap mem (own (λ en. en.slot ≡ slot) here ∙ same)
                ∙ l e (omega (arith, t.experts)) before)
        | no p ↦ other_loaded f (more h) p seated
      ]

      -- The read of a miss makes the expert right and disturbs no other.
      pub read-Loaded : slot ≢ no_slot → Loaded weights (update mem slot (weights e)) d
      read-Loaded r f h seated =
          let (now, here, rc, low) = s.seat r in
          let mine : (entry d 0 e).slot ≡ slot = own (λ en. en.slot ≡ slot) here in
          let taken : is_seated (entry d 0 e).seg ≡ true =
            own (λ en. is_seated en.seg ≡ true) now in
          elim (ℕ_discrete f e) [
            | yes p ↦
                at_expert f p (λ i. update mem slot (weights e) (entry d 0 i).slot ≡ weights i)
                  (update_at mem slot _ _ mine)
            | no p ↦
                update_ne mem slot _ _ (λ q.
                  slots_differ d s.inv (idx d.cfg 0 f) (idx d.cfg 0 e) (λ u. p (omega arith))
                    (in_new f (more h)) (in_new e k) seated taken (q ∙ sym mine))
                ∙ other_loaded f (more h) p seated
          ]
