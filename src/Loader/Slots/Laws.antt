-- ===== src/Loader/Slots/Laws.antt =====
-- Bounds on the slots of a slab and on the passes of a batch.
use moestream.Prelude.{
  ℕ, ◌+◌, ◌%◌, ◌^◌, ◌<◌, ◌≤◌, ◌≡◌, ◌⊎◌, inl, inr, refl, sym, subst, Bool, true, false, not, ◌&&◌,
  ◌||◌, Option, none, some, ltb, leb, ◌==◌, if◌then◌else◌, if_intro, arith,
}
use native.Mathlib.Nat.{mod-eq_of_lt}
use moestream.Prelude.Int.{ℤ, pos, negsuc, ltb_ℤ, ◌≤ℤ◌}
use moestream.Cache.Doubles.{Doubles}
use moestream.Loader.Names.{Name, parse_name}
use moestream.Loader.Tables.{is_some}
use moestream.Loader.Slots.{
  min, max, Sizing, Sizes, wanted_slots, needed_slots, top_k, fit_slots, slab_slots, union_of,
  percent, known_topk, n_passes,
}

-- At least 8, at least what a batch needs of the experts that there are, and no more than the
-- experts or 8.
fit_slots-bounds :
    (s need n : ℕ)
    → (8 ≤ fit_slots s need n) × (min need n ≤ fit_slots s need n) × (fit_slots s need n ≤ max 8 n)
fit_slots-bounds s need n = (ground arith, ground arith, ground arith)

positive : (f : ℤ) → ltb_ℤ (pos 0) f ≡ true → pos 1 ≤ℤ f
positive (pos n) h = ground arith
positive (negsuc n) h = absurd (ground arith)

at_least_one :
    (p : ℤ)
    → p ≤ℤ pos 8
    → let r = if ltb_ℤ (pos 1) p then p else pos 1 in (pos 1 ≤ℤ r) × (r ≤ℤ pos 8)
at_least_one p h =
    if_intro (λ (r : ℤ). (pos 1 ≤ℤ r) × (r ≤ℤ pos 8)) (ltb_ℤ (pos 1) p) _ _ (λ a. (ground arith, h))
      (λ a. (omega arith, omega arith))

clamp-bounds :
    (want : ℤ)
    → let most = if ltb_ℤ (pos 8) want then pos 8 else want in
      let p = if ltb_ℤ (pos 1) most then most else pos 1 in (pos 1 ≤ℤ p) × (p ≤ℤ pos 8)
clamp-bounds want = at_least_one _ (
    if_intro (λ (m : ℤ). m ≤ℤ pos 8) (ltb_ℤ (pos 8) want) (pos 8) want (λ a. omega arith)
      (λ a. ground arith))

module _ (D : Doubles) where
  open D use {Double}

  module _ (enabled : Bool) (sizing : Sizing Double) (tk_meta : ℤ) (max_ubatch : ℕ) (name : Name)
      (n : ℕ) (st : Sizes) where
    abbrev got : Sizes × ℕ
    got = slab_slots D enabled sizing tk_meta max_ubatch name n st

    -- The rows that are allocated, the null expert's place and the slots of the slab.
    abbrev pub Sized : Sizes × ℕ → Type 0
    Sized x =
        (x.1 ≡ x.0.slots + 1)
        × (x.0.zero_slot ≡ x.0.slots)
        × (8 ≤ x.0.slots)
        × (min (needed_slots D n (top_k tk_meta) max_ubatch) n ≤ x.0.slots)
        × (x.0.slots ≤ max 8 n)

    -- For less than 2^32 - 1 experts: the slab of an expert tensor, with the library enabled and
    -- more than one expert, has one row more than its slots, which is the null expert's, at least
    -- 8 slots, at least as many as a batch needs of the experts that there are, and no more than
    -- the experts or 8. Any other tensor gets no rows and changes nothing.
    pub slab_slots-Sized :
        n + 1 < 2 ^ 32
        → ((enabled && (is_some (parse_name name) && ltb 1 n)) ≡ true → Sized got)
          × ((enabled && (is_some (parse_name name) && ltb 1 n)) ≡ false → got ≡ (st, 0))
    unfolding slab_slots
    slab_slots-Sized h = (
      λ c.
          if_intro Sized (not enabled) _ _ (λ a. absurd (ground arith))
            (λ a.
              if_intro Sized (not (is_some (parse_name name)) || leb n 1) _ _
                (λ b. absurd (ground arith))
                (λ b. (omega (arith, small), refl, bounds.0, bounds.1, bounds.2))),
      λ c.
          if_intro (λ (x : Sizes × ℕ). x ≡ (st, 0)) (not enabled) _ _ (λ a. refl)
            (λ a.
              if_intro (λ (x : Sizes × ℕ). x ≡ (st, 0)) (not (is_some (parse_name name)) || leb n 1)
                _ _ (λ b. refl) (λ b. absurd (ground arith))),
    )
      where
        need : ℕ
        need = needed_slots D n (top_k tk_meta) max_ubatch

        s : ℕ
        s = fit_slots (wanted_slots D sizing n) need (n % 2 ^ 32)

        bounds : (8 ≤ s) × (min need n ≤ s) × (s ≤ max 8 n)
        bounds =
            subst
              (λ (k : ℕ).
                (8 ≤ fit_slots (wanted_slots D sizing n) need k)
                × (min need n ≤ fit_slots (wanted_slots D sizing n) need k)
                × (fit_slots (wanted_slots D sizing n) need k ≤ max 8 n))
              (sym (mod-eq_of_lt {n = n} {m = 2 ^ 32} (omega arith)))
              (fit_slots-bounds (wanted_slots D sizing n) need n)

        small : (s + 1) % 2 ^ 32 ≡ s + 1
        small = mod-eq_of_lt {n = s + 1} {m = 2 ^ 32} (ground (arith, bounds))

  module _ (allow : Bool) (force : ℤ) (enabled : Bool) (slots : ℕ) (tk_m : ℤ)
      (seen n_tokens : ℕ) where
    pub n_passes-bounds :
        (first : Option ℕ)
        → let p = n_passes D allow force enabled slots first tk_m seen n_tokens in
          (pos 1 ≤ℤ p)
          × ((p ≤ℤ pos 8) ⊎ ((allow && (ltb_ℤ (pos 0) force && ltb 8 n_tokens)) ≡ true))
          × (allow ≡ false → p ≡ pos 1)
    unfolding n_passes
    n_passes-bounds none = (omega arith, inl (omega arith), λ a. refl)
    n_passes-bounds (some n) =
        if_intro P (not allow) _ _ (λ a. one)
          (λ a.
            if_intro P (not enabled || slots == 0 || n == 0) _ _ (λ b. one)
              (λ b.
                if_intro P (ltb_ℤ (pos 0) force && ltb 8 n_tokens) _ _
                  (λ c.
                    (positive force (ground arith), inr (ground arith), λ d. absurd (ground arith)))
                  (λ c.
                    if_intro P (leb n slots) _ _ (λ d. one)
                      (λ d.
                        let (low, high) = clamp-bounds (want n) in
                        (low, inl high, λ e. absurd (ground arith))))))
      where
        P : ℤ → Type 0
        P p =
            (pos 1 ≤ℤ p)
            × ((p ≤ℤ pos 8) ⊎ ((allow && (ltb_ℤ (pos 0) force && ltb 8 n_tokens)) ≡ true))
            × (allow ≡ false → p ≡ pos 1)

        want : ℕ → ℤ
        want n = D.to_int64 (
            D.ceil (
              D.div
                (D.add
                  (D.mul (union_of D n (D.from_nat (known_topk tk_m seen)) n_tokens)
                    (percent D 110))
                  (D.from_nat (known_topk tk_m seen)))
                (D.from_nat slots)))

        one : P (pos 1)
        one = (omega arith, inl (omega arith), λ a. refl)
