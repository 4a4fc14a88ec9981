-- ===== src/Finalize/Threshold/Laws.antt =====
-- The threshold is the first number of tokens that may not grow.
use moestream.Prelude.{
  ℕ, zero, suc, ◌+◌, ◌≤◌, ◌<◌, ◌≡◌, ◌⊎◌, refl, sym, ap, ◌∙◌, subst, inl, inr, Bool, true, false,
  if◌then◌else◌, if_intro, Bool-cases, arith,
}
use native.Mathlib.Decide.{dec_lt}
use moestream.Prelude.Int.{ℤ, pos, negsuc, ltb_ℤ}
use moestream.Cache.Doubles.{Doubles}
use moestream.Loader.Slots.{known_topk}
use moestream.Finalize.Threshold.{grow, exceeds, pf_threshold}

-- The loop ends at `t`: no number before it exceeds, and `t` does or is the last one.
abbrev pub Ends : (ℕ → Bool) → ℕ → ℕ → ℕ → Type 0
Ends over start last t =
    (start ≤ t)
    × (t ≤ last)
    × ((m : ℕ) → start ≤ m → m < t → over m ≡ false)
    × ((over t ≡ true) ⊎ (t ≡ last))

grow-Ends : (over : ℕ → Bool) (k n : ℕ) → Ends over n (n + k) (grow over k n)
unfolding grow
grow-Ends over zero n =
    (omega arith, omega arith, λ m a b. absurd (omega (arith, a, b)), inr (omega arith))
grow-Ends over (suc k) n = elim (Bool-cases (over n)) [
  | inl s ↦
      subst (Ends over n (n + suc k))
        (sym (ap (λ (b : Bool). if b then n else grow over k (n + 1)) s))
        (omega arith, omega arith, λ m a b. absurd (omega (arith, a, b)), inl s)
  | inr s ↦
      let (low, high, before, last) = grow-Ends over k (n + 1) in
      subst (Ends over n (n + suc k))
        (sym (ap (λ (b : Bool). if b then n else grow over k (n + 1)) s))
        (omega (arith, low), omega (arith, high), first_or before s, last_of last)
]
  where
    t : ℕ
    t = grow over k (n + 1)

    first_or :
        ((m : ℕ) → n + 1 ≤ m → m < t → over m ≡ false)
        → over n ≡ false
        → (m : ℕ) → n ≤ m
        → m < t
        → over m ≡ false
    first_or before s m a b = elim (dec_lt n m) [
      | yes c ↦ before m (omega (arith, c)) b
      | no c ↦ ap over (omega (arith, a, c)) ∙ s
    ]

    last_of : (over t ≡ true) ⊎ (t ≡ n + 1 + k) → (over t ≡ true) ⊎ (t ≡ n + suc k)
    last_of (inl a) = inl a
    last_of (inr a) = inr (omega (arith, a))

-- Where no threshold is set, it becomes the first number from 1 on, with at most 4096, at which the
-- experts of one token more need more slots than there are: every smaller number is one at which they
-- do not.
pub pf_threshold-Ends :
    (D : Doubles) (n_expert : ℕ) (tk_m : ℤ) (seen slots k : ℕ)
    → (t : ℕ) × (pf_threshold D n_expert tk_m seen slots (negsuc k) ≡ pos t)
      × Ends (exceeds D n_expert (known_topk tk_m seen) slots) 1 4096 t
unfolding pf_threshold
pf_threshold-Ends D n_expert tk_m seen slots k =
    let over = exceeds D n_expert (known_topk tk_m seen) slots in
    (
      grow over 4095 1,
      if_intro (λ (v : ℤ). v ≡ pos (grow over 4095 1)) (ltb_ℤ (negsuc k) (pos 0)) _ _ (λ b. refl)
          (λ b. absurd (ground arith)),
      grow-Ends over 4095 1,
    )
