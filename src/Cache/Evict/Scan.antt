-- ===== src/Cache/Evict/Scan.antt =====
-- The rounds of one pass of `evict_one` as a relation: what a pass does, without its counter.
use moestream.Prelude.{ℕ, zero, suc, ◌≡◌, refl, ◌⊎◌, inl, inr, Bool, true, false, List, [], ◌∷◌}
use moestream.Cache.State.{ExpertCache, entry}
use moestream.Cache.Evict.{
  Pass, queue, rotate, spend_chance, evict, judge, evict_rounds, Verdict, in_use, spared, taken,
}

module _ {F : Type 0} (pass : Pass) (layer : ℕ) where
  pub data Scan : ExpertCache F → ExpertCache F × Bool → Type 0 where
    done : (c : ExpertCache F) → Scan c (c, false)
    skip :
        (c : ExpertCache F) (e : ℕ) (rest : List ℕ) {r : ExpertCache F × Bool}
        → queue pass (c.lay layer) ≡ e ∷ rest
        → judge pass (entry c layer e) ≡ in_use
        → Scan (rotate pass layer e rest c) r
        → Scan c r
    spare :
        (c : ExpertCache F) (e : ℕ) (rest : List ℕ) {r : ExpertCache F × Bool}
        → queue pass (c.lay layer) ≡ e ∷ rest
        → judge pass (entry c layer e) ≡ spared
        → Scan (rotate pass layer e rest (spend_chance layer e c)) r
        → Scan c r
    take :
        (c : ExpertCache F) (e : ℕ) (rest : List ℕ)
        → queue pass (c.lay layer) ≡ e ∷ rest
        → judge pass (entry c layer e) ≡ taken
        → Scan c (evict pass layer e rest c, true)

pub List-cases {ℓ} :
    {A : Type ℓ} (xs : List A) → (xs ≡ []) ⊎ ((x : A) × (r : List A) × (xs ≡ x ∷ r))
List-cases [] = inl refl
List-cases (x ∷ r) = inr (x, r, refl)

pub Verdict-cases : (w : Verdict) → (w ≡ in_use) ⊎ (w ≡ spared) ⊎ (w ≡ taken)
Verdict-cases in_use = inl refl
Verdict-cases spared = inr (inl refl)
Verdict-cases taken = inr (inr refl)

module _ {F : Type 0} where
  pub evict_rounds-Scan :
      (n : ℕ) (pass : Pass) (layer : ℕ) (c : ExpertCache F)
      → Scan pass layer c (evict_rounds n pass layer c)
  unfolding evict_rounds
  evict_rounds-Scan zero pass layer c = Scan.done c
  evict_rounds-Scan (suc n) pass layer c = elim (List-cases (queue pass (c.lay layer))) [
    | inl q ↦ rw (q, evict_rounds) (Scan.done c)
    | inr (e, rest, q) ↦ elim (Verdict-cases (judge pass (entry c layer e))) [
      | inl w ↦
          rw (q, w, evict_rounds)
            (Scan.skip c e rest q w (evict_rounds-Scan n pass layer (rotate pass layer e rest c)))
      | inr (inl w) ↦
          rw (q, w, evict_rounds)
            (Scan.spare c e rest q w
              (evict_rounds-Scan n pass layer (rotate pass layer e rest (spend_chance layer e c))))
      | inr (inr w) ↦ rw (q, w, evict_rounds) (Scan.take c e rest q w)
    ]
  ]
