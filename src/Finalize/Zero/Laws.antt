-- ===== src/Finalize/Zero/Laws.antt =====
-- The zeros come from a vector of the size that the start computed.
use mathlib.Core.Option.{some-injective, none-ne-some}
use moestream.Prelude.{
  ℕ, ◌≤◌, ◌<◌, ◌≡◌, ◌⊎◌, refl, sym, ap, ◌∙◌, subst, inl, inr, Bool, true, not, ◌&&◌, some, List, [],
  ◌∷◌, ltb, if◌then◌else◌, if_intro, Bool-cases, arith,
}
use moestream.Prelude.Int.{ℤ}
use moestream.Io.Read.{SlabInfo}
use moestream.Loader.Map.{same_key, same_key-eq, lookup}
use moestream.Loader.Tables.{LayerSlabs}
use moestream.Finalize.Zero.{
  Outcome, done, past_end, ◌>>=◌, Slabs, TensorSet, zero_role, zero_layers,
}

-- Some bytes are read of a vector that has none.
abbrev pub Overruns {ℓ} : {A : Type ℓ} → Outcome A → Type ℓ
Overruns o = (n : ℕ) × (0 < n) × (o ≡ past_end n 0)

pub >>=-Overruns {ℓ κ} :
    {A : Type ℓ} {B : Type κ} (m : Outcome A) (f : A → Outcome B) → Overruns m → Overruns (m >>= f)
>>=-Overruns m f (n, some_byte, q) = (n, some_byte, ap (λ (o : Outcome _). o >>= f) q)

-- It overruns here, or whatever follows decides.
>>=-follow {ℓ κ} :
    {A : Type ℓ} {B : Type κ} (m : Outcome A) (f : A → Outcome B)
    → Overruns m ⊎ ((a : A) × (m ≡ done a))
    → ((a : A) → Overruns (f a))
    → Overruns (m >>= f)
>>=-follow m f (inl over) later = >>=-Overruns m f over
>>=-follow m f (inr (a, q)) later =
    let (n, some_byte, p) = later a in (n, some_byte, ap (λ (o : Outcome _). o >>= f) q ∙ p)

module _ (tensor_set : TensorSet) (has_buffer : ℤ → ℕ → Bool) (zero_slot : ℕ) where
  abbrev role_of : ℤ → ℕ → SlabInfo → Slabs → Outcome Slabs
  role_of = zero_role tensor_set has_buffer 0 zero_slot

  zero_role-cases :
      (il : ℤ) (role : ℕ) (si : SlabInfo) (slabs : Slabs)
      → Overruns (role_of il role si slabs) ⊎ ((s : Slabs) × (role_of il role si slabs ≡ done s))
  unfolding zero_role
  zero_role-cases il role si slabs =
      if_intro P (not (si.present && has_buffer il role)) _ _ (λ b. inr (slabs, refl))
        (λ b.
          if_intro P (ltb 0 si.expert_bytes) _ _
            (λ c. inl (si.expert_bytes, ground (arith, c), refl)) (λ c. inr (_, refl)))
    where
      P : Outcome Slabs → Type 0
      P o = Overruns o ⊎ ((s : Slabs) × (o ≡ done s))

  zero_role-Overruns :
      (il : ℤ) (role : ℕ) (si : SlabInfo) (slabs : Slabs)
      → (si.present && has_buffer il role) ≡ true
      → 0 < si.expert_bytes
      → Overruns (role_of il role si slabs)
  unfolding zero_role
  zero_role-Overruns il role si slabs there some_byte =
      if_intro Overruns (not (si.present && has_buffer il role)) _ _
        (λ b. absurd (ground (arith, b, there)))
        (λ b.
          if_intro Overruns (ltb 0 si.expert_bytes) _ _ (λ c. (si.expert_bytes, some_byte, refl))
            (λ c. absurd (ground (arith, c, some_byte))))

  -- With an empty vector, a member that is there with a buffer is enough for an overrun.
  pub zero_layers-Overruns :
      (layers : List (ℤ × LayerSlabs)) (il : ℤ) (l : LayerSlabs) (slabs : Slabs)
      → lookup il layers ≡ some l
      → (l.gate.present && has_buffer il 0) ≡ true
      → 0 < l.gate.expert_bytes
      → Overruns (zero_layers tensor_set has_buffer 0 zero_slot layers slabs)
  unfolding zero_layers lookup
  zero_layers-Overruns [] il l slabs here there some_byte = absurd (none-ne-some l here)
  zero_layers-Overruns ((k, x) ∷ layers) il l slabs here there some_byte =
      elim (Bool-cases (same_key k il)) [
        | inl s ↦
            let same =
              some-injective x l
                (sym (ap (λ (b : Bool). if b then some x else lookup il layers) s) ∙ here) in
            >>=-Overruns (role_of k 0 x.gate slabs) _ (
              zero_role-Overruns k 0 x.gate slabs
                (ap (λ (y : LayerSlabs). y.gate.present && has_buffer k 0) same
                  ∙ ap (λ (j : ℤ). l.gate.present && has_buffer j 0) (same_key-eq k il s)
                  ∙ there)
                (subst (λ (y : LayerSlabs). 0 < y.gate.expert_bytes) (sym same) some_byte))
        | inr s ↦
            let later = sym (ap (λ (b : Bool). if b then some x else lookup il layers) s) ∙ here in
            >>=-follow (role_of k 0 x.gate slabs) _ (zero_role-cases k 0 x.gate slabs) (λ gate.
              >>=-follow (role_of k 1 x.up gate) _ (zero_role-cases k 1 x.up gate) (λ up.
                >>=-follow (role_of k 2 x.down up) _ (zero_role-cases k 2 x.down up)
                  (λ down. zero_layers-Overruns layers il l down later there some_byte)))
      ]

-- No member of the layer has larger experts.
abbrev pub Bounded : ℕ → LayerSlabs → Type 0
Bounded most l =
    (l.gate.expert_bytes ≤ most) × (l.up.expert_bytes ≤ most) × (l.down.expert_bytes ≤ most)

abbrev pub AllBounded : ℕ → List (ℤ × LayerSlabs) → Type 0
AllBounded most [] = Unit {0}
AllBounded most ((il, l) ∷ layers) = Bounded most l × AllBounded most layers

>>=-done :
    {A : Type 0} {B : Type 0} {m : Outcome A} (f : A → Outcome B) {x : A} {o : Outcome B}
    → m ≡ done x
    → f x ≡ o
    → (m >>= f) ≡ o
>>=-done f p q = ap (λ (m : Outcome _). m >>= f) p ∙ q

module _ (tensor_set : TensorSet) (has_buffer : ℤ → ℕ → Bool) (maxb zero_slot : ℕ) where
  zero_role-done :
      (il : ℤ) (role : ℕ) (si : SlabInfo) (slabs : Slabs)
      → si.expert_bytes ≤ maxb
      → (s : Slabs) × (zero_role tensor_set has_buffer maxb zero_slot il role si slabs ≡ done s)
  unfolding zero_role
  zero_role-done il role si slabs h =
      if_intro P (not (si.present && has_buffer il role)) _ _ (λ b. (slabs, refl))
        (λ b.
          if_intro P (ltb maxb si.expert_bytes) _ _ (λ c. absurd (ground (arith, c, h)))
            (λ c. (_, refl)))
    where
      P : Outcome Slabs → Type 0
      P o = (s : Slabs) × (o ≡ done s)

  -- A vector that is large enough for every member is never overrun.
  pub zero_layers-done :
      (layers : List (ℤ × LayerSlabs)) (slabs : Slabs)
      → AllBounded maxb layers
      → (s : Slabs) × (zero_layers tensor_set has_buffer maxb zero_slot layers slabs ≡ done s)
  unfolding zero_layers
  zero_layers-done [] slabs h = (slabs, refl)
  zero_layers-done ((il, l) ∷ layers) slabs ((a, b, c), h) =
      let (gate, p) = zero_role-done il 0 l.gate slabs a in
      let (up, q) = zero_role-done il 1 l.up gate b in
      let (down, r) = zero_role-done il 2 l.down up c in
      let (all, s) = zero_layers-done layers down h in
      (all, >>=-done _ p (>>=-done _ q (>>=-done _ r s)))
