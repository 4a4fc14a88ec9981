-- ===== src/Cache/Create/WellFormed.antt =====
-- A new cache is well formed, and its quotas share out the slots evenly.
use moestream.Prelude.{
  ℕ, zero, suc, ◌+◌, ◌-◌, ◌*◌, ◌/◌, ◌%◌, ◌^◌, ◌<◌, ◌≡◌, refl, ap, ◌∙◌, update, length, count, ltb,
  leb, ◌&&◌, if◌then◌else◌, sum_below, sum_below-zero, sum_below-ext, sum_below-shares, inc32,
  arith,
}
use native.Mathlib.Nat.{mod-eq_of_lt, div-le_self}
use moestream.Cache.Doubles.{Doubles}
use moestream.Cache.State.{Config, no_slot, total}
use moestream.Cache.Inv.{Inv, IsConfig, holds}
use moestream.Cache.Create.{slots_from, hand_out, slot_count, create, blank_entry}

count-slots_from :
    (x s n : ℕ) → count x (slots_from s n) ≡ (if leb s x && ltb x (s + n) then 1 else 0)
unfolding slots_from
count-slots_from x s zero = ground arith
count-slots_from x s (suc n) = ground (arith, count-slots_from x (s + 1) n)

length-slots_from : (s n : ℕ) → length (slots_from s n) ≡ n
unfolding slots_from
length-slots_from s zero = refl
length-slots_from s (suc n) = omega (arith, length-slots_from (s + 1) n)

module _ (D : Doubles) where
  open D use {Double}

  -- A configuration with at least one layer, whose table fits 32 bits and whose slots fit below
  -- `NO_SLOT`, makes a well-formed cache.
  pub create-Inv :
      (cfg : Config Double) → IsConfig cfg → slot_count D cfg < no_slot → Inv (create D cfg)
  unfolding create
  create-Inv cfg ok fits = record {
    config = ok;
    slots = fits;
    owned = λ s. ground (
      arith,
      count-slots_from s 0 (slot_count D cfg),
      sum_below-zero (total cfg) (λ i. holds s blank_entry) (λ i. refl),
    );
    mirrored = λ i. refl;
    entries = λ i. record { vacant = λ p. (refl, refl); capped = omega arith };
    layers = λ l. record { residents = refl };
    smalls = λ l e h. ground arith;
    mains = λ l e h. ground arith;
    seats = omega (
      arith,
      length-slots_from 0 (slot_count D cfg),
      sum_below-zero cfg.n_layer (λ l. 0) (λ l. refl),
    );
  }

-- The layers below `l` have their extra slot.
hand_out-quota :
    (n_layer r l even : ℕ) (quota : ℕ → ℕ)
    → l + r < n_layer
    → even + 1 < 2 ^ 32
    → ((m : ℕ) → quota m ≡ even + (if ltb m l then 1 else 0))
    → (m : ℕ) → hand_out n_layer r l quota m ≡ even + (if ltb m (l + r) then 1 else 0)
unfolding hand_out
hand_out-quota n_layer zero l even quota h fits q m = ground (arith, q m)
hand_out-quota n_layer (suc r) l even quota h fits q m =
    let e : l % n_layer ≡ l = mod-eq_of_lt (omega arith) in
    let next = update quota (l % n_layer) (inc32 (quota (l % n_layer))) in
    let shared : (k : ℕ) → next k ≡ even + (if ltb k (l + 1) then 1 else 0) =
      λ k. rw e (ground (arith, q k, q l)) in
    hand_out-quota n_layer r (l + 1) even next (omega arith) fits shared m
    ∙ ap (λ (t : ℕ). even + (if ltb m t then 1 else 0)) (omega arith)

rebuilt : (n k : ℕ) → k * (n / k) + n % k ≡ n
rebuilt n k = omega arith

leftover : (n k : ℕ) → n - n / k * k ≡ n % k
leftover n k = omega (arith, rebuilt n k)

remainder-lt : (n k : ℕ) → 0 < k → n % k < k
remainder-lt n k h = omega arith

module _ (D : Doubles) (cfg : Config D.Double) (ok : IsConfig cfg)
    (fits : slot_count D cfg < no_slot) where
  -- With a configuration as for `create-Inv`, every layer gets an equal share of the slots, the first
  -- layers one more where they do not divide evenly.
  pub create-quota :
      (l : ℕ)
      → (create D cfg).quota l
        ≡ slot_count D cfg / cfg.n_layer + (if ltb l (slot_count D cfg % cfg.n_layer) then 1 else 0)
  unfolding create
  create-quota l =
      let n = slot_count D cfg in
      let even = n / cfg.n_layer in
      let left : n - even * cfg.n_layer ≡ n % cfg.n_layer = leftover n cfg.n_layer in
      hand_out-quota cfg.n_layer (n - even * cfg.n_layer) 0 even (λ _. even)
        (omega (arith, left, ok.layers, remainder-lt n cfg.n_layer ok.layers))
        (omega (arith, div-le_self n cfg.n_layer, fits)) (λ m. ground arith) l
      ∙ ap (λ (t : ℕ). even + (if ltb l t then 1 else 0)) (omega (arith, left))

  -- With a configuration as for `create-Inv`, the quotas of the new cache add up to its slots.
  pub create-quota_sum : sum_below cfg.n_layer (create D cfg).quota ≡ slot_count D cfg
  create-quota_sum =
      let n = slot_count D cfg in
      let even = n / cfg.n_layer in
      let r = n % cfg.n_layer in
      sum_below-ext cfg.n_layer _ _ (λ l _. create-quota l)
      ∙ sum_below-shares cfg.n_layer even r
      ∙ ground (arith, rebuilt n cfg.n_layer, remainder-lt n cfg.n_layer ok.layers)
