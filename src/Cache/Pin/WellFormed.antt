-- ===== src/Cache/Pin/WellFormed.antt =====
-- Pinning keeps the cache well formed and never takes a slot from an expert that has one.
use moestream.Prelude.{
  ℕ, zero, suc, ◌+◌, ◌*◌, ◌%◌, ◌^◌, ◌≤◌, ◌<◌, ◌≡◌, refl, sym, ap, subst, ◌∙◌, true, false, ◌||◌,
  not, List, [], ◌∷◌, update_ne, count, length, ◌==◌, if_intro, inc32, arith,
}
use moestream.Cache.Doubles.{Doubles}
use moestream.Cache.State.{Seg, is_seated, Config, ExpertCache, total, idx, entry}
use moestream.Cache.Inv.{Inv}
use moestream.Cache.Change.{Reseats, reseat-Inv}
use moestream.Cache.Evict.WellFormed.{resident-lt}
use moestream.Cache.Pin.{take, pin, pin_one, pin_all, per_layer, to_pin, pin_layers, build_pinned}

abbrev pub AllBelow : ℕ → List ℕ → Type 0
AllBelow n [] = Unit {0}
AllBelow n (x ∷ xs) = (x < n) × AllBelow n xs

take-AllBelow : (n k : ℕ) (xs : List ℕ) → AllBelow n xs → AllBelow n (take k xs)
take-AllBelow n zero xs h = tt
take-AllBelow n (suc k) [] h = tt
take-AllBelow n (suc k) (x ∷ xs) h = (h.0, take-AllBelow n k xs h.1)

module _ {F : Type 0} where
  -- What pinning keeps: the configuration, every counter of references, every seat that was taken.
  pub record Pins (c d : ExpertCache F) : Type 0 where
    pub inv : Inv d
    pub cfg : d.cfg ≡ c.cfg
    pub seated : (i : ℕ) → is_seated (c.ent i).seg ≡ true → d.ent i ≡ c.ent i

  Pins-trans : {b c d : ExpertCache F} → Pins b c → Pins c d → Pins b d
  Pins-trans f g = record {
    inv = g.inv;
    cfg = g.cfg ∙ f.cfg;
    seated = λ i h. ground (arith, f.seated i, g.seated i);
  }

  module _ (c : ExpertCache F) (layer e s : ℕ) (rest : List ℕ) (v : Inv c)
      (h : layer < c.cfg.n_layer) (k : e < c.cfg.n_expert) (f : c.free ≡ s ∷ rest)
      (none : is_seated (entry c layer e).seg ≡ false) where
    pin-Reseats :
        Reseats c layer e
          (record (entry c layer e) { slot = s; seg = Seg.pinned; resident = true })
          (record (c.lay layer) {
            pinned = inc32 (c.lay layer).pinned;
            resident = inc32 (c.lay layer).resident;
          })
          rest
    pin-Reseats =
        let counted = v.layers layer in
        let good = v.entries (idx c.cfg layer e) in
        let room = resident-lt c layer v h in
        record {
          layer_range = h;
          expert_range = k;
          good_entry = record { vacant = λ p. absurd (ground arith); capped = good.capped };
          good_layer = record { residents = omega (arith, counted.residents) };
          owned = λ x. ground (arith, none, ap (count x) f);
          small = λ x. ground (arith, none);
          main = λ x. ground (arith, none);
          seats = omega (arith, ap length f);
        }

    pin-Pins : Pins c (pin layer e s rest c)
    unfolding pin
    pin-Pins = record {
      inv = reseat-Inv c v layer e _ _ rest pin-Reseats c.st _ (λ j. ground (arith, v.mirrored j));
      cfg = refl;
      seated = λ i p. update_ne c.ent _ i _ (λ q. ground (arith, ap (λ (j : ℕ). (c.ent j).seg) q));
    }

  Pins-refl : (c : ExpertCache F) → Inv c → Pins c c
  Pins-refl c v = record { inv = v; cfg = refl; seated = λ i h. refl }

  pin_one-Pins :
      (c : ExpertCache F) (layer e : ℕ) (free : List ℕ)
      → Inv c
      → layer < c.cfg.n_layer
      → e < c.cfg.n_expert
      → c.free ≡ free
      → Pins c (pin_one layer e free c)
  unfolding pin_one
  pin_one-Pins c layer e [] v h k f = Pins-refl c v
  pin_one-Pins c layer e (s ∷ rest) v h k f =
      if_intro (Pins c) (is_seated (entry c layer e).seg) _ _ (λ b. Pins-refl c v)
        (λ b. pin-Pins c layer e s rest v h k f b)

  in_layers : {k q : Config F} (l : ℕ) → q ≡ k → l < k.n_layer → l < q.n_layer
  in_layers l p h = omega (arith, ap (λ (t : Config F). t.n_layer) p)

  pin_all-Pins :
      (c : ExpertCache F) (layer : ℕ) (es : List ℕ)
      → Inv c
      → layer < c.cfg.n_layer
      → AllBelow c.cfg.n_expert es
      → Pins c (pin_all layer es c)
  unfolding pin_all
  pin_all-Pins c layer [] v h all = Pins-refl c v
  pin_all-Pins c layer (e ∷ es) v h all =
      let one = pin_one-Pins c layer e c.free v h all.0 refl in
      Pins-trans one (
        pin_all-Pins (pin_one layer e c.free c) layer es one.inv (in_layers layer one.cfg h)
          (subst (λ q. AllBelow q.n_expert es) (sym one.cfg) all.1))

module _ (D : Doubles) (partial_sort : ℕ → ℕ → (ℕ → ℕ) → List ℕ)
    (sorts : (n per : ℕ) (key : ℕ → ℕ) → AllBelow n (partial_sort n per key)) where
  open D use {Double, le, from_nat}

  to_pin-AllBelow :
      (l : ℕ) (freq : ℕ → ℕ) (cfg : Config Double)
      → AllBelow cfg.n_expert (to_pin D partial_sort l freq cfg)
  unfolding to_pin
  to_pin-AllBelow l freq cfg =
      take-AllBelow cfg.n_expert (per_layer D cfg)
        (partial_sort cfg.n_expert (per_layer D cfg) (λ e. freq ((l * cfg.n_expert) % 2 ^ 32 + e)))
        (sorts cfg.n_expert _ _)

  pin_layers-Pins :
      (n : ℕ) (freq : ℕ → ℕ) (c : ExpertCache Double)
      → Inv c
      → n ≤ c.cfg.n_layer
      → Pins c (pin_layers D partial_sort n freq c)
  unfolding pin_layers
  pin_layers-Pins zero freq c v h = Pins-refl c v
  pin_layers-Pins (suc n) freq c v h =
      let before = pin_layers-Pins n freq c v (omega arith) in
      let d = pin_layers D partial_sort n freq c in
      Pins-trans before (
        pin_all-Pins d n (to_pin D partial_sort n freq d.cfg) before.inv
          (in_layers n before.cfg (omega arith)) (to_pin-AllBelow n freq d.cfg))

  -- Pinning keeps a well-formed cache well formed, the configuration, and every expert that has a slot,
  -- provided that the sort returns experts of the model.
  pub build_pinned-Pins :
      (freq_size : ℕ) (freq : ℕ → ℕ) (c : ExpertCache Double)
      → Inv c
      → Pins c (build_pinned D partial_sort freq_size freq c)
  unfolding build_pinned
  build_pinned-Pins freq_size freq c v =
      if_intro (Pins c) (le c.cfg.pin_ratio (from_nat 0) || not (freq_size == total c.cfg)) _ _
        (λ b. Pins-refl c v) (λ b. pin_layers-Pins c.cfg.n_layer freq c v (omega arith))
