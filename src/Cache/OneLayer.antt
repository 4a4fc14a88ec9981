-- ===== src/Cache/OneLayer.antt =====
-- A cache with one layer whose quota is all slots, as src/llama-moestream.cpp makes one for each
-- layer of the model: when it has no slot to give.
use moestream.Prelude.{
  ℕ, ◌+◌, ◌<◌, ◌≡◌, ◌≢◌, ◌↔◌, refl, sym, ap, ◌∙◌, inl, inr, Bool, true, false, List, [], ◌∷◌,
  length, leb, sum_below-one, Bool-cases, arith,
}
use native.Mathlib.Decide.{ℕ_discrete}
use moestream.Cache.State.{ExpertCache, no_slot, entry}
use moestream.Cache.Inv.{Inv}
use moestream.Cache.Evict.{evict, evict_one}
use moestream.Cache.Evict.Outcome.{Outcome, kept, freed, evict_one-Outcome}
use moestream.Cache.Evict.Progress.{InQueue, evict_one-fails_iff}
use moestream.Cache.Alloc.{alloc_slot, take_free, pop_or, after_evict}
use moestream.Cache.Alloc.Outcome.{evict_one-Keeps}
use moestream.Cache.Acquire.Cases.{free-lt}

module _ {F : Type 0} where
  pub record IsOneLayer (c : ExpertCache F) : Type 0 where
    pub one : c.cfg.n_layer ≡ 1
    pub whole : c.quota 0 ≡ c.n_slot

  -- Every expert that has a slot and is not pinned is in use.
  abbrev pub AllInUse : ExpertCache F → Type 0
  AllInUse c = (e : ℕ) → InQueue c 0 e → 0 < (entry c 0 e).rc

  module _ (c : ExpertCache F) (v : Inv c) (o : IsOneLayer c) where
    zero-lt : 0 < c.cfg.n_layer
    zero-lt = omega (arith, o.one)

    seats_one : length c.free + (c.lay 0).resident ≡ c.n_slot
    seats_one = omega (arith, v.seats, sum_below-one c.cfg.n_layer (λ l. (c.lay l).resident) o.one)

  pop_or-gets :
      (xs : List ℕ) (other : ExpertCache F × ℕ) (c : ExpertCache F)
      → Inv c
      → c.free ≡ xs
      → 0 < length xs
      → (pop_or xs other c).1 ≢ no_slot
  pop_or-gets [] other c v e h = absurd (omega arith)
  pop_or-gets (s ∷ rest) other c v e h = λ p. absurd (omega (arith, free-lt c s rest v e, v.slots))

  take_free-gets :
      (layer : ℕ) (c : ExpertCache F) → Inv c → 0 < length c.free → (take_free layer c).1 ≢ no_slot
  unfolding take_free
  take_free-gets layer c v h = pop_or-gets c.free _ c v refl h

  -- A successful eviction leaves a slot on the free stack.
  evicted_free :
      (layer : ℕ) (c : ExpertCache F) (r : ExpertCache F × Bool)
      → Outcome layer c r
      → r.1 ≡ true
      → 0 < length r.0.free
  unfolding evict
  evicted_free layer c r (kept t v e) h = cc
  evicted_free layer c r (freed d pass e rest w p q) h =
      rw (ap (λ (x : ExpertCache F). length x.free) p) (omega arith)

  after_evict-gets :
      (layer : ℕ) (r : ExpertCache F × Bool)
      → r.1 ≡ true
      → Inv r.0
      → 0 < length r.0.free
      → (after_evict r (take_free layer)).1 ≢ no_slot
  after_evict-gets layer (d, true) h v f = take_free-gets layer d v f
  after_evict-gets layer (d, false) h v f = cc

  after_evict-refuses :
      (layer : ℕ) (r : ExpertCache F × Bool)
      → r.1 ≡ false
      → (after_evict r (take_free layer)).1 ≡ no_slot
  after_evict-refuses layer (d, true) h = cc
  after_evict-refuses layer (d, false) h = refl

  module _ (c : ExpertCache F) (v : Inv c) (o : IsOneLayer c) where
    alloc_slot-full :
        (c.lay 0).resident ≡ c.n_slot
        → (alloc_slot 0 c).1 ≡ (after_evict (evict_one 0 c) (take_free 0)).1
    unfolding alloc_slot
    alloc_slot-full full = ground (arith, o.whole)

    alloc_slot-room : (c.lay 0).resident ≢ c.n_slot → (alloc_slot 0 c).1 ≢ no_slot
    unfolding alloc_slot
    alloc_slot-room room =
        let free : 0 < length c.free = omega (arith, seats_one c v o) in
        let below : leb (c.quota 0) (c.lay 0).resident ≡ false =
          ground (arith, seats_one c v o, o.whole) in
        rw below (take_free-gets 0 c v free)

    -- In a well-formed cache of one layer whose quota is all slots, no slot is to be had exactly if
    -- none is free and every expert in the queues is in use.
    pub alloc_slot-refuses_iff : ((alloc_slot 0 c).1 ≡ no_slot) ↔ ((length c.free ≡ 0) × AllInUse c)
    alloc_slot-refuses_iff =
        let z = zero-lt c v o in
        let seats = seats_one c v o in
        let fails = evict_one-fails_iff 0 c v z in
        (
          λ h. elim (ℕ_discrete (c.lay 0).resident c.n_slot) [
            | no room ↦ absurd (alloc_slot-room room h)
            | yes full ↦ elim (Bool-cases (evict_one 0 c).1) [
              | inl good ↦ absurd (
                  after_evict-gets 0 (evict_one 0 c) good (evict_one-Keeps 0 c v z).inv
                    (evicted_free 0 c (evict_one 0 c) (evict_one-Outcome 0 c v z) good)
                    (sym (alloc_slot-full full) ∙ h))
              | inr bad ↦ (omega arith, fails.0 bad)
            ]
          ],
          λ h.
              let full : (c.lay 0).resident ≡ c.n_slot = omega (arith, h.0) in
              alloc_slot-full full ∙ after_evict-refuses 0 (evict_one 0 c) (fails.1 h.1),
        )
