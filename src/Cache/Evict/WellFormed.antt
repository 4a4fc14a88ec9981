-- ===== src/Cache/Evict/WellFormed.antt =====
-- Eviction keeps the cache well formed.
use moestream.Prelude.{
  ℕ, ◌*◌, ◌<◌, ◌≡◌, refl, ap, false, List, [], ◌∷◌, ◌++◌, length, count, count-append,
  length-append, le-sum_below, dec32, arith,
}
use moestream.Cache.State.{Seg, Entry, LayerState, ExpertCache, no_slot, idx, entry}
use moestream.Cache.Inv.{Inv, idx-lt-total}
use moestream.Cache.Change.{SameSeats, Reseats, set_layer-Inv, set_entry-Inv, reseat-Inv}
use moestream.Cache.Evict.{
  Pass, over_small, second_chance, forced, queue, set_queue, rotate, spend_chance, evict,
  trim_ghost,
}

-- The segment whose experts a pass looks at.
abbrev pub pass_seg : Pass → Seg
pass_seg over_small = Seg.small
pass_seg second_chance = Seg.main
pass_seg forced = Seg.main

-- Moving the head of a queue to its end keeps its experts.
rotated :
    (pass : Pass) (ls : LayerState) (e : ℕ) (rest : List ℕ)
    → queue pass ls ≡ e ∷ rest
    → SameSeats (set_queue pass ls (rest ++ e ∷ [])) ls
rotated over_small ls e rest q = record {
  small_count = λ x. omega (arith, ap (count x) q, count-append x rest (e ∷ []));
  main_count = λ x. refl;
  small_length = omega (arith, ap length q, length-append rest (e ∷ []));
  main_length = refl;
  resident = refl;
  pinned = refl;
}
rotated second_chance ls e rest q = record {
  small_count = λ x. refl;
  main_count = λ x. omega (arith, ap (count x) q, count-append x rest (e ∷ []));
  small_length = refl;
  main_length = omega (arith, ap length q, length-append rest (e ∷ []));
  resident = refl;
  pinned = refl;
}
rotated forced ls e rest q = record {
  small_count = λ x. refl;
  main_count = λ x. omega (arith, ap (count x) q, count-append x rest (e ∷ []));
  small_length = refl;
  main_length = omega (arith, ap length q, length-append rest (e ∷ []));
  resident = refl;
  pinned = refl;
}

module _ {F : Type 0} where
  -- The head of a queue is an expert of the model, in that queue's segment.
  pub head-seg :
      (c : ExpertCache F) (pass : Pass) (layer e : ℕ) (rest : List ℕ)
      → Inv c
      → layer < c.cfg.n_layer
      → queue pass (c.lay layer) ≡ e ∷ rest
      → (e < c.cfg.n_expert) × ((entry c layer e).seg ≡ pass_seg pass)
  head-seg c over_small layer e rest v h q = ground (arith, v.smalls layer e h, ap (count e) q)
  head-seg c second_chance layer e rest v h q = ground (arith, v.mains layer e h, ap (count e) q)
  head-seg c forced layer e rest v h q = ground (arith, v.mains layer e h, ap (count e) q)

  -- A layer never has more residents than there are slots.
  pub resident-lt :
      (c : ExpertCache F) (layer : ℕ)
      → Inv c
      → layer < c.cfg.n_layer
      → (c.lay layer).resident < no_slot
  resident-lt c layer v h =
      omega (arith, v.seats, v.slots, le-sum_below c.cfg.n_layer (λ l. (c.lay l).resident) layer h)

  pub rotate-Inv :
      (c : ExpertCache F) (pass : Pass) (layer e : ℕ) (rest : List ℕ)
      → Inv c
      → layer < c.cfg.n_layer
      → queue pass (c.lay layer) ≡ e ∷ rest
      → Inv (rotate pass layer e rest c)
  unfolding rotate
  rotate-Inv c pass layer e rest v h q =
      set_layer-Inv c v layer _ h (rotated pass (c.lay layer) e rest q)

  pub spend_chance-Inv :
      (c : ExpertCache F) (layer e : ℕ)
      → Inv c
      → layer < c.cfg.n_layer
      → e < c.cfg.n_expert
      → 0 < (entry c layer e).freq
      → Inv (spend_chance layer e c)
  unfolding spend_chance
  spend_chance-Inv c layer e v h k f =
      let en = entry c layer e in
      let good = v.entries (idx c.cfg layer e) in
      set_entry-Inv c v (idx c.cfg layer e) _ (idx-lt-total v.config layer e h k) refl refl
        (record { vacant = good.vacant; capped = omega (arith, good.capped) })

  module _ (c : ExpertCache F) (layer e : ℕ) (rest : List ℕ) (v : Inv c) (h : layer < c.cfg.n_layer)
      (idle : (entry c layer e).rc ≡ 0) where
    abbrev gone : Entry
    gone = record (entry c layer e) { slot = no_slot; seg = Seg.none; resident = false; freq = 0 }

    abbrev shrunk : Pass → LayerState
    shrunk pass = record (set_queue pass (c.lay layer) rest) {
      resident = dec32 (c.lay layer).resident;
      ghost = trim_ghost (c.quota layer * c.cfg.ghost_mult) ((c.lay layer).ghost ++ e ∷ []);
    }

    evict-Reseats_small :
        (c.lay layer).small ≡ e ∷ rest
        → Reseats c layer e gone (shrunk over_small) ((entry c layer e).slot ∷ c.free)
    evict-Reseats_small q =
        let top = head-seg c over_small layer e rest v h q in
        let room = resident-lt c layer v h in
        let counted = v.layers layer in
        record {
          layer_range = h;
          expert_range = top.0;
          good_entry = record { vacant = λ _. (refl, idle); capped = omega arith };
          good_layer = record { residents = omega (arith, counted.residents, ap length q) };
          owned = λ s. ground (arith, top.1);
          small = λ x. ground (arith, top.1, ap (count x) q);
          main = λ x. ground (arith, top.1);
          seats = omega (arith, counted.residents, ap length q);
        }

    evict-Reseats_main :
        (c.lay layer).main ≡ e ∷ rest
        → Reseats c layer e gone (shrunk forced) ((entry c layer e).slot ∷ c.free)
    evict-Reseats_main q =
        let top = head-seg c forced layer e rest v h q in
        let room = resident-lt c layer v h in
        let counted = v.layers layer in
        record {
          layer_range = h;
          expert_range = top.0;
          good_entry = record { vacant = λ _. (refl, idle); capped = omega arith };
          good_layer = record { residents = omega (arith, counted.residents, ap length q) };
          owned = λ s. ground (arith, top.1);
          small = λ x. ground (arith, top.1);
          main = λ x. ground (arith, top.1, ap (count x) q);
          seats = omega (arith, counted.residents, ap length q);
        }

    evict-Reseats :
        (pass : Pass)
        → queue pass (c.lay layer) ≡ e ∷ rest
        → Reseats c layer e gone (shrunk pass) ((entry c layer e).slot ∷ c.free)
    evict-Reseats over_small q = evict-Reseats_small q
    evict-Reseats second_chance q = evict-Reseats_main q
    evict-Reseats forced q = evict-Reseats_main q

    pub evict-Inv :
        (pass : Pass) → queue pass (c.lay layer) ≡ e ∷ rest → Inv (evict pass layer e rest c)
    unfolding evict
    evict-Inv pass q =
        reseat-Inv c v layer e gone (shrunk pass) _ (evict-Reseats pass q) _ _
          (λ j. ground (arith, v.mirrored j))
