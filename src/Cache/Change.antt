-- ===== src/Cache/Change.antt =====
-- Writes that keep a cache well formed: a layer whose queues hold the same experts, an entry that
-- keeps its seat, counters.
use moestream.Prelude.{
  ℕ, ◌+◌, ◌<◌, ◌≡◌, List, length, count, update, sum_below-update, if◌then◌else◌, ◌==◌, arith,
}
use moestream.Cache.State.{
  Entry, LayerState, ExpertCache, CacheStats, total, idx, entry, set_entry, set_layer,
}
use moestream.Cache.Inv.{
  Inv, IsEntry, IsLayer, holds, in_small, in_main, idx-lt-total, idx-injective,
}

-- The same experts in both queues, in any order, and the same counters.
pub record SameSeats (a b : LayerState) : Type 0 where
  pub small_count : (x : ℕ) → count x a.small ≡ count x b.small
  pub main_count : (x : ℕ) → count x a.main ≡ count x b.main
  pub small_length : length a.small ≡ length b.small
  pub main_length : length a.main ≡ length b.main
  pub resident : a.resident ≡ b.resident
  pub pinned : a.pinned ≡ b.pinned

-- One expert changes its seat: its new entry, its layer's new state and the new free stack agree on
-- who owns which slot and who stands in which queue.
pub record Reseats {F : Type 0} (c : ExpertCache F) (layer e : ℕ) (en : Entry) (ls : LayerState)
    (free : List ℕ) : Type 0 where
  pub layer_range : layer < c.cfg.n_layer
  pub expert_range : e < c.cfg.n_expert
  pub good_entry : IsEntry en
  pub good_layer : IsLayer ls
  pub owned : (s : ℕ) → count s free + holds s en ≡ count s c.free + holds s (entry c layer e)
  pub small :
      (x : ℕ)
      → count x ls.small + (if x == e then in_small (entry c layer e).seg else 0)
        ≡ count x (c.lay layer).small + (if x == e then in_small en.seg else 0)
  pub main :
      (x : ℕ)
      → count x ls.main + (if x == e then in_main (entry c layer e).seg else 0)
        ≡ count x (c.lay layer).main + (if x == e then in_main en.seg else 0)
  pub seats : length free + ls.resident ≡ length c.free + (c.lay layer).resident

module _ {F : Type 0} (c : ExpertCache F) (v : Inv c) (layer e : ℕ) (en : Entry) (ls : LayerState)
    (free : List ℕ) (r : Reseats c layer e en ls free) where
  same_seat :
      (l x : ℕ) → x < c.cfg.n_expert → idx c.cfg l x ≡ idx c.cfg layer e → (l ≡ layer) × (x ≡ e)
  same_seat l x k p = idx-injective c.cfg.n_expert l x layer e k r.expert_range p

  pub reseat-Inv :
      (st : CacheStats) (table : ℕ → ℕ)
      → ((j : ℕ) → table j ≡ (update c.ent (idx c.cfg layer e) en j).slot)
      → Inv (record c {
        ent = update c.ent (idx c.cfg layer e) en;
        slot_table = table;
        lay = update c.lay layer ls;
        free = free;
        st = st;
      })
  reseat-Inv st table t = record {
    config = v.config;
    slots = v.slots;
    owned = λ s. omega (
      arith,
      v.owned s,
      r.owned s,
      sum_below-update (total c.cfg) (holds s) c.ent (idx c.cfg layer e) en
          (idx-lt-total v.config layer e r.layer_range r.expert_range),
    );
    mirrored = t;
    entries = λ j. ground (arith, v.entries j, r.good_entry);
    layers = λ l. ground (arith, v.layers l, r.good_layer);
    smalls = λ l x k. ground (arith, v.smalls l x k, r.small x, same_seat l x);
    mains = λ l x k. ground (arith, v.mains l x k, r.main x, same_seat l x);
    seats = omega (
      arith,
      v.seats,
      r.seats,
      sum_below-update c.cfg.n_layer (λ (s : LayerState). s.resident) c.lay layer ls r.layer_range,
    );
  }

module _ {F : Type 0} (c : ExpertCache F) (v : Inv c) where
  pub set_layer-Inv :
      (layer : ℕ) (ls : LayerState)
      → layer < c.cfg.n_layer
      → SameSeats ls (c.lay layer)
      → Inv (set_layer c layer ls)
  set_layer-Inv layer ls h same = record {
    config = v.config;
    slots = v.slots;
    owned = v.owned;
    mirrored = v.mirrored;
    entries = v.entries;
    layers = λ l. ground (arith, v.layers l, v.layers layer, same.small_length, same.main_length);
    smalls = λ l x k. ground (arith, v.smalls l x k, same.small_count x);
    mains = λ l x k. ground (arith, v.mains l x k, same.main_count x);
    seats = omega (
      arith,
      v.seats,
      same.resident,
      sum_below-update c.cfg.n_layer (λ (s : LayerState). s.resident) c.lay layer ls h,
    );
  }

  pub set_entry-Inv :
      (i : ℕ) (en : Entry)
      → i < total c.cfg
      → en.slot ≡ (c.ent i).slot
      → en.seg ≡ (c.ent i).seg
      → IsEntry en
      → Inv (set_entry c i en)
  set_entry-Inv i en h same_slot same_seg good = record {
    config = v.config;
    slots = v.slots;
    owned = λ s.
        omega (arith, v.owned s, sum_below-update (total c.cfg) (holds s) c.ent i en h, held s);
    mirrored = λ j. ground (arith, v.mirrored j);
    entries = λ j. ground (arith, v.entries j);
    layers = v.layers;
    smalls = λ l x k. ground (arith, v.smalls l x k);
    mains = λ l x k. ground (arith, v.mains l x k);
    seats = v.seats;
  }
    where
      held : (s : ℕ) → holds s en ≡ holds s (c.ent i)
      held s = rw (same_slot, same_seg)

  pub set_stats-Inv : (st : CacheStats) → Inv (record c { st = st })
  set_stats-Inv st = record {
    config = v.config;
    slots = v.slots;
    owned = v.owned;
    mirrored = v.mirrored;
    entries = v.entries;
    layers = v.layers;
    smalls = v.smalls;
    mains = v.mains;
    seats = v.seats;
  }
