-- ===== src/Cache/Create.antt =====
-- src/expert_cache.cpp, the constructor.
pub mod WellFormed
use moestream.Prelude.{
  ℕ, zero, suc, ◌+◌, ◌-◌, ◌*◌, ◌/◌, ◌%◌, ◌^◌, false, List, [], ◌∷◌, update, ◌==◌, if◌then◌else◌,
  inc32,
}
use moestream.Cache.Doubles.{Doubles}
use moestream.Cache.State.{Seg, CacheStats, Config, Entry, LayerState, ExpertCache, no_slot, total}

-- `Entry{}`, `LayerState{}` and `CacheStats{}`.
abbrev pub blank_entry : Entry
blank_entry = record {
  slot = no_slot;
  rc = 0;
  seg = Seg.none;
  resident = false;
  freq = 0;
  last = 0;
}

abbrev pub blank_layer : LayerState
blank_layer = record { small = []; main = []; ghost = []; ghost_hits = 0; resident = 0; pinned = 0 }

abbrev pub blank_stats : CacheStats
blank_stats = record {
  hit = 0;
  miss = 0;
  hit_pinned = 0;
  hit_small = 0;
  hit_main = 0;
  ghost_hit = 0;
  admit = 0;
  evict = 0;
  bypass = 0;
  promote = 0;
  bytes_fetched = 0;
}

-- `std::iota` and `std::reverse`: from the back of the vector, the slots in ascending order.
unfoldable pub slots_from : ℕ → ℕ → List ℕ
slots_from s zero = []
slots_from s (suc n) = s ∷ slots_from (s + 1) n

-- The loop that hands `r` leftover slots to the layers from `l` on, in turn.
unfoldable pub hand_out : ℕ → ℕ → ℕ → (ℕ → ℕ) → ℕ → ℕ
hand_out n_layer zero l quota = quota
hand_out n_layer (suc r) l quota =
    hand_out n_layer r (l + 1) (update quota (l % n_layer) (inc32 (quota (l % n_layer))))

module _ (D : Doubles) where
  open D use {Double, from_nat, half, add, mul, to_uint32}

  unfoldable pub slot_count : Config Double → ℕ
  slot_count cfg =
      if cfg.n_slot == 0
      then to_uint32 (add (mul (from_nat (total cfg)) cfg.cache_frac) half)
      else cfg.n_slot

  unfoldable pub create : Config Double → ExpertCache Double
  unfolding slots_from hand_out slot_count
  create cfg =
      let n = slot_count cfg in
      let even = n / cfg.n_layer in
      record {
        cfg = cfg;
        n_slot = n;
        ent = λ _. blank_entry;
        slot_table = λ _. no_slot;
        lay = λ _. blank_layer;
        quota = hand_out cfg.n_layer (n - even * cfg.n_layer) 0 (λ _. even);
        free = slots_from 0 n;
        st = blank_stats;
        step = 0;
      }
