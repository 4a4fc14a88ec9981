-- ===== src/Cache/State.antt =====
-- src/expert_cache.hpp: the types of the cache and its state. A vector whose length never changes
-- after construction is a function of the index; `free` has the back of the vector as its head;
-- `F` is the type of the configuration's doubles.
use moestream.Prelude.{ℕ, ◌+◌, ◌*◌, ◌^◌, ◌%◌, Bool, true, false, List, update}

-- Why execution requested this expert.
pub data Origin : Type 0 where
  demand prefetch_high prefetch_low sweep : Origin

pub data Seg : Type 0 where
  none pinned small main : Seg

-- `seg != Seg::None`.
abbrev pub is_seated : Seg → Bool
is_seated Seg.none = false
is_seated Seg.pinned = true
is_seated Seg.small = true
is_seated Seg.main = true

pub record CacheStats : Type 0 where
  pub hit : ℕ
  pub miss : ℕ
  pub hit_pinned : ℕ
  pub hit_small : ℕ
  pub hit_main : ℕ
  pub ghost_hit : ℕ
  pub admit : ℕ
  pub evict : ℕ
  pub bypass : ℕ
  pub promote : ℕ
  pub bytes_fetched : ℕ

pub record Config (F : Type 0) : Type 0 where
  pub n_layer : ℕ
  pub n_expert : ℕ
  pub n_slot : ℕ
  pub cache_frac : F
  pub pin_ratio : F
  pub small_ratio : F
  pub ghost_mult : ℕ
  pub layer_quota_adapt : Bool
  pub quota_period : ℕ
  pub quota_eta : F
  pub quota_min : ℕ

abbrev pub no_slot : ℕ
no_slot = 0xFFFFFFFF

-- The S3-FIFO frequency ceiling.
abbrev pub freq_max : ℕ
freq_max = 3

pub record Entry : Type 0 where
  pub slot : ℕ
  pub rc : ℕ
  pub seg : Seg
  pub resident : Bool
  pub freq : ℕ
  pub last : ℕ

pub record LayerState : Type 0 where
  pub small : List ℕ
  pub main : List ℕ
  pub ghost : List ℕ
  pub ghost_hits : ℕ
  pub resident : ℕ
  pub pinned : ℕ

pub record ExpertCache (F : Type 0) : Type 0 where
  pub cfg : Config F
  pub n_slot : ℕ
  pub ent : ℕ → Entry
  pub slot_table : ℕ → ℕ
  pub lay : ℕ → LayerState
  pub quota : ℕ → ℕ
  pub free : List ℕ
  pub st : CacheStats
  pub step : ℕ

module _ {F : Type 0} where
  -- `n_layer * n_expert` in 32 bits, the length of the entry and slot tables.
  abbrev pub total : Config F → ℕ
  total cfg = (cfg.n_layer * cfg.n_expert) % 2 ^ 32

  abbrev pub idx : Config F → ℕ → ℕ → ℕ
  idx cfg l e = l * cfg.n_expert + e

  -- The entry of an expert.
  abbrev pub entry : ExpertCache F → ℕ → ℕ → Entry
  entry c l e = c.ent (idx c.cfg l e)

  pub slot_of : ExpertCache F → ℕ → ℕ → ℕ
  slot_of c l e = c.slot_table (idx c.cfg l e)

  abbrev pub set_entry : ExpertCache F → ℕ → Entry → ExpertCache F
  set_entry c i en = record c { ent = update c.ent i en }

  abbrev pub set_layer : ExpertCache F → ℕ → LayerState → ExpertCache F
  set_layer c l ls = record c { lay = update c.lay l ls }
