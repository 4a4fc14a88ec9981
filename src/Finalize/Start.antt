-- ===== src/Finalize/Start.antt =====
-- src/llama-moestream.cpp, `finalize`, and the head of `ms_remap_fn`, which calls it. The layers are
-- those of `g_layers`. The dense arena, the decision on prefetching and the report are left out.
pub mod Laws
pub mod Failed
use moestream.Prelude.{
  ℕ, zero, suc, ◌+◌, ◌%◌, ◌^◌, Bool, true, false, not, ◌&&◌, ◌||◌, Option, none, some, List, [],
  ◌∷◌, length, ltb, leb, ◌==◌, if◌then◌else◌,
}
use moestream.Prelude.Int.{ℤ, pos, negsuc, pos_part, ltb_ℤ, ◌+ℤ◌}
use moestream.Cache.Doubles.{Doubles}
use moestream.Cache.State.{Config, ExpertCache}
use moestream.Cache.Create.{create}
use moestream.Io.Read.{SlabInfo}
use moestream.Loader.Map.{lookup}
use moestream.Loader.Slots.{to_word}
use moestream.Loader.Tables.{LayerSlabs}
use moestream.Prefill.State.{Prefill}
use moestream.Remap.Mrc.{Mrc}
use moestream.Finalize.Shards.{Fd, check_shards}
use moestream.Finalize.Threshold.{pf_threshold}
use moestream.Finalize.Arena.{Host, setup_prefill}
use moestream.Finalize.Zero.{Outcome, done, past_end, ◌>>=◌, Slabs, TensorSet, zero_layers}

pub record Runtime (F W : Type 0) : Type 0 where
  pub enabled : Bool
  pub caches : List (ExpertCache F)
  pub fds : List Fd
  pub maxb : ℕ
  pub prefill : Prefill F W
  pub mrc : Mrc
  pub zero_filled : Bool
  -- The bytes of the slabs that `ensure_zero_slot` writes.
  pub slabs : Slabs

-- What the start reads: the metadata, the slots, the environment, the host library and the files.
pub record Given (F : Type 0) : Type 0 where
  pub topk : ℤ
  pub slots : ℕ
  -- `ExpertCache::Config` as its members are initialised.
  pub config : Config F
  pub prefill_bufs : Option ℤ
  pub prefill_async : Option Bool
  pub host : Host
  pub shards : List (Option Fd)
  pub dn_ready : Bool
  -- A registered tensor has a buffer, and how the host library writes to it.
  pub has_buffer : ℤ → ℕ → Bool
  pub tensor_set : TensorSet

-- `rbegin()->first`.
abbrev pub last_key {ℓ} : {A : Type ℓ} → ℤ → List (ℤ × A) → ℤ
last_key k [] = k
last_key k ((il, x) ∷ m) = last_key il m

abbrev pub n_layers : List (ℤ × LayerSlabs) → ℕ
n_layers layers = to_word (last_key (negsuc 0) layers +ℤ pos 1)

-- `g_layers.begin()->second.gate.n_expert`.
abbrev pub n_experts : List (ℤ × LayerSlabs) → ℕ
n_experts [] = 0
n_experts ((il, l) ∷ layers) = l.gate.n_expert

abbrev pub max_of : ℕ → ℕ → ℕ
max_of a b = if ltb a b then b else a

unfoldable pub max_bytes : ℕ → List (ℤ × LayerSlabs) → ℕ
max_bytes most [] = most
max_bytes most ((il, l) ∷ layers) =
    max_bytes
      (max_of (max_of (max_of most l.gate.expert_bytes) l.up.expert_bytes) l.down.expert_bytes)
      layers

abbrev pub some_of : {A : Type 0} → A → Option A → A
some_of x none = x
some_of x (some y) = y

-- `std::max(1, atoi(e))`.
abbrev pub arenas_asked : ℕ → Option ℤ → ℕ
arenas_asked n none = n
arenas_asked n (some v) = if ltb_ℤ (pos 1) v then pos_part v else 1

-- The tables are made anew.
abbrev pub start_mrc : ℕ → ℕ → Mrc → Mrc
start_mrc layers experts m = if not m.on then m else record m {
  n_layer = layers;
  n_expert = experts;
  last = λ il e. 0;
  clock = λ il. 0;
  hist = λ r. 0;
  hist_l = λ il r. 0;
  tot_l = λ il. 0;
}

abbrev pub copies {ℓ} : {A : Type ℓ} → ℕ → A → List A
copies zero x = []
copies (suc n) x = x ∷ copies n x

abbrev pub is_empty {ℓ} : {A : Type ℓ} → List A → Bool
is_empty [] = true
is_empty (x ∷ xs) = false

abbrev pub layer_ready : Option LayerSlabs → Bool
layer_ready (some l) = l.ready
layer_ready none = false

module _ (D : Doubles) (g : Given D.Double) (layers : List (ℤ × LayerSlabs)) where
  open D use {Double, from_nat}

  -- A cache of one layer.
  abbrev pub layer_config : Config Double
  layer_config = record g.config {
    n_layer = 1;
    n_expert = n_experts layers % 2 ^ 32;
    n_slot = g.slots;
    pin_ratio = from_nat 0;
    layer_quota_adapt = false;
  }

  unfoldable pub make_caches : List (ExpertCache Double)
  unfolding create
  make_caches = copies (n_layers layers) (create D layer_config)

  module _ {W : Type 0} where
    abbrev pub set_prefill : Prefill Double W → Prefill Double W
    set_prefill p = record p {
      pf_threshold = pf_threshold D (n_experts layers) g.topk p.seen_topk g.slots p.pf_threshold;
      pf_nbuf = arenas_asked p.pf_nbuf g.prefill_bufs;
      pf_async = some_of p.pf_async g.prefill_async;
    }

    abbrev pub with_shards : Option (List Fd) → Runtime Double W → Runtime Double W
    with_shards none r = record r { enabled = false; fds = [] }
    with_shards (some fds) r = record r {
      fds = fds;
      maxb = max_bytes 0 layers;
      prefill = setup_prefill g.host layers (n_layers layers) (set_prefill r.prefill);
      mrc = start_mrc (n_layers layers) (n_experts layers) r.mrc;
    }

    unfoldable pub finalize : Runtime Double W → Runtime Double W
    unfolding make_caches check_shards max_bytes setup_prefill pf_threshold
    finalize r =
        if not r.enabled || not (is_empty r.caches)
        then r
        else if is_empty layers
        then record r { enabled = g.dn_ready }
        else with_shards (check_shards layers g.shards) (record r { caches = make_caches })

    -- `g_zero_slot` is the number of slots, as `slab_slots` leaves it.
    unfoldable pub ensure_zero_slot : Runtime Double W → Outcome (Runtime Double W)
    unfolding zero_layers
    ensure_zero_slot r = if r.zero_filled || is_empty layers then done r else do
      slabs ← zero_layers g.tensor_set g.has_buffer r.maxb g.slots layers r.slabs
      done (record r { zero_filled = true; slabs = slabs })

    -- `ensure_zero_slot`, if the layer is ready.
    abbrev pub head_of : Bool → Runtime Double W → Outcome (Runtime Double W × Bool)
    head_of true r = do t ← ensure_zero_slot r; done (t, true)
    head_of false r = done (r, false)

    -- The head of `ms_remap_fn`, `ensure_zero_slot` included: what is left behind it, and whether the
    -- call maps its ids; if not, it passes them on. `noop` is `noop_level() == 1`.
    unfoldable pub remap_head : Bool → ℤ → Runtime Double W → Outcome (Runtime Double W × Bool)
    unfolding finalize lookup ensure_zero_slot
    remap_head noop il r =
        let started = if is_empty r.caches then finalize r else r in
        if not r.enabled || noop
        then done (r, false)
        else if is_empty started.caches
            || (ltb_ℤ il (pos 0) || leb (length started.caches) (pos_part il))
        then done (started, false)
        else head_of (layer_ready (lookup il layers)) started
