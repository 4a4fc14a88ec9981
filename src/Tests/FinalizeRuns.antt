-- ===== src/Tests/FinalizeRuns.antt =====
-- The start with one layer of two experts, in two shards of which one may be too short.
use moestream.Prelude.{
  ℕ, ◌+◌, ◌*◌, ◌≤◌, ◌≡◌, refl, ◌⊎◌, inr, Bool, true, false, Option, none, some, List, [], ◌∷◌, leb,
  ltb, ◌&&◌, ◌-◌, if◌then◌else◌, arith,
}
use moestream.Prelude.Int.{ℤ, pos, negsuc}
use moestream.Io.Read.{do_read}
use moestream.Loader.Map.{lookup}
use moestream.Loader.Slots.{known_topk}
use moestream.Loader.Tables.{LayerSlabs}
use moestream.Finalize.Shards.{Fd, check_shards, is_open, fd_at}
use moestream.Finalize.Shards.Laws.{check_shards-do_read}
use moestream.Finalize.Zero.{Outcome, done, past_end}
use moestream.Finalize.Threshold.{exceeds, pf_threshold}
use moestream.Finalize.Threshold.Laws.{Ends, pf_threshold-Ends}
use moestream.Finalize.Arena.{Host, Places, arena_bytes, place_layers}
use moestream.Finalize.Arena.Laws.{Inside, AllSmall, place_layers-Inside}
use moestream.Finalize.Start.{Runtime, Given, finalize, remap_head}
use moestream.Finalize.Start.Laws.{Fresh, DenseOnly, Started, finalize-Started}
use moestream.Finalize.Start.Failed.{HeadEnds, remap_head-HeadEnds}
use moestream.Tests.Inputs.{nat_doubles, one_layer}
use moestream.Tests.IoRuns.{two_experts, byte_wise, byte_wise-AtMost, byte_wise-Readable}
use moestream.Tests.ArenaRuns.{numbered, empty_arenas}
use moestream.Tests.RemapRuns.{blank_mrc}

abbrev layer_0 : LayerSlabs
layer_0 = record {
  gate = two_experts;
  up = record two_experts { file_offset = 11 };
  down = record two_experts { file_offset = 7; file_idx = 1 };
  ready = true;
}

abbrev layers : List (ℤ × LayerSlabs)
layers = (pos 0, layer_0) ∷ []

layers-found : lookup (pos 0) layers ≡ some layer_0
unfolding lookup
layers-found = refl

abbrev two_shards : List (Option Fd)
two_shards = some (some 17) ∷ some (some 13) ∷ []

two_shards-pass : check_shards layers two_shards ≡ some (some 17 ∷ some 13 ∷ [])
unfolding check_shards
two_shards-pass = refl

check_shards-do_read_example :
    ((size : ℕ) × (fd_at 1 (some 17 ∷ some 13 ∷ []) ≡ some (some size)) × (7 + 1 * 3 + 3 ≤ size))
    × ((i : ℕ)
        → do_read
            (λ f i. 100 * f + i)
            byte_wise
            (is_open (some 17 ∷ some 13 ∷ []))
            layer_0.down
            1
            (λ j. 0)
            i
          ≡ (if ltb i 3 then 100 * 1 + (7 + 1 * 3 + i) else 0))
check_shards-do_read_example =
    check_shards-do_read layers two_shards (some 17 ∷ some 13 ∷ []) (pos 0) layer_0 layer_0.down 1
      (λ f i. 100 * f + i) byte_wise (λ j. 0) two_shards-pass layers-found (inr (inr refl)) refl
      (omega arith) (omega arith) byte_wise-AtMost (λ size h. byte_wise-Readable size)

layers-AllSmall : AllSmall layers
layers-AllSmall = (omega arith, tt)

place_layers-Inside_example :
    (p : Places) × (lookup (pos 0) (place_layers layers) ≡ some p)
    × Inside p.gate two_experts 0 p.up.arena_off
    × Inside p.up layer_0.up p.up.arena_off p.down.arena_off
    × Inside p.down layer_0.down p.down.arena_off (arena_bytes layers)
place_layers-Inside_example =
    place_layers-Inside layers (pos 0) layer_0 layers-AllSmall layers-found

pf_threshold-Ends_example :
    (t : ℕ) × (pf_threshold nat_doubles 8 (pos 2) 0 4 (negsuc 0) ≡ pos t)
    × Ends (exceeds nat_doubles 8 (known_topk (pos 2) 0) 4) 1 4096 t
pf_threshold-Ends_example = pf_threshold-Ends nat_doubles 8 (pos 2) 0 4 0

-- Everything is allocated.
abbrev roomy : Host
roomy = record {
  vulkan = true;
  zerocopy = true;
  buft = true;
  alloc = λ i. true;
  host_ptr = λ i. true;
  tensors = true;
}

abbrev given : List (Option Fd) → Given ℕ
given shards = record {
  topk = pos 2;
  slots = 4;
  config = one_layer;
  prefill_bufs = none;
  prefill_async = none;
  host = roomy;
  shards = shards;
  dn_ready = false;
  has_buffer = λ il role. true;
  tensor_set = λ bytes off size content i.
      if leb off i && ltb i (off + size) then bytes (i - off) else content i;
}

abbrev before : Runtime ℕ ℕ
before = record {
  enabled = true;
  caches = [];
  fds = [];
  maxb = 0;
  prefill = record empty_arenas { pf_ready = false; n_arena = 0 };
  mrc = record blank_mrc { n_layer = 0; n_expert = 0 };
  zero_filled = false;
  slabs = λ il role i. 7;
}

before-Fresh : Fresh nat_doubles numbered (given two_shards) layers before
before-Fresh = (refl, refl, refl, refl, omega arith, refl, refl)

stays_on : (finalize nat_doubles (given two_shards) layers before).enabled ≡ true
unfolding finalize
stays_on = refl

finalize-Started_example :
    DenseOnly nat_doubles numbered
      (given two_shards)
      layers
      (finalize nat_doubles (given two_shards) layers before)
    ⊎ Started nat_doubles numbered
        (given two_shards)
        layers
        (finalize nat_doubles (given two_shards) layers before)
finalize-Started_example =
    finalize-Started nat_doubles numbered (given two_shards) layers before before-Fresh
      (omega arith) (omega arith) stays_on

-- The path is on, with both arenas.
started_arenas : (finalize nat_doubles (given two_shards) layers before).prefill.n_arena ≡ 2
unfolding finalize
started_arenas = refl

abbrev short_shards : List (Option Fd)
short_shards = some (some 17) ∷ some (some 12) ∷ []

remap_head-HeadEnds_example : HeadEnds nat_doubles numbered (given short_shards) layers 0 before
remap_head-HeadEnds_example =
    remap_head-HeadEnds nat_doubles numbered (given short_shards) layers before 0 layer_0 refl refl
      refl refl refl (omega arith) (omega arith) (omega arith) layers-found refl refl (omega arith)

-- The call reads the three bytes of an expert from a vector of none.
short_shards-overrun :
    remap_head nat_doubles (given short_shards) layers false (pos 0) before ≡ past_end 3 0
unfolding remap_head
short_shards-overrun = refl

-- With shards that pass, the slot behind the last is filled with zeros.
zeroed : Outcome (Runtime ℕ ℕ × Bool) → ℕ → ℕ
zeroed (done (t, maps)) i = t.slabs (pos 0) 0 i
zeroed (past_end n size) i = 100

two_shards-zeroed :
    (zeroed (remap_head nat_doubles (given two_shards) layers false (pos 0) before) 11 ≡ 7)
    × (zeroed (remap_head nat_doubles (given two_shards) layers false (pos 0) before) 12 ≡ 0)
    × (zeroed (remap_head nat_doubles (given two_shards) layers false (pos 0) before) 15 ≡ 7)
unfolding remap_head zeroed
two_shards-zeroed = (refl, refl, refl)
