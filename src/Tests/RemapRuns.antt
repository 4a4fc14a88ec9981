-- ===== src/Tests/RemapRuns.antt =====
-- The remap of a batch of four ids, in the first of two passes.
use moestream.Prelude.{
  ◌==◌, ◌*◌, inl, ◌/◌, Bool, ℕ, ◌+◌, ◌%◌, ◌^◌, ◌<◌, ◌≡◌, refl, true, false, ◌&&◌, List, [], ◌∷◌,
  ltb, if◌then◌else◌, count, sum_below, arith,
}
use moestream.Prelude.Int.{ℤ, pos, negsuc}
use moestream.Cache.State.{demand}
use moestream.Cache.Create.{create, slot_count, slots_from}
use moestream.Cache.Alloc.{alloc_slot}
use moestream.Cache.Acquire.{acquire, release, mark_resident}
use moestream.Remap.Mrc.{Mrc, mrc_touch}
use moestream.Remap.Mrc.Laws.{Balanced, mrc_touch-Balanced}
use moestream.Remap.Pack.{pack_ud, unpack_layer, unpack_pass, unpack_passes, unpack-pack_ud}
use moestream.Remap.Sweep.{seen, in_pass, owned_experts}
use moestream.Remap.Sweep.Laws.{in_pass-partition}
use moestream.Remap.Ids.{map_ids}
use moestream.Remap.Ids.Dropped.{acquire_after_drop}
use moestream.Remap.Ids.Step.{filled, Loaded}
use moestream.Remap.Ids.Words.{Words}
use moestream.Remap.Call.{Setting, Globals, batch_of, remap}
use moestream.Remap.Call.Release.{Ready}
use moestream.Remap.Call.Laws.{remap-Words, remap-Ready}
use moestream.Remap.Pending.{stage_size, read_pending}
use moestream.Remap.Pending.Laws.{concat, AllFit, read_pending-Complete}
use moestream.Remap.Jobs.{Store, read_batch}
use moestream.Remap.Jobs.Laws.{read_batch-filled}
use moestream.Tests.Inputs.{new_cache, new_cache-Inv}

abbrev pub blank_mrc : Mrc
blank_mrc = record {
  on = true;
  n_layer = 1;
  n_expert = 4;
  last = λ _ _. 0;
  clock = λ _. 0;
  hist = λ _. 0;
  hist_l = λ _ _. 0;
  tot_l = λ _. 0;
  total = 0;
  cold = 0;
}

abbrev first_pass : Setting
first_pass = record {
  il = 0;
  pass = 0;
  np = 2;
  n_expert = 4;
  zero_slot = 2;
  drop_from = pos 1000;
  no_reads = false;
  expert_bytes = 100;
  sweep_test = 0;
}

abbrev four_ids : List ℤ
four_ids = pos 3 ∷ pos 1 ∷ negsuc 0 ∷ pos 1 ∷ []

abbrev at_start : Globals ℕ
at_start = record {
  cache = new_cache;
  held = λ _. [];
  mrc = blank_mrc;
  exhausted = 0;
  demand_count = 0;
  dropped = 0;
  warned = false;
}

-- The weights of expert `e` are the number `100 + e`.
abbrev weights : ℕ → ℕ
weights e = 100 + e

abbrev empty_slots : ℕ → ℕ
empty_slots _ = 0

at_start-Ready : Ready 0 4 at_start
unfolding create sum_below
at_start-Ready = record {
  inv = new_cache-Inv;
  one = refl;
  experts = refl;
  refs = λ e h. refl;
  none_else = λ e q h k. refl;
}

at_start-Loaded : Loaded weights empty_slots new_cache
unfolding create
at_start-Loaded e h seated = absurd (ground arith)

-- Expert 1 is of this pass, expert 3 is not.
remap_words : (remap first_pass four_ids at_start).1 ≡ 2 ∷ 0 ∷ 2 ∷ 0 ∷ []
unfolding remap create slot_count slots_from alloc_slot map_ids owned_experts acquire mark_resident
remap_words = refl

remap-Words_example :
    (k : ℕ) × Words
      (λ e w.
        (w < 2) × (filled weights (remap first_pass four_ids at_start).2 empty_slots w ≡ weights e))
      (batch_of first_pass four_ids)
      four_ids
      (remap first_pass four_ids at_start).1
      k
    × ((remap first_pass four_ids at_start).0.exhausted % 2 ^ 64 ≡ (0 + k) % 2 ^ 64)
unfolding create slot_count
remap-Words_example =
    remap-Words weights empty_slots first_pass four_ids at_start at_start-Ready at_start-Loaded
      (omega arith) (omega arith) refl refl refl

remap-Ready_example :
    Ready 0 4 (remap first_pass four_ids at_start).0
    × Loaded weights
        (filled weights (remap first_pass four_ids at_start).2 empty_slots)
        (remap first_pass four_ids at_start).0.cache
remap-Ready_example =
    remap-Ready weights empty_slots first_pass four_ids at_start at_start-Ready at_start-Loaded
      (omega arith) (omega arith) refl refl

in_pass-partition_example :
    sum_below 2 (λ p. count 3 (in_pass 2 p 4 four_ids))
    ≡ (if ltb 3 4 && seen 3 four_ids then 1 else 0)
in_pass-partition_example = in_pass-partition 2 4 four_ids 3 (omega arith)

unpack-pack_ud_example :
    (unpack_layer (pack_ud 47 3 5) ≡ 47)
    × (unpack_pass (pack_ud 47 3 5) ≡ 3)
    × (unpack_passes (pack_ud 47 3 5) ≡ 5)
unpack-pack_ud_example = unpack-pack_ud 47 3 5 (omega arith) (omega arith) (omega arith)

mrc_touch-Balanced_example : Balanced (mrc_touch 0 2 blank_mrc)
unfolding sum_below
mrc_touch-Balanced_example = mrc_touch-Balanced 0 2 blank_mrc (record { sums = refl })

given_slot : (acquire new_cache 0 1 demand).2 ≡ 0
unfolding acquire create slot_count slots_from alloc_slot
given_slot = refl

acquire_after_drop_example :
    let next = acquire (release (acquire new_cache 0 1 demand).0 0 1) 0 1 demand in
    (next.1 ≡ true) × (next.2 ≡ (acquire new_cache 0 1 demand).2)
unfolding create
acquire_after_drop_example =
    acquire_after_drop new_cache 1 new_cache-Inv (omega arith) (omega arith)
      (λ p. absurd (omega (arith, given_slot)))

-- No slot has a host pointer.
abbrev no_host : ℕ → ℕ → Bool
no_host _ _ = false

abbrev two_reads : List (ℕ × ℕ)
two_reads = (1, 0) ∷ (3, 1) ∷ []

read_pending-Complete_example :
    let x = read_pending no_host 10 0 two_reads in
    (concat x.0 ≡ two_reads)
    × (x.1 ≡ [])
    × AllFit no_host (stage_size no_host 10 0 two_reads / 10) x.0
read_pending-Complete_example =
    read_pending-Complete no_host 10 0 two_reads (omega arith) (inl refl)

-- Only the first member has host pointers.
abbrev gate_host : ℕ → ℕ → Bool
gate_host role slot = role == 0

abbrev blank_store : Store ℕ
blank_store = record { memory = λ _ _. 0; staging = λ _. 0 }

read_batch-filled_example :
    (read_batch (λ r e. 10 * e + r) gate_host two_reads blank_store).memory 2 1
    ≡ filled (λ e. 10 * e + 2) two_reads (λ _. 0) 1
read_batch-filled_example =
    read_batch-filled gate_host (λ r e. 10 * e + r) two_reads blank_store 2 1 (omega arith)
