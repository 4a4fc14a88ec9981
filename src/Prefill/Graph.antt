-- ===== src/Prefill/Graph.antt =====
-- src/llama-moestream.cpp, the prefill path as the graph sees it: which tensors a layer uses, and
-- the operation that loads the layer's arena, with the load of the next layer in the background.
-- The background load is taken where its thread is joined: until then it writes to one arena, and
-- the arena of the layer at work is another (`Arenas`).
pub mod Laws
pub mod Loaded
use moestream.Prelude.{
  ℕ, ◌+◌, ◌*◌, ◌%◌, ◌^◌, Bool, true, false, not, ◌&&◌, ◌||◌, Option, none, some, ltb, leb, ◌==◌,
  if◌then◌else◌, inc64,
}
use moestream.Prelude.Int.{ℤ, pos, negsuc, ltb_ℤ}
use moestream.Cache.Doubles.{Doubles}
use moestream.Prefill.State.{Marks, Background, Prefill}
use moestream.Prefill.Pass.{is_layer, Clock}
use moestream.Prefill.Load.{Model, load_layer_arena}
use moestream.Prefill.Ids.{Ids, copy_ids, note_union}

-- `hint.empty() ? nullptr : &hint`.
abbrev pub given : Marks → Option Marks
given m = if m.size == 0 then none else some m

module _ (D : Doubles) {W : Type 0} (M : Model W) where
  open D use {Double}

  -- The tensor that is taken, 0 for the gate, 1 for up and 2 for down, or none. `enabled` is what
  -- `enabled()` answers.
  unfoldable pub prefill_exps : Bool → ℕ → ℕ → ℕ → Prefill Double W → Prefill Double W × Option ℕ
  prefill_exps enabled il role n_tokens st =
      let k = st.counters in
      if not enabled
      then (st, none)
      else if not st.pf_ready || not (ltb_ℤ st.pf_threshold (pos n_tokens))
      then (record st { counters = record k { slab_used = inc64 k.slab_used } }, none)
      else if not (M.in_full il && M.full_ready il)
      then (st, none)
      else (
        record st { pf_ntok_seen = n_tokens; counters = record k { pf_used = inc64 k.pf_used } },
        some (if role == 0 then 0 else if role == 1 then 1 else 2),
      )

  abbrev pub join_thread : Option Background → Clock Double → Prefill Double W → Prefill Double W
  join_thread (some b) clock st = load_layer_arena D M b.layer (given b.hint) clock st
  join_thread none clock st = st

  unfoldable pub pf_wait : Clock Double → Prefill Double W → Prefill Double W
  pf_wait clock st = record (join_thread st.pf_thread clock st) {
    pf_inflight = negsuc 0;
    pf_thread = none;
  }

  abbrev pub no_marks : Marks
  no_marks = record { size = 0; mark = λ e. false }

  -- The thread for layer `il`.
  abbrev pub start_thread : ℕ → Prefill Double W → Prefill Double W
  start_thread il st = record st {
    pf_inflight = pos il;
    pf_thread = some (record {
      layer = il;
      hint = if st.prefetch && ltb il st.n_union then st.prev_union il else no_marks;
    });
  }

  abbrev pub is_known : Option ℕ → Bool
  is_known (some n) = true
  is_known none = false

  unfoldable pub pf_kick : ℕ → Clock Double → Prefill Double W → Prefill Double W
  unfolding pf_wait
  pf_kick il clock st =
      if not st.pf_async || ltb st.pf_nbuf 2
      then st
      else if not (is_known (M.layers il))
      then st
      else start_thread il (pf_wait clock st)

  abbrev pub experts_of : Option ℕ → ℕ
  experts_of (some n) = n
  experts_of none = 0

  -- `g_pf_async_hit` or `g_pf_async_miss`.
  abbrev pub count_async : Bool → Prefill Double W → Prefill Double W
  count_async mine st =
      let k = st.counters in
      record st {
        counters =
            if mine
            then record k { async_hit = inc64 k.async_hit }
            else record k { async_miss = inc64 k.async_miss };
      }

  -- The clocks: of the thread, and of this call.
  unfoldable pub load_for :
      ℕ → ℕ → Marks → Clock Double → Clock Double → Prefill Double W → Prefill Double W
  unfolding pf_wait pf_kick
  load_for il nt need there here st =
      if st.pf_async && leb 2 st.pf_nbuf
      then (let loaded =
            count_async (is_layer st.pf_inflight il)
              (load_layer_arena D M il (given need) here (pf_wait there st)) in
          if leb 256 nt then pf_kick (il + 1) here loaded else loaded)
      else load_layer_arena D M il (given need) here st

  -- `present` if both tensors have data. The output has the ids, and what was in it elsewhere.
  unfoldable pub ms_pfload_fn :
      ℕ
      → Bool
      → Ids
      → (ℕ → ℤ)
      → Clock Double
      → Clock Double
      → Prefill Double W
      → Prefill Double W × (ℕ → ℤ)
  unfolding copy_ids note_union load_for
  ms_pfload_fn ud present a out there here st =
      let il = ud % 2 ^ 16 in
      let copied = copy_ids a (experts_of (M.layers il)) out in
      let need : Marks = record { size = experts_of (M.layers il); mark = copied.need } in
      if not present then (st, out) else (
        load_for il a.nt need there here (note_union il a.nt need (record st { seen_topk = a.tk })),
        copied.out,
      )
