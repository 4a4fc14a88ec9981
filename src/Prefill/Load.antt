-- ===== src/Prefill/Load.antt =====
-- src/llama-moestream.cpp, `load_layer_arena`: the experts of a layer that are needed and not yet
-- in its arena are read there.
pub mod Laws
pub mod Arenas
pub mod Setup
use moestream.Prelude.{
  ℕ, zero, suc, ◌+◌, ◌*◌, ◌%◌, ◌^◌, Bool, true, false, not, ◌&&◌, ◌||◌, Option, none, some, List,
  [], ◌∷◌, ◌++◌, update, length, elem, ltb, ◌==◌, if◌then◌else◌, inc64,
}
use moestream.Prelude.Int.{ℤ, pos}
use moestream.Cache.Doubles.{Doubles}
use moestream.Remap.Jobs.{ReadJob, Store, run_reads}
use moestream.Prefill.State.{Marks, PassTimes, Counters, Prefill}
use moestream.Prefill.Pass.{is_layer, Clock, note_pass}

-- What stays fixed: the weights in the files, what the reads do, and the tables of the layers.
pub record Model (W : Type 0) : Type 0 where
  pub weights : ℕ → ℕ → ℕ → W
  -- What `do_read` leaves at the place of a member of an expert, which had the last argument: the
  -- weights if the read gets all of them, what was there if it gets nothing, a mixture if it is
  -- short. The first argument counts the loads, so that a read may fail at one time only.
  pub read : ℕ → ℕ → ℕ → ℕ → W → W
  -- `n_expert` of a layer in `g_layers`, and the bytes of an expert's three members.
  pub layers : ℕ → Option ℕ
  pub expert_bytes : ℕ → ℕ
  -- The layer is in `g_full`, and is ready there.
  pub in_full : ℕ → Bool
  pub full_ready : ℕ → Bool

-- `!need || (*need)[e]`.
abbrev pub asks : Option Marks → ℕ → Bool
asks none e = true
asks (some need) e = need.mark e

-- The experts below `n` that are asked for and not there.
unfoldable pub missing : ℕ → Option Marks → (ℕ → Bool) → List ℕ
missing zero need have = []
missing (suc e) need have =
    missing e need have ++ (if asks need e && not (have e) then e ∷ [] else [])

abbrev pub arena_job : ℕ → ℕ → ReadJob
arena_job role e = record { role = role; expert = e; slot = e; direct = true; stage = 0 }

-- Three members each; an expert's place in the arena is its number.
unfoldable pub arena_jobs : List ℕ → List ReadJob
arena_jobs [] = []
arena_jobs (e ∷ es) = arena_job 0 e ∷ arena_job 1 e ∷ arena_job 2 e ∷ arena_jobs es

module _ {W : Type 0} where
  -- The arena after the reads of the experts `es`.
  unfoldable pub read_arena : (ℕ → ℕ → W) → List ℕ → (ℕ → ℕ → W) → ℕ → ℕ → W
  unfolding arena_jobs run_reads
  read_arena weights es memory =
      (run_reads weights (arena_jobs es) (record { memory = memory; staging = memory 0 })).memory

module _ (D : Doubles) {W : Type 0} (M : Model W) where
  open D use {Double, add, sub}

  -- The counters, and the time of the pass, after `reads` experts of `n` were read.
  unfoldable pub count_load : ℕ → ℕ → ℕ → Clock Double → Prefill Double W → Prefill Double W
  count_load il n reads clock st =
      let k = st.counters in
      let asked = record k {
        experts_asked = (k.experts_asked + n) % 2 ^ 64;
        experts_read = (k.experts_read + reads) % 2 ^ 64;
      } in
      let dt = sub clock.ended clock.began in
      let p = st.times in
      if reads == 0
      then record st { counters = record asked { pf_hits = inc64 asked.pf_hits } }
      else record st {
        counters = record asked {
          pf_loads = inc64 asked.pf_loads;
          pf_bytes = (asked.pf_bytes + reads * M.expert_bytes il) % 2 ^ 64;
          t_pfload = add asked.t_pfload dt;
        };
        times = record p { pass_io = add p.pass_io dt };
      }

  -- What arena `bi` has of layer `il` when the load begins.
  abbrev pub have_now : ℕ → ℕ → Prefill Double W → ℕ → Bool
  have_now il bi st e = if is_layer (st.arena_layer bi) il then st.arena_have bi e else false

  -- What a load leaves at a place of arena `bi` that it reads: each is read once, so that it still
  -- has what it had before the load.
  abbrev pub read_now : ℕ → ℕ → Prefill Double W → ℕ → ℕ → W
  read_now il bi st r e = M.read st.counters.pf_loads il r e (st.arena bi r e)

  -- Layer `il`, of `n` experts, into arena `bi`. The marks are set whatever the reads did.
  unfoldable pub fill_arena :
      ℕ → ℕ → ℕ → Option Marks → Clock Double → Prefill Double W → Prefill Double W
  unfolding missing read_arena count_load
  fill_arena il bi n need clock st =
      let have = have_now il bi st in
      let es = missing n need have in
      count_load il n (length es) clock (record st {
        arena = update st.arena bi (read_arena (read_now il bi st) es (st.arena bi));
        arena_layer = update st.arena_layer bi (pos il);
        arena_have = update st.arena_have bi (λ e. have e || elem e es);
      })

  -- `fit == end() || sit == end()`.
  unfoldable pub load_found :
      ℕ → ℕ → Bool → Option ℕ → Option Marks → Clock Double → Prefill Double W → Prefill Double W
  unfolding fill_arena
  load_found il bi true (some n) need clock st = fill_arena il bi n need clock st
  load_found il bi true none need clock st = st
  load_found il bi false found need clock st = st

  unfoldable pub load_layer_arena :
      ℕ → Option Marks → Clock Double → Prefill Double W → Prefill Double W
  unfolding load_found note_pass
  load_layer_arena il need clock st =
      let noted = record st { times = note_pass D il st.pf_ntok_seen clock st.times } in
      let bi = il % st.pf_nbuf in
      if not st.pf_ready
      then st
      else if st.pf_nbuf == 0
      then noted
      else if not (ltb bi st.n_arena)
      then record noted { pf_ready = false }
      else load_found il bi (M.in_full il) (M.layers il) need clock noted
