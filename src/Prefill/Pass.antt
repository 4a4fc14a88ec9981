-- ===== src/Prefill/Pass.antt =====
-- src/llama-moestream.cpp, the head of `load_layer_arena`: where a pass over the layers begins, and
-- what the pass before it took. The clock's readings are arguments.
use moestream.Prelude.{ℕ, ◌+◌, ◌%◌, ◌^◌, Bool, false, ◌&&◌, leb, ltb, ◌==◌, if◌then◌else◌, inc64}
use moestream.Prelude.Int.{ℤ, pos, negsuc, ltb_ℤ}
use moestream.Cache.Doubles.{Doubles}
use moestream.Prefill.State.{PassTimes}

-- `v == il` for an `int` that is -1 for none.
abbrev pub is_layer : ℤ → ℕ → Bool
is_layer (pos k) il = k == il
is_layer (negsuc k) il = false

-- The readings: of the pass's end, of its successor's beginning, before and after the reads.
pub record Clock (F : Type 0) : Type 0 where
  pub passed : F
  pub entered : F
  pub began : F
  pub ended : F

module _ (D : Doubles) where
  open D use {Double, from_nat, add, sub, lt}

  -- A larger micro-batch restarts the aggregate.
  unfoldable pub restart_ub : PassTimes Double → PassTimes Double
  restart_ub p =
      if ltb p.ub_ntok p.pass_ntok
      then record p {
        ub_io = from_nat 0;
        ub_cmp = from_nat 0;
        ub_passes = 0;
        ub_ntok = p.pass_ntok;
      }
      else p

  abbrev pub add_pass : Double → PassTimes Double → PassTimes Double
  add_pass cmp p = record p {
    ub_io = add p.ub_io p.pass_io;
    ub_cmp = add p.ub_cmp cmp;
    ub_passes = inc64 p.ub_passes;
  }

  -- The pass that ended is counted, if it is a full one without an idle gap.
  unfoldable pub count_pass : Double → PassTimes Double → PassTimes Double
  unfolding restart_ub
  count_pass passed p =
      let tot = sub passed p.pass_t0 in
      let cmp = sub tot p.pass_io in
      if lt (from_nat 0) cmp
        && lt (from_nat 0) p.pass_io
        && lt tot (from_nat 600)
        && leb p.ub_ntok p.pass_ntok
      then add_pass cmp (restart_ub p)
      else p

  -- `seen` is `g_pf_ntok_seen`.
  unfoldable pub begin_pass : ℕ → Double → PassTimes Double → PassTimes Double
  begin_pass seen entered p = record p {
    pass_t0 = entered;
    pass_io = from_nat 0;
    pass_ntok = seen;
    req_t0 = if D.le p.req_t0 (from_nat 0) && D.le (from_nat 0) p.req_t0 then entered else p.req_t0;
    req_tok = (p.req_tok + seen) % 2 ^ 64;
  }

  unfoldable pub note_pass : ℕ → ℕ → Clock Double → PassTimes Double → PassTimes Double
  unfolding count_pass begin_pass
  note_pass il seen clock p =
      let q = if ltb_ℤ p.pf_first_il (pos 0) then record p { pf_first_il = pos il } else p in
      let counted =
        if lt (from_nat 0) q.pass_t0 && ltb 0 q.pass_ntok then count_pass clock.passed q else q in
      if is_layer q.pf_first_il il then begin_pass seen clock.entered counted else q
