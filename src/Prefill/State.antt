-- ===== src/Prefill/State.antt =====
-- The state of the prefill path. A vector over the experts of a layer is its length and its marks.
use moestream.Prelude.{ℕ, Bool, Option}
use moestream.Prelude.Int.{ℤ}

-- `std::vector<uint8_t>`.
pub record Marks : Type 0 where
  pub size : ℕ
  pub mark : ℕ → Bool

-- The times that the passes over the layers are measured by.
pub record PassTimes (F : Type 0) : Type 0 where
  pub pf_first_il : ℤ
  pub pass_t0 : F
  pub pass_io : F
  pub pass_ntok : ℕ
  pub ub_io : F
  pub ub_cmp : F
  pub ub_passes : ℕ
  pub ub_ntok : ℕ
  pub req_t0 : F
  pub req_tok : ℕ

pub record Counters (F : Type 0) : Type 0 where
  pub experts_asked : ℕ
  pub experts_read : ℕ
  pub pf_hits : ℕ
  pub pf_loads : ℕ
  pub pf_bytes : ℕ
  pub t_pfload : F
  pub async_hit : ℕ
  pub async_miss : ℕ
  pub u_need : ℕ
  pub u_prev : ℕ
  pub u_short : ℕ
  pub u_total : ℕ
  pub u_n : ℕ
  pub pf_used : ℕ
  pub slab_used : ℕ

-- What `g_pf_thread` was started with.
pub record Background : Type 0 where
  pub layer : ℕ
  pub hint : Marks

-- `W` is the type of an expert's weights: `arena b role e` is what arena `b` has at the place of
-- expert `e` of a member.
pub record Prefill (F W : Type 0) : Type 0 where
  pub pf_ready : Bool
  pub pf_nbuf : ℕ
  pub pf_async : Bool
  pub pf_threshold : ℤ
  pub prefetch : Bool
  pub arena : ℕ → ℕ → ℕ → W
  -- How many arenas there are, with their layers and marks.
  pub n_arena : ℕ
  pub arena_layer : ℕ → ℤ
  pub arena_have : ℕ → ℕ → Bool
  pub pf_inflight : ℤ
  -- The thread to be joined, if there is one.
  pub pf_thread : Option Background
  pub n_union : ℕ
  pub prev_union : ℕ → Marks
  pub seen_topk : ℕ
  pub pf_ntok_seen : ℕ
  pub times : PassTimes F
  pub counters : Counters F
