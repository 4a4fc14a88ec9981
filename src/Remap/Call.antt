-- ===== src/Remap/Call.antt =====
-- src/llama-moestream.cpp, `ms_remap_fn` from the release of the references to the end of the loop
-- over the ids: `g_cache[il]` is one cache, `g_held` is a function of its keys.
pub mod Release
pub mod Laws
use moestream.Prelude.{ℕ, zero, suc, ◌+◌, ◌*◌, Bool, List, [], ◌∷◌, update, elem}
use moestream.Prelude.Int.{ℤ}
use moestream.Cache.State.{ExpertCache}
use moestream.Cache.Acquire.{release}
use moestream.Remap.Mrc.{Mrc}
use moestream.Remap.Sweep.{owned_experts}
use moestream.Remap.Ids.{Batch, Run, map_ids}

-- What a call is given besides the ids.
pub record Setting : Type 0 where
  pub il : ℕ
  pub pass : ℕ
  pub np : ℕ
  pub n_expert : ℕ
  pub zero_slot : ℕ
  pub drop_from : ℤ
  pub no_reads : Bool
  pub expert_bytes : ℕ
  pub sweep_test : ℕ

-- What stays from one call to the next.
pub record Globals (F : Type 0) : Type 0 where
  pub cache : ExpertCache F
  pub held : ℕ → List ℕ
  pub mrc : Mrc
  pub exhausted : ℕ
  pub demand_count : ℕ
  pub dropped : ℕ
  pub warned : Bool

-- The keys of the first `n` passes of layer `il` are cleared.
unfoldable pub clear_passes : ℕ → ℕ → (ℕ → List ℕ) → ℕ → List ℕ
clear_passes il zero held = held
clear_passes il (suc q) held = update (clear_passes il q held) (il * 8 + q) []

unfoldable pub batch_of : Setting → List ℤ → Batch
batch_of s ids = record {
  il = s.il;
  np = s.np;
  n_expert = s.n_expert;
  zero_slot = s.zero_slot;
  drop_from = s.drop_from;
  no_reads = s.no_reads;
  expert_bytes = s.expert_bytes;
  owned = λ e. elem e (owned_experts s.sweep_test s.np s.pass s.n_expert ids);
}

module _ {F : Type 0} where
  unfoldable pub release_all : List ℕ → ExpertCache F → ExpertCache F
  release_all [] c = c
  release_all (e ∷ es) c = release_all es (release c 0 e)

  -- The references of the first `n` passes are released.
  unfoldable pub release_passes : ℕ → ℕ → (ℕ → List ℕ) → ExpertCache F → ExpertCache F
  unfolding release_all
  release_passes il zero held c = c
  release_passes il (suc q) held c = release_all (held (il * 8 + q)) (release_passes il q held c)

  -- The state in which the loop starts.
  unfoldable pub begin : Setting → Globals F → Run F
  unfolding release_passes clear_passes
  begin s g = record {
    cache = release_passes s.il 8 g.held g.cache;
    mrc = g.mrc;
    held = clear_passes s.il 8 g.held (s.il * 8 + s.pass);
    pend = [];
    exhausted = g.exhausted;
    demand_count = g.demand_count;
    dropped = g.dropped;
    warned = g.warned;
  }

  -- The state after it.
  unfoldable pub finish : Setting → Globals F → Run F → Globals F
  unfolding clear_passes
  finish s g r = record {
    cache = r.cache;
    held = update (clear_passes s.il 8 g.held) (s.il * 8 + s.pass) r.held;
    mrc = r.mrc;
    exhausted = r.exhausted;
    demand_count = r.demand_count;
    dropped = r.dropped;
    warned = r.warned;
  }

  -- The state, the words of the output, and the reads that are to be done.
  unfoldable pub remap : Setting → List ℤ → Globals F → Globals F × List ℕ × List (ℕ × ℕ)
  unfolding begin finish batch_of
  remap s ids g =
      let x = map_ids (batch_of s ids) ids (begin s g) in (finish s g x.0, x.1, x.0.pend)
