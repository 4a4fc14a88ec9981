-- ===== src/Remap/Ids.antt =====
-- src/llama-moestream.cpp, the loop of `ms_remap_fn` over the ids of a batch. The batch is the list
-- of its ids, token by token; the output is the list of the words written to `dst`.
pub mod Marked
pub mod Step
pub mod Words
pub mod Loop
pub mod Dropped
use moestream.Prelude.{
  ℕ, ◌+◌, ◌%◌, ◌^◌, Bool, true, false, not, ◌&&◌, Option, none, some, List, [], ◌∷◌, ◌++◌, ltb,
  ◌==◌, if◌then◌else◌, inc64,
}
use moestream.Prelude.Int.{ℤ, pos, negsuc, ltb_ℤ}
use moestream.Cache.State.{ExpertCache, demand, no_slot}
use moestream.Cache.Acquire.{acquire, mark_resident, release}
use moestream.Remap.Mrc.{Mrc, mrc_touch}

-- What stays fixed during one call.
pub record Batch : Type 0 where
  pub il : ℕ
  pub np : ℕ
  pub n_expert : ℕ
  pub zero_slot : ℕ
  pub drop_from : ℤ
  -- `noop_level() == 3`.
  pub no_reads : Bool
  -- The bytes of the expert's three members.
  pub expert_bytes : ℕ
  pub owned : ℕ → Bool

-- What the loop changes: the layer's cache, the experts held by this (layer, pass), the reads that
-- are pending, the counters.
pub record Run (F : Type 0) : Type 0 where
  pub cache : ExpertCache F
  pub mrc : Mrc
  pub held : List ℕ
  pub pend : List (ℕ × ℕ)
  pub exhausted : ℕ
  pub demand_count : ℕ
  pub dropped : ℕ
  pub warned : Bool

-- The expert that an id names, if it is in range.
abbrev pub expert_of : ℕ → ℤ → Option ℕ
expert_of n (pos e) = if ltb e n then some e else none
expert_of n (negsuc e) = none

-- `il >= g_drop_from`.
abbrev pub drops : Batch → Bool
drops b = not (ltb_ℤ (pos b.il) b.drop_from)

module _ {F : Type 0} where
  -- After `acquire`: the state, whether it was a hit, and the slot.
  unfoldable pub answer : Batch → ℕ → Run F → ExpertCache F × Bool × ℕ → Run F × ℕ
  answer b e r (c, hit, slot) =
      if slot == no_slot
      then (record r { cache = c; exhausted = inc64 r.exhausted; warned = true }, b.zero_slot)
      else if not hit && drops b
      then (
        record r {
          cache = release c 0 e;
          demand_count = inc64 r.demand_count;
          dropped = inc64 r.dropped;
        },
        b.zero_slot,
      )
      else if hit
      then (
        record r { cache = c; demand_count = inc64 r.demand_count; held = r.held ++ e ∷ [] },
        slot,
      )
      else (
        record r {
          cache = mark_resident c 0 e b.expert_bytes;
          demand_count = inc64 r.demand_count;
          pend = if b.no_reads then r.pend else r.pend ++ (e, slot) ∷ [];
          held = r.held ++ e ∷ [];
        },
        slot,
      )

  unfoldable pub serve : Batch → ℕ → Run F → Run F × ℕ
  unfolding answer
  serve b e r = answer b e (record r { mrc = mrc_touch b.il e r.mrc }) (acquire r.cache 0 e demand)

  -- One id: the word written for it.
  unfoldable pub map_expert : Batch → Option ℕ → Run F → Run F × ℕ
  unfolding serve
  map_expert b none r = (r, b.zero_slot)
  map_expert b (some e) r = if ltb 1 b.np && not (b.owned e) then (r, b.zero_slot) else serve b e r

  unfoldable pub map_ids : Batch → List ℤ → Run F → Run F × List ℕ
  unfolding map_expert
  map_ids b [] r = (r, [])
  map_ids b (i ∷ ids) r =
      let one = map_expert b (expert_of b.n_expert i) r in
      let rest = map_ids b ids one.0 in (rest.0, one.1 ∷ rest.1)
