-- ===== src/Cache/Acquire.antt =====
-- src/expert_cache.cpp, `acquire`, `mark_resident` and `release`.
pub mod WellFormed
pub mod Cases
pub mod Served
pub mod Counters
use moestream.Prelude.{
  ℕ, ◌+◌, ◌-◌, ◌^◌, ◌%◌, Bool, true, false, ◌&&◌, [], ◌∷◌, ◌++◌, update, elem, erase_first, leb,
  ltb, ◌==◌, if◌then◌else◌, inc16, inc32, inc64,
}
use moestream.Cache.State.{
  Origin, demand, prefetch_high, prefetch_low, sweep, Seg, is_seated, Entry, LayerState,
  ExpertCache, no_slot, freq_max, idx, entry, set_entry,
}
use moestream.Cache.Alloc.{alloc_slot}

abbrev pub is_sweep : Origin → Bool
is_sweep sweep = true
is_sweep demand = false
is_sweep prefetch_high = false
is_sweep prefetch_low = false

-- `if (en.freq < FREQ_MAX) en.freq++; en.rc++`, after `en.last = step_`.
abbrev pub touch : ℕ → Entry → Entry
touch step en = record en {
  last = step;
  freq = if ltb en.freq freq_max then en.freq + 1 else en.freq;
  rc = inc16 en.rc;
}

-- `main.push_back`, `small.push_front` or `small.push_back`.
abbrev pub enqueue : Bool → Origin → ℕ → LayerState → LayerState
enqueue true origin expert ls = record ls { main = ls.main ++ expert ∷ [] }
enqueue false prefetch_low expert ls = record ls { small = expert ∷ ls.small }
enqueue false demand expert ls = record ls { small = ls.small ++ expert ∷ [] }
enqueue false prefetch_high expert ls = record ls { small = ls.small ++ expert ∷ [] }
enqueue false sweep expert ls = record ls { small = ls.small ++ expert ∷ [] }

module _ {F : Type 0} where
  -- A second reference while in SMALL moves the expert to MAIN.
  unfoldable pub promote : ℕ → ℕ → ExpertCache F → ExpertCache F
  promote layer expert c =
      let ls = c.lay layer in
      let en = entry c layer expert in
      if leb 2 en.freq && elem expert ls.small
      then record c {
        ent = update c.ent (idx c.cfg layer expert) (record en { seg = Seg.main });
        lay =
            update c.lay layer
              (record ls { small = erase_first expert ls.small; main = ls.main ++ expert ∷ [] });
        st = record c.st { promote = inc64 c.st.promote };
      }
      else c

  -- The `switch` of a hit.
  unfoldable pub count_hit : ℕ → ℕ → Seg → ExpertCache F → ExpertCache F
  unfolding promote
  count_hit layer expert Seg.pinned c = record c {
    st = record c.st { hit_pinned = inc64 c.st.hit_pinned };
  }
  count_hit layer expert Seg.small c =
      promote layer expert (record c { st = record c.st { hit_small = inc64 c.st.hit_small } })
  count_hit layer expert Seg.main c = record c {
    st = record c.st { hit_main = inc64 c.st.hit_main };
  }
  count_hit layer expert Seg.none c = c

  unfoldable pub on_hit : ℕ → ℕ → ExpertCache F → ExpertCache F
  unfolding count_hit
  on_hit layer expert c =
      let en = entry c layer expert in
      count_hit layer expert en.seg (record c {
        ent = update c.ent (idx c.cfg layer expert) (touch c.step en);
        st = record c.st { hit = inc64 c.st.hit };
      })

  -- The entry and the counters of a miss.
  unfoldable pub count_miss : ℕ → ℕ → ExpertCache F → ExpertCache F
  count_miss layer expert c =
      let en = entry c layer expert in
      record c {
        ent = update c.ent (idx c.cfg layer expert) (record en { last = c.step; freq = 1 });
        st = record c.st { miss = inc64 c.st.miss };
      }

  abbrev pub was_ghost : ℕ → ℕ → ExpertCache F → Bool
  was_ghost layer expert c = elem expert (c.lay layer).ghost

  -- An expert that is found in the ghost list leaves it.
  unfoldable pub leave_ghost : ℕ → ℕ → ExpertCache F → ExpertCache F
  leave_ghost layer expert c =
      let ls = c.lay layer in
      if was_ghost layer expert c
      then record c {
        lay =
            update c.lay layer
              (record ls { ghost = erase_first expert ls.ghost; ghost_hits = inc32 ls.ghost_hits });
        st = record c.st { ghost_hit = inc64 c.st.ghost_hit };
      }
      else c

  -- The expert takes slot `s`.
  unfoldable pub admit : ℕ → ℕ → Origin → Bool → ℕ → ExpertCache F → ExpertCache F
  admit layer expert origin ghost s c =
      let i = idx c.cfg layer expert in
      let en = c.ent i in
      let ls = enqueue ghost origin expert (c.lay layer) in
      record c {
        ent = update c.ent i (record en {
          slot = s;
          rc = 1;
          resident = false;
          seg = if ghost then Seg.main else Seg.small;
        });
        slot_table = update c.slot_table i s;
        lay = update c.lay layer (record ls { resident = inc32 ls.resident });
        st = record c.st { admit = inc64 c.st.admit };
      }

  -- What follows `alloc_slot`.
  unfoldable pub settle : ℕ → ℕ → Origin → Bool → ExpertCache F × ℕ → ExpertCache F × Bool × ℕ
  unfolding admit
  settle layer expert origin ghost (c, s) =
      if s == no_slot then (c, false, no_slot) else (admit layer expert origin ghost s c, false, s)

  unfoldable pub on_miss : ℕ → ℕ → Origin → ExpertCache F → ExpertCache F × Bool × ℕ
  unfolding count_miss leave_ghost settle
  on_miss layer expert origin c =
      let c1 = count_miss layer expert c in
      let c2 = leave_ghost layer expert c1 in
      if is_sweep origin
      then (record c2 { st = record c2.st { bypass = inc64 c2.st.bypass } }, false, no_slot)
      else settle layer expert origin (was_ghost layer expert c1) (alloc_slot layer c2)

  -- The new state, whether it was a hit, and the slot.
  unfoldable pub acquire : ExpertCache F → ℕ → ℕ → Origin → ExpertCache F × Bool × ℕ
  unfolding on_hit on_miss
  acquire c layer expert origin =
      let en = entry c layer expert in
      if is_seated en.seg
      then (on_hit layer expert c, true, en.slot)
      else on_miss layer expert origin c

  unfoldable pub mark_resident : ExpertCache F → ℕ → ℕ → ℕ → ExpertCache F
  mark_resident c layer expert nbytes =
      let en = entry c layer expert in
      if en.resident then c else record c {
        ent = update c.ent (idx c.cfg layer expert) (record en { resident = true });
        st = record c.st { bytes_fetched = (c.st.bytes_fetched + nbytes) % 2 ^ 64 };
      }

  unfoldable pub release : ExpertCache F → ℕ → ℕ → ExpertCache F
  release c layer expert =
      let en = entry c layer expert in
      if ltb 0 en.rc then set_entry c (idx c.cfg layer expert) (record en { rc = en.rc - 1 }) else c
