-- ===== src/Cache/Evict.antt =====
-- src/expert_cache.cpp, `evict_one`.
pub mod WellFormed
pub mod Frame
pub mod Scan
pub mod Progress
pub mod Outcome
use moestream.Prelude.{
  ℕ, zero, suc, ◌+◌, ◌*◌, ◌<◌, Bool, true, false, ◌&&◌, List, [], ◌∷◌, ◌++◌, update, length, ltb,
  if◌then◌else◌, inc64, dec32,
}
use moestream.Cache.State.{
  Seg, Entry, LayerState, ExpertCache, no_slot, idx, entry, set_entry, set_layer,
}

-- The three passes over the queues of a layer.
pub data Pass : Type 0 where
  over_small : Pass
  second_chance : Pass
  forced : Pass

-- `pass == 0 ? ls.small : ls.main`.
abbrev pub queue : Pass → LayerState → List ℕ
queue over_small ls = ls.small
queue second_chance ls = ls.main
queue forced ls = ls.main

abbrev pub set_queue : Pass → LayerState → List ℕ → LayerState
set_queue over_small ls q = record ls { small = q }
set_queue second_chance ls q = record ls { main = q }
set_queue forced ls q = record ls { main = q }

abbrev pub is_second_chance : Pass → Bool
is_second_chance over_small = false
is_second_chance second_chance = true
is_second_chance forced = false

-- `while (ls.ghost.size() > gmax) ls.ghost.pop_front()`.
abbrev pub trim_ghost : ℕ → List ℕ → List ℕ
trim_ghost gmax [] = []
trim_ghost gmax (x ∷ xs) = if ltb gmax (length (x ∷ xs)) then trim_ghost gmax xs else x ∷ xs

-- What one round of the inner loop does with the head of the queue.
pub data Verdict : Type 0 where
  in_use spared taken : Verdict

unfoldable pub judge : Pass → Entry → Verdict
judge pass en =
    if ltb 0 en.rc then in_use else if is_second_chance pass && ltb 1 en.freq then spared else taken

module _ {F : Type 0} where
  -- `q.pop_front(); …; q.push_back(e)`.
  unfoldable pub rotate : Pass → ℕ → ℕ → List ℕ → ExpertCache F → ExpertCache F
  rotate pass layer e rest c = set_layer c layer (set_queue pass (c.lay layer) (rest ++ e ∷ []))

  -- `en.freq--`.
  unfoldable pub spend_chance : ℕ → ℕ → ExpertCache F → ExpertCache F
  spend_chance layer e c =
      let en = entry c layer e in
      set_entry c (idx c.cfg layer e) (record en { freq = dec32 en.freq })

  -- The body that takes the slot of `e` away; `rest` is the queue without it.
  unfoldable pub evict : Pass → ℕ → ℕ → List ℕ → ExpertCache F → ExpertCache F
  evict pass layer e rest c = record c {
    ent = update c.ent i (record en { slot = no_slot; seg = Seg.none; resident = false; freq = 0 });
    slot_table = update c.slot_table i no_slot;
    lay = update c.lay layer (record (set_queue pass ls rest) {
      resident = dec32 ls.resident;
      ghost = trim_ghost (c.quota layer * c.cfg.ghost_mult) (ls.ghost ++ e ∷ []);
    });
    free = en.slot ∷ c.free;
    st = record c.st { evict = inc64 c.st.evict };
  }
    where
      i : ℕ
      i = idx c.cfg layer e

      en : Entry
      en = c.ent i

      ls : LayerState
      ls = c.lay layer

  -- The inner loop, `n` rounds: the state, and whether an expert was evicted.
  unfoldable pub evict_rounds : ℕ → Pass → ℕ → ExpertCache F → ExpertCache F × Bool
  unfolding judge
  evict_rounds zero pass layer c = (c, false)
  evict_rounds (suc n) pass layer c = elim (queue pass (c.lay layer)) [
    | [] ↦ (c, false)
    | e ∷ rest ↦ elim (judge pass (entry c layer e)) [
      | in_use ↦ evict_rounds n pass layer (rotate pass layer e rest c)
      | spared ↦ evict_rounds n pass layer (rotate pass layer e rest (spend_chance layer e c))
      | taken ↦ (evict pass layer e rest c, true)
    ]
  ]

  unfoldable pub evict_pass : Pass → ℕ → ExpertCache F → ExpertCache F × Bool
  unfolding evict_rounds
  evict_pass pass layer c = evict_rounds (length (queue pass (c.lay layer))) pass layer c

  -- `if (…) return true;` between the passes.
  abbrev pub or_else :
      ExpertCache F × Bool → (ExpertCache F → ExpertCache F × Bool) → ExpertCache F × Bool
  or_else (c, true) next = (c, true)
  or_else (c, false) next = next c

  unfoldable pub evict_one : ℕ → ExpertCache F → ExpertCache F × Bool
  unfolding evict_pass
  evict_one layer c =
      or_else (evict_pass over_small layer c)
        λ c1. or_else (evict_pass second_chance layer c1) λ c2. evict_pass forced layer c2
