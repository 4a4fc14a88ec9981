-- ===== src/Cache/Alloc.antt =====
-- src/expert_cache.cpp, `alloc_slot`.
pub mod Outcome
use moestream.Prelude.{
  ℕ, zero, suc, ◌+◌, ◌-◌, ◌^◌, Bool, true, false, ◌&&◌, List, [], ◌∷◌, leb, ltb, if◌then◌else◌,
}
use moestream.Prelude.Int.{ℤ, negsuc, to_int32, ltb_ℤ, ◌-ℤ◌}
use moestream.Cache.State.{ExpertCache, no_slot}
use moestream.Cache.Evict.{evict_one}

abbrev pub int32_min : ℤ
int32_min = negsuc (2 ^ 31 - 1)

module _ {F : Type 0} where
  -- `int32_t(resident) - int32_t(quota)`, of a layer.
  unfoldable pub over_quota : ExpertCache F → ℕ → ℤ
  over_quota c l = to_int32 (c.lay l).resident -ℤ to_int32 (c.quota l)

  -- The search for the layer furthest over its quota, `n` layers from layer `l` on.
  unfoldable pub worst_layer : ℕ → ℕ → ExpertCache F → ℤ → ℕ → ℕ
  unfolding over_quota
  worst_layer zero l c worst victim = victim
  worst_layer (suc n) l c worst victim =
      let over = over_quota c l in
      let found = ltb_ℤ worst over && ltb (c.lay l).pinned (c.lay l).resident in
      worst_layer n (l + 1) c (if found then over else worst) (if found then l else victim)

  -- `if (!free_.empty()) { s = free_.back(); free_.pop_back(); return s; }`, else `other`.
  abbrev pub pop_or : List ℕ → ExpertCache F × ℕ → ExpertCache F → ExpertCache F × ℕ
  pop_or [] other c = other
  pop_or (s ∷ rest) other c = (record c { free = rest }, s)

  unfoldable pub pop_free : ExpertCache F → ExpertCache F × ℕ
  pop_free c = pop_or c.free (c, no_slot) c

  -- `if (!evict_one(l)) return NO_SLOT;` and what follows.
  abbrev pub after_evict :
      ExpertCache F × Bool → (ExpertCache F → ExpertCache F × ℕ) → ExpertCache F × ℕ
  after_evict (c, true) next = next c
  after_evict (c, false) next = (c, no_slot)

  -- Nothing free globally: the victim layer gives a slot.
  unfoldable pub take_from_worst : ℕ → ExpertCache F → ExpertCache F × ℕ
  unfolding worst_layer pop_free
  take_from_worst layer c =
      after_evict (evict_one (worst_layer c.cfg.n_layer 0 c int32_min layer) c) pop_free

  unfoldable pub take_free : ℕ → ExpertCache F → ExpertCache F × ℕ
  unfolding take_from_worst
  take_free layer c = pop_or c.free (take_from_worst layer c) c

  unfoldable pub alloc_slot : ℕ → ExpertCache F → ExpertCache F × ℕ
  unfolding take_free
  alloc_slot layer c =
      if leb (c.quota layer) (c.lay layer).resident
      then after_evict (evict_one layer c) (take_free layer)
      else take_free layer c
