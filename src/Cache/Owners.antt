-- ===== src/Cache/Owners.antt =====
-- What the ownership invariant says of slots: in range, exclusive, and not free while held.
use moestream.Prelude.{
  ℕ, ◌<◌, ◌≡◌, ◌≢◌, sym, ap, true, count, le-sum_below, add-le-sum_below, arith,
}
use native.Mathlib.Decide.{dec_lt}
use moestream.Cache.State.{is_seated, ExpertCache, total}
use moestream.Cache.Inv.{Inv, holds}

module _ {F : Type 0} (c : ExpertCache F) (v : Inv c) where
  holder : (i : ℕ) → is_seated (c.ent i).seg ≡ true → holds (c.ent i).slot (c.ent i) ≡ 1
  holder i h = ground arith

  pub slot-lt :
      (i : ℕ) → i < total c.cfg → is_seated (c.ent i).seg ≡ true → (c.ent i).slot < c.n_slot
  slot-lt i k h = ground (
    arith,
    holder i h,
    v.owned (c.ent i).slot,
    le-sum_below (total c.cfg) (λ j. holds (c.ent i).slot (c.ent j)) i k,
  )

  -- The slot of a resident expert is not on the free stack.
  pub slot_not_free :
      (i : ℕ) → i < total c.cfg → is_seated (c.ent i).seg ≡ true → count (c.ent i).slot c.free ≡ 0
  slot_not_free i k h = ground (
    arith,
    holder i h,
    v.owned (c.ent i).slot,
    le-sum_below (total c.cfg) (λ j. holds (c.ent i).slot (c.ent j)) i k,
  )

  differ_lt :
      (i j : ℕ)
      → i < j
      → j < total c.cfg
      → is_seated (c.ent i).seg ≡ true
      → is_seated (c.ent j).seg ≡ true
      → (c.ent i).slot ≢ (c.ent j).slot
  differ_lt i j lt k h g = λ same. absurd (
      ground (
        arith,
        holder i h,
        holder j g,
        ap (λ (s : ℕ). holds s (c.ent j)) same,
        v.owned (c.ent i).slot,
        add-le-sum_below (total c.cfg) (λ m. holds (c.ent i).slot (c.ent m)) i j lt k,
      ))

  -- Two different experts in range of a well-formed cache that have slots have different ones.
  pub slots_differ :
      (i j : ℕ)
      → i ≢ j
      → i < total c.cfg
      → j < total c.cfg
      → is_seated (c.ent i).seg ≡ true
      → is_seated (c.ent j).seg ≡ true
      → (c.ent i).slot ≢ (c.ent j).slot
  slots_differ i j ne k l h g = λ same. elim (dec_lt i j) [
    | yes p ↦ differ_lt i j p l h g same
    | no p ↦ differ_lt j i (omega arith) k g h (sym same)
  ]
