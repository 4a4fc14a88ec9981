-- ===== src/Cache/Pin.antt =====
-- src/expert_cache.cpp, `build_pinned`. `std::partial_sort` over the experts of a layer is a
-- parameter: from the number of experts, how many are wanted and their keys, the order.
pub mod WellFormed
use moestream.Prelude.{
  ℕ, zero, suc, ◌+◌, ◌*◌, ◌%◌, ◌^◌, true, ◌||◌, not, List, [], ◌∷◌, update, ltb, ◌==◌,
  if◌then◌else◌, inc32,
}
use moestream.Cache.Doubles.{Doubles}
use moestream.Cache.State.{
  Seg, is_seated, Config, Entry, LayerState, ExpertCache, total, idx, entry,
}

-- The first `n` of a list.
abbrev pub take {ℓ} : {A : Type ℓ} → ℕ → List A → List A
take zero xs = []
take (suc n) [] = []
take (suc n) (x ∷ xs) = x ∷ take n xs

module _ {F : Type 0} where
  -- The expert takes slot `s` for good.
  unfoldable pub pin : ℕ → ℕ → ℕ → List ℕ → ExpertCache F → ExpertCache F
  pin layer e s rest c =
      let i = idx c.cfg layer e in
      let ls = c.lay layer in
      record c {
        ent = update c.ent i (record (c.ent i) { slot = s; seg = Seg.pinned; resident = true });
        slot_table = update c.slot_table i s;
        lay =
            update c.lay layer
              (record ls { pinned = inc32 ls.pinned; resident = inc32 ls.resident });
        free = rest;
      }

  -- One round: `none left` keeps the state, an expert with a slot is skipped.
  unfoldable pub pin_one : ℕ → ℕ → List ℕ → ExpertCache F → ExpertCache F
  unfolding pin
  pin_one layer e [] c = c
  pin_one layer e (s ∷ rest) c = if is_seated (entry c layer e).seg then c else pin layer e s rest c

  -- The experts to pin, in order. Once the free stack is empty every round keeps the state, as the
  -- loop's end does.
  unfoldable pub pin_all : ℕ → List ℕ → ExpertCache F → ExpertCache F
  unfolding pin_one
  pin_all layer [] c = c
  pin_all layer (e ∷ es) c = pin_all layer es (pin_one layer e c.free c)

module _ (D : Doubles) where
  open D use {Double, from_nat, half, add, mul, to_uint32}

  unfoldable pub per_layer : Config Double → ℕ
  per_layer cfg =
      let n = to_uint32 (add (mul (from_nat cfg.n_expert) cfg.pin_ratio) half) in
      if ltb n 1 then 1 else n

module _ (D : Doubles) (partial_sort : ℕ → ℕ → (ℕ → ℕ) → List ℕ) where
  open D use {Double, from_nat, le}

  -- The experts that layer `l` is to pin, most frequent first.
  unfoldable pub to_pin : ℕ → (ℕ → ℕ) → Config Double → List ℕ
  unfolding per_layer
  to_pin l freq cfg =
      let per = per_layer D cfg in
      let base = (l * cfg.n_expert) % 2 ^ 32 in
      take per (partial_sort cfg.n_expert per (λ e. freq (base + e)))

  -- The layers below `n`.
  unfoldable pub pin_layers : ℕ → (ℕ → ℕ) → ExpertCache Double → ExpertCache Double
  unfolding to_pin pin_all
  pin_layers zero freq c = c
  pin_layers (suc n) freq c = let d = pin_layers n freq c in pin_all n (to_pin n freq d.cfg) d

  -- `freq_size` is the length of the vector `freq`.
  unfoldable pub build_pinned : ℕ → (ℕ → ℕ) → ExpertCache Double → ExpertCache Double
  unfolding pin_layers
  build_pinned freq_size freq c =
      if le c.cfg.pin_ratio (from_nat 0) || not (freq_size == total c.cfg)
      then c
      else pin_layers c.cfg.n_layer freq c
