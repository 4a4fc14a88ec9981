-- ===== src/Cache/Inv.antt =====
-- What makes a cache state well formed, and what a client reads off it.
use moestream.Prelude.{
  ℕ, ◌+◌, ◌*◌, ◌^◌, ◌≤◌, ◌<◌, ◌≡◌, ap, false, length, count, ltb, if◌then◌else◌, ◌==◌, sum_below,
  arith,
}
use native.Mathlib.Decide.{dec_lt}
use moestream.Cache.State.{
  Seg, is_seated, Config, Entry, LayerState, ExpertCache, no_slot, freq_max, total, idx, entry,
}

abbrev pub in_small : Seg → ℕ
in_small Seg.small = 1
in_small Seg.none = 0
in_small Seg.pinned = 0
in_small Seg.main = 0

abbrev pub in_main : Seg → ℕ
in_main Seg.main = 1
in_main Seg.none = 0
in_main Seg.pinned = 0
in_main Seg.small = 0

-- 1 if the entry has slot `s`.
abbrev pub holds : ℕ → Entry → ℕ
holds s en = if is_seated en.seg then if en.slot == s then 1 else 0 else 0

pub record IsConfig {F : Type 0} (cfg : Config F) : Type 0 where
  pub layers : 0 < cfg.n_layer
  pub table_fits : cfg.n_layer * cfg.n_expert < 2 ^ 32

-- An entry without a slot is blank but for its counters.
pub record IsEntry (en : Entry) : Type 0 where
  pub vacant : is_seated en.seg ≡ false → (en.slot ≡ no_slot) × (en.rc ≡ 0)
  pub capped : en.freq ≤ freq_max

pub record IsLayer (ls : LayerState) : Type 0 where
  pub residents : ls.resident ≡ length ls.small + length ls.main + ls.pinned

pub record Inv {F : Type 0} (c : ExpertCache F) : Type 0 where
  pub config : IsConfig c.cfg
  pub slots : c.n_slot < no_slot
  -- A slot has one owner, the free stack or an entry; other numbers have none.
  pub owned :
      (s : ℕ)
      → count s c.free + sum_below (total c.cfg) (λ i. holds s (c.ent i))
        ≡ (if ltb s c.n_slot then 1 else 0)
  pub mirrored : (i : ℕ) → c.slot_table i ≡ (c.ent i).slot
  pub entries : (i : ℕ) → IsEntry (c.ent i)
  pub layers : (l : ℕ) → IsLayer (c.lay l)
  -- The queues of a layer hold the experts of their segment, once each.
  pub smalls :
      (l e : ℕ)
      → l < c.cfg.n_layer
      → count e (c.lay l).small ≡ (if ltb e c.cfg.n_expert then in_small (entry c l e).seg else 0)
  pub mains :
      (l e : ℕ)
      → l < c.cfg.n_layer
      → count e (c.lay l).main ≡ (if ltb e c.cfg.n_expert then in_main (entry c l e).seg else 0)
  pub seats : length c.free + sum_below c.cfg.n_layer (λ l. (c.lay l).resident) ≡ c.n_slot

-- Row `l` of a table with rows of `n` ends before row `m`.
pub row-le : (l m n : ℕ) → l < m → l * n + n ≤ m * n
row-le l m n h = grind arith

module _ {F : Type 0} {cfg : Config F} (v : IsConfig cfg) where
  pub total_lem : total cfg ≡ cfg.n_layer * cfg.n_expert
  total_lem = omega arith

  pub idx-lt-total : (l e : ℕ) → l < cfg.n_layer → e < cfg.n_expert → idx cfg l e < total cfg
  idx-lt-total l e h k = omega (arith, total_lem, row-le l cfg.n_layer cfg.n_expert h)

-- Two experts in range share no entry.
pub idx-injective :
    (n l e l' e' : ℕ) → e < n → e' < n → l * n + e ≡ l' * n + e' → (l ≡ l') × (e ≡ e')
idx-injective n l e l' e' h k p = elim (dec_lt l l') [
  | yes a ↦ absurd (omega (arith, row-le l l' n a))
  | no a ↦ elim (dec_lt l' l) [
    | yes b ↦ absurd (omega (arith, row-le l' l n b))
    | no b ↦ let q : l ≡ l' = omega arith in (q, omega (arith, ap (λ (t : ℕ). t * n) q))
  ]
]
