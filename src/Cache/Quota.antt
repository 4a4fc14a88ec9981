-- ===== src/Cache/Quota.antt =====
-- src/expert_cache.cpp, `end_step` and `rebalance_quota`.
pub mod Laws
use moestream.Prelude.{
  ℕ, zero, suc, ◌+◌, ◌-◌, ◌%◌, ◌^◌, ◌&&◌, leb, ltb, ◌==◌, update, sum_below, if◌then◌else◌, inc32,
}
use moestream.Prelude.Int.{ℤ, pos, pos_part, ltb_ℤ, ◌+ℤ◌}
use moestream.Cache.Doubles.{Doubles}
use moestream.Cache.State.{Config, LayerState, ExpertCache}

-- `std::max<int64_t>(v, m)` and `std::min<int64_t>(v, m)` for m ≥ 0.
abbrev pub max_with : ℤ → ℕ → ℕ
max_with v m = if ltb_ℤ v (pos m) then m else pos_part v

abbrev pub min_with : ℕ → ℕ → ℕ
min_with v m = if ltb m v then m else v

-- `for (l = 0; sum < n_slot; ++l) nq[l % n_layer]++`, `r` rounds.
unfoldable pub top_up : ℕ → ℕ → ℕ → (ℕ → ℕ) → ℕ → ℕ
top_up n_layer zero l nq = nq
top_up n_layer (suc r) l nq =
    top_up n_layer r (l + 1) (update nq (l % n_layer) (nq (l % n_layer) + 1))

module _ (D : Doubles) where
  open D use {Double, from_nat, half, add, sub, mul, div, le, to_int64}

  -- `for (l < n) mean += ghost_hits`.
  unfoldable pub ghost_total : ℕ → ExpertCache Double → Double
  ghost_total zero c = from_nat 0
  ghost_total (suc n) c = add (ghost_total n c) (from_nat (c.lay n).ghost_hits)

  unfoldable pub mean_hits : ExpertCache Double → Double
  unfolding ghost_total
  mean_hits c = div (ghost_total c.cfg.n_layer c) (from_nat c.cfg.n_layer)

  unfoldable pub delta : ExpertCache Double → Double → ℕ → Double
  delta c mean l =
      mul (div (mul c.cfg.quota_eta (sub (from_nat (c.lay l).ghost_hits) mean)) mean)
        (from_nat (c.quota l))

  -- The first value of `nq[l]`.
  unfoldable pub wanted : ExpertCache Double → Double → ℕ → ℕ
  unfolding delta
  wanted c mean l =
      let d = delta c mean l in
      let rounded = if le (from_nat 0) d then add d half else add d (sub (from_nat 0) half) in
      min_with (max_with (pos (c.quota l) +ℤ to_int64 rounded) c.cfg.quota_min) c.cfg.n_expert

  -- `nq[l]` after the normalisation.
  unfoldable pub scaled : ExpertCache Double → Double → ℕ → ℕ
  unfolding wanted
  scaled c mean l =
      let nq = wanted c mean in
      let scale = div (from_nat c.n_slot) (from_nat (sum_below c.cfg.n_layer nq)) in
      max_with (to_int64 (mul (from_nat (nq l)) scale)) c.cfg.quota_min

  unfoldable pub forget_hits : ExpertCache Double → ExpertCache Double
  forget_hits c = record c { lay = λ l. record (c.lay l) { ghost_hits = 0 } }

  -- The quotas once the total has reached the slot count.
  unfoldable pub rebalanced : ExpertCache Double → ℕ → ℕ
  unfolding mean_hits scaled top_up
  rebalanced c =
      let nq = scaled c (mean_hits c) in
      top_up c.cfg.n_layer (c.n_slot - sum_below c.cfg.n_layer nq) 0 nq

  unfoldable pub rebalance_quota : ExpertCache Double → ExpertCache Double
  unfolding rebalanced forget_hits
  rebalance_quota c =
      if le (mean_hits c) (from_nat 0)
      then forget_hits c
      else forget_hits (record c { quota = λ l. rebalanced c l % 2 ^ 32 })

  unfoldable pub end_step : ExpertCache Double → ExpertCache Double
  unfolding rebalance_quota
  end_step c =
      let c1 = record c { step = inc32 c.step } in
      if c.cfg.layer_quota_adapt && c1.step % c.cfg.quota_period == 0
      then rebalance_quota c1
      else c1
