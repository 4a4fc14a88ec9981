-- ===== src/Cache/Quota/Laws.antt =====
-- What a reallocation of quotas guarantees, and what it does not.
use moestream.Prelude.{
  ℕ, zero, suc, ◌+◌, ◌-◌, ◌*◌, ◌%◌, ◌^◌, ◌≤◌, ◌<◌, ◌≡◌, ◌∙◌, false, ◌&&◌, ltb, ◌==◌, update,
  sum_below, sum_below-update, sum_below-ext, le-sum_below, if◌then◌else◌, if_intro,
  sum_below-const-le, inc32, arith,
}
use moestream.Prelude.Int.{ℤ, pos, negsuc}
use native.Mathlib.Nat.{mod-eq_of_lt}
use moestream.Cache.Doubles.{Doubles}
use moestream.Cache.State.{ExpertCache}
use moestream.Cache.Inv.{Inv}
use moestream.Cache.Quota.{
  max_with, top_up, mean_hits, scaled, forget_hits, rebalanced, rebalance_quota, end_step,
}

-- Each round adds one to the total.
top_up-sum :
    (n_layer r l : ℕ) (nq : ℕ → ℕ)
    → 0 < n_layer
    → sum_below n_layer (top_up n_layer r l nq) ≡ sum_below n_layer nq + r
unfolding top_up
top_up-sum n_layer zero l nq h = omega arith
top_up-sum n_layer (suc r) l nq h = omega (
  arith,
  top_up-sum n_layer r (l + 1) (update nq (l % n_layer) (nq (l % n_layer) + 1)) h,
  sum_below-update n_layer (λ (q : ℕ). q) nq (l % n_layer) (nq (l % n_layer) + 1) (omega arith),
)

-- No layer loses.
top_up-le : (n_layer r l : ℕ) (nq : ℕ → ℕ) (m : ℕ) → nq m ≤ top_up n_layer r l nq m
unfolding top_up
top_up-le n_layer zero l nq m = omega arith
top_up-le n_layer (suc r) l nq m =
    ground (arith, top_up-le n_layer r (l + 1) (update nq (l % n_layer) (nq (l % n_layer) + 1)) m)

le-max_with : (v : ℤ) (m : ℕ) → m ≤ max_with v m
le-max_with (pos n) m = ground arith
le-max_with (negsuc n) m = ground arith

module _ (D : Doubles) where
  open D use {Double, le, from_nat}

  -- The total after the normalisation.
  unfoldable pub scaled_total : ExpertCache Double → ℕ
  scaled_total c = sum_below c.cfg.n_layer (scaled D c (mean_hits D c))

  quota_min-le-scaled :
      (c : ExpertCache Double) (mean : Double) (l : ℕ) → c.cfg.quota_min ≤ scaled D c mean l
  unfolding scaled
  quota_min-le-scaled c mean l = ground arith

  module _ (c : ExpertCache Double) (v : Inv c) where
    rebalanced-sum :
        sum_below c.cfg.n_layer (rebalanced D c)
        ≡ (if ltb c.n_slot (scaled_total c) then scaled_total c else c.n_slot)
    unfolding rebalanced scaled_total
    rebalanced-sum =
        let nq = scaled D c (mean_hits D c) in
        ground (
          arith,
          top_up-sum c.cfg.n_layer (c.n_slot - sum_below c.cfg.n_layer nq) 0 nq v.config.layers,
        )

    module _ (active : le (mean_hits D c) (from_nat 0) ≡ false)
        (fits : scaled_total c < 2 ^ 32) where
      -- No quota is cut by its conversion to 32 bits.
      quota-rebalanced :
          (l : ℕ) → l < c.cfg.n_layer → (rebalance_quota D c).quota l ≡ rebalanced D c l
      unfolding rebalance_quota
      quota-rebalanced l h =
          let small : rebalanced D c l < 2 ^ 32 =
            ground
              (arith, le-sum_below c.cfg.n_layer (rebalanced D c) l h, rebalanced-sum, v.slots) in
          rw active (mod-eq_of_lt small)

      -- In a well-formed cache whose mean of ghost hits is not at most 0, and whose normalised total
      -- is below 2 ^ 32, the new quotas add up to the slots, or to that total if it is more.
      pub rebalance_quota-sum :
          sum_below c.cfg.n_layer (rebalance_quota D c).quota
          ≡ (if ltb c.n_slot (scaled_total c) then scaled_total c else c.n_slot)
      rebalance_quota-sum = sum_below-ext c.cfg.n_layer _ _ quota-rebalanced ∙ rebalanced-sum

      -- In such a cache every layer has at least the minimum after a reallocation.
      pub quota_min-le :
          (l : ℕ) → l < c.cfg.n_layer → c.cfg.quota_min ≤ (rebalance_quota D c).quota l
      unfolding rebalanced
      quota_min-le l h = omega (
        arith,
        quota-rebalanced l h,
        top_up-le c.cfg.n_layer _ 0 (scaled D c (mean_hits D c)) l,
        quota_min-le-scaled c (mean_hits D c) l,
      )

      -- In such a cache, where the minimum quotas alone need more slots than there are, the new
      -- quotas add up to more than the slots.
      pub rebalance_quota-exceeds :
          c.n_slot < c.cfg.n_layer * c.cfg.quota_min
          → c.n_slot < sum_below c.cfg.n_layer (rebalance_quota D c).quota
      unfolding scaled_total
      rebalance_quota-exceeds short =
          let each : c.cfg.n_layer * c.cfg.quota_min ≤ scaled_total c =
            sum_below-const-le c.cfg.n_layer c.cfg.quota_min _
              (quota_min-le-scaled c (mean_hits D c)) in
          ground (arith, rebalance_quota-sum)

  module _ (c : ExpertCache Double) (v : Inv c) where
    requota-Inv : (quota : ℕ → ℕ) → Inv (forget_hits D (record c { quota = quota }))
    unfolding forget_hits
    requota-Inv quota = record {
      config = v.config;
      slots = v.slots;
      owned = v.owned;
      mirrored = v.mirrored;
      entries = v.entries;
      layers = λ l. record { residents = (v.layers l).residents };
      smalls = v.smalls;
      mains = v.mains;
      seats = v.seats;
    }

    rebalance_quota-Inv : Inv (rebalance_quota D c)
    unfolding rebalance_quota
    rebalance_quota-Inv =
        if_intro Inv (le (mean_hits D c) (from_nat 0)) _ _ (λ b. requota-Inv c.quota)
          (λ b. requota-Inv _)

  step-Inv : (c : ExpertCache Double) (n : ℕ) → Inv c → Inv (record c { step = n })
  step-Inv c n v = record {
    config = v.config;
    slots = v.slots;
    owned = v.owned;
    mirrored = v.mirrored;
    entries = v.entries;
    layers = v.layers;
    smalls = v.smalls;
    mains = v.mains;
    seats = v.seats;
  }

  -- The end of a step, with or without a reallocation, keeps a well-formed cache well formed.
  pub end_step-Inv : (c : ExpertCache Double) → Inv c → Inv (end_step D c)
  unfolding end_step
  end_step-Inv c v =
      let w = step-Inv c (inc32 c.step) v in
      if_intro Inv (c.cfg.layer_quota_adapt && inc32 c.step % c.cfg.quota_period == 0) _ _
        (λ b. rebalance_quota-Inv _ w) (λ b. w)
