-- ===== src/Tests/CacheRuns.antt =====
-- The cache on concrete histories.
use moestream.Prelude.{
  ℕ, zero, suc, ◌≤◌, ◌+◌, ◌%◌, ◌^◌, ◌<◌, ◌≡◌, ◌↔◌, refl, false, List, ltb, leb, if◌then◌else◌,
  sum_below, arith, length,
}
use moestream.Cache.State.{demand, entry, no_slot}
use moestream.Cache.Inv.{Inv}
use moestream.Cache.Create.{create, slot_count, slots_from}
use moestream.Cache.Evict.{evict, evict_one}
use moestream.Cache.Evict.Progress.{InQueue, evict_one-fails_iff}
use moestream.Cache.Alloc.{alloc_slot}
use moestream.Cache.Acquire.{acquire}
use moestream.Cache.Acquire.Served.{Served, acquire-Served}
use moestream.Cache.OneLayer.{IsOneLayer, AllInUse, alloc_slot-refuses_iff}
use moestream.Cache.Pin.{build_pinned}
use moestream.Cache.Pin.WellFormed.{AllBelow, Pins, build_pinned-Pins}
use moestream.Cache.Quota.{rebalance_quota, mean_hits, ghost_total, scaled, wanted, delta}
use moestream.Cache.Quota.Laws.{scaled_total, rebalance_quota-sum, rebalance_quota-exceeds}
use moestream.Cache.History.{run, requests}
use moestream.Cache.History.Laws.{run-create-Inv, run-create-counts}
use moestream.Tests.Inputs.{
  nat_doubles, one_layer, one_layer-IsConfig, some_calls, some_calls-AllInRange, new_cache,
  new_cache-Inv, used_cache, used_cache-Inv, used_cache-layer, used_cache-expert, ghosted,
  ghosted-Inv,
}

-- Experts 2 and 3 have the slots; expert 1 was evicted.
used_cache_lem : ((entry used_cache 0 2).slot ≡ 1) × ((entry used_cache 0 3).slot ≡ 0)
unfolding run create slot_count alloc_slot evict_one evict
used_cache_lem = (refl, refl)

run-create-Inv_example : Inv (run nat_doubles (create nat_doubles one_layer) some_calls)
unfolding slot_count
run-create-Inv_example =
    run-create-Inv nat_doubles one_layer some_calls one_layer-IsConfig (omega arith)
      some_calls-AllInRange

evict_one-fails_iff_example :
    ((evict_one 0 used_cache).1 ≡ false)
    ↔ ((e : ℕ) → InQueue used_cache 0 e → 0 < (entry used_cache 0 e).rc)
evict_one-fails_iff_example = evict_one-fails_iff 0 used_cache used_cache-Inv used_cache-layer

acquire-Served_example : Served used_cache 0 1 (acquire used_cache 0 1 demand)
acquire-Served_example =
    acquire-Served used_cache 0 1 used_cache-Inv used_cache-layer
      (used_cache-expert 1 (omega arith)) demand

used_cache-IsOneLayer : IsOneLayer used_cache
unfolding run create slot_count alloc_slot evict_one evict
used_cache-IsOneLayer = record { one = refl; whole = refl }

alloc_slot-refuses_iff_example :
    ((alloc_slot 0 used_cache).1 ≡ no_slot) ↔ ((length used_cache.free ≡ 0) × AllInUse used_cache)
alloc_slot-refuses_iff_example =
    alloc_slot-refuses_iff used_cache used_cache-Inv used_cache-IsOneLayer

run-create-counts_example :
    let st = (run nat_doubles (create nat_doubles one_layer) some_calls).st in
    ((st.hit + st.miss) % 2 ^ 64 ≡ requests some_calls % 2 ^ 64)
    × ((st.hit_pinned + st.hit_small + st.hit_main) % 2 ^ 64 ≡ st.hit % 2 ^ 64)
unfolding slot_count
run-create-counts_example =
    run-create-counts nat_doubles one_layer some_calls one_layer-IsConfig (omega arith)
      some_calls-AllInRange

ghosted-active : (least : ℕ) → leb (mean_hits nat_doubles (ghosted least)) 0 ≡ false
unfolding mean_hits ghost_total create slot_count
ghosted-active least = refl

ghosted-small : scaled_total nat_doubles (ghosted 1) < 2 ^ 32
unfolding scaled_total scaled wanted delta mean_hits ghost_total create slot_count sum_below
ghosted-small = omega arith

rebalance_quota-sum_example : sum_below 2 (rebalance_quota nat_doubles (ghosted 1)).quota ≡ (
    if ltb 4 (scaled_total nat_doubles (ghosted 1))
    then scaled_total nat_doubles (ghosted 1)
    else 4)
unfolding create slot_count
rebalance_quota-sum_example =
    rebalance_quota-sum nat_doubles (ghosted 1) (ghosted-Inv 1) (ghosted-active 1) ghosted-small

ghosted-small_3 : scaled_total nat_doubles (ghosted 3) < 2 ^ 32
unfolding scaled_total scaled wanted delta mean_hits ghost_total create slot_count sum_below
ghosted-small_3 = omega arith

rebalance_quota-exceeds_example : 4 < sum_below 2 (rebalance_quota nat_doubles (ghosted 3)).quota
unfolding create slot_count
rebalance_quota-exceeds_example =
    rebalance_quota-exceeds nat_doubles (ghosted 3) (ghosted-Inv 3) (ghosted-active 3)
      ghosted-small_3 (omega arith)

-- The first experts in order, in place of the most frequent.
abbrev first_experts : ℕ → ℕ → (ℕ → ℕ) → List ℕ
first_experts n per key = slots_from 0 n

slots_from-AllBelow : (m s n : ℕ) → s + n ≤ m → AllBelow m (slots_from s n)
unfolding slots_from
slots_from-AllBelow m s zero h = tt
slots_from-AllBelow m s (suc n) h = (omega arith, slots_from-AllBelow m (s + 1) n (omega arith))

first_experts-AllBelow : (n per : ℕ) (key : ℕ → ℕ) → AllBelow n (first_experts n per key)
first_experts-AllBelow n per key = slots_from-AllBelow n 0 n (omega arith)

build_pinned-Pins_example :
    Pins new_cache (build_pinned nat_doubles first_experts 4 (λ e. e) new_cache)
build_pinned-Pins_example =
    build_pinned-Pins nat_doubles first_experts first_experts-AllBelow 4 (λ e. e) new_cache
      new_cache-Inv
