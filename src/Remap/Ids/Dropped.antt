-- ===== src/Remap/Ids/Dropped.antt =====
-- What drop mode leaves behind: a slot that later accesses take for loaded.
use moestream.Prelude.{ℕ, ◌<◌, ◌≡◌, ◌≢◌, sym, ap, ◌∙◌, subst, true, arith}
use moestream.Cache.State.{demand, is_seated, Config, ExpertCache, no_slot, idx}
use moestream.Cache.Inv.{Inv}
use moestream.Cache.Acquire.{acquire, release}
use moestream.Cache.Acquire.WellFormed.{release-Inv}
use moestream.Cache.Acquire.Served.{acquire-Served}
use moestream.Remap.Call.Release.{release-Released}

module _ {F : Type 0} where
  -- In a well-formed cache, once an expert in range has been given a slot and its reference has been released, as drop mode does
  -- without reading the weights, the next request for it is a hit on that slot.
  pub acquire_after_drop :
      (c : ExpertCache F) (e : ℕ)
      → Inv c
      → 0 < c.cfg.n_layer
      → e < c.cfg.n_expert
      → (acquire c 0 e demand).2 ≢ no_slot
      → let next = acquire (release (acquire c 0 e demand).0 0 e) 0 e demand in
        (next.1 ≡ true) × (next.2 ≡ (acquire c 0 e demand).2)
  acquire_after_drop c e v h k good =
      let s = acquire-Served c 0 e v h k demand in
      let x = (acquire c 0 e demand).0 in
      let (seated, slot, rc, low) = s.seat good in
      let free = release-Released e x in
      let place : idx x.cfg 0 e ≡ idx c.cfg 0 e = ap (λ (q : Config F). idx q 0 e) s.cfg in
      let h' : 0 < x.cfg.n_layer = omega (arith, ap (λ (q : Config F). q.n_layer) s.cfg) in
      let k' : e < x.cfg.n_expert = omega (arith, ap (λ (q : Config F). q.n_expert) s.cfg) in
      let next =
        acquire-Served (release x 0 e) 0 e (release-Inv x 0 e s.inv h' k')
          (omega (arith, ap (λ (q : Config F). q.n_layer) free.cfg))
          (omega (arith, ap (λ (q : Config F). q.n_expert) free.cfg)) demand in
      let hit =
        next.hit
        ∙ ap is_seated (free.seg e)
        ∙ subst (λ (i : ℕ). is_seated (x.ent i).seg ≡ true) (sym place) seated in
      (
        hit,
        next.hit_slot hit
            ∙ free.slot e
            ∙ subst (λ (i : ℕ). (x.ent i).slot ≡ (acquire c 0 e demand).2) (sym place) slot,
      )
