-- ===== src/Cache/History/Laws.antt =====
-- What holds after any history of calls in range.
use moestream.Prelude.{
  ◌∙◌, ℕ, ◌+◌, ◌%◌, ◌^◌, ◌<◌, ◌≡◌, refl, sym, subst, List, [], ◌∷◌, if_intro, arith, ltb, ◌&&◌,
  ◌==◌, inc32,
}
use moestream.Cache.Doubles.{Doubles}
use moestream.Cache.State.{Config, CacheStats, ExpertCache, no_slot, entry}
use moestream.Cache.Inv.{Inv, IsConfig}
use moestream.Cache.Create.{create, slot_count}
use moestream.Cache.Create.WellFormed.{create-Inv}
use moestream.Cache.Acquire.{mark_resident, release}
use moestream.Cache.Acquire.WellFormed.{mark_resident-Inv, release-Inv}
use moestream.Cache.Acquire.Served.{acquire-Served}
use moestream.Cache.Acquire.Counters.{acquire-Counted}
use moestream.Cache.Quota.{end_step, mean_hits}
use moestream.Cache.Quota.Laws.{end_step-Inv}
use moestream.Cache.History.{Call, acquires, marks, releases, ends_step, call, run, requests}

module _ {F : Type 0} (cfg : Config F) where
  abbrev pub InRange : Call → Type 0
  InRange (acquires layer e origin) = (layer < cfg.n_layer) × (e < cfg.n_expert)
  InRange (marks layer e nbytes) = (layer < cfg.n_layer) × (e < cfg.n_expert)
  InRange (releases layer e) = (layer < cfg.n_layer) × (e < cfg.n_expert)
  InRange ends_step = Unit {0}

  abbrev pub AllInRange : List Call → Type 0
  AllInRange [] = Unit {0}
  AllInRange (x ∷ xs) = InRange x × AllInRange xs

-- The counters that a request moves.
abbrev pub SameHits : CacheStats → CacheStats → Type 0
SameHits a b =
    (b.hit ≡ a.hit)
    × (b.miss ≡ a.miss)
    × (b.hit_pinned ≡ a.hit_pinned)
    × (b.hit_small ≡ a.hit_small)
    × (b.hit_main ≡ a.hit_main)

module _ (D : Doubles) where
  open D use {Double, le, from_nat}

  mark_resident-keeps :
      (c : ExpertCache Double) (layer e nbytes : ℕ)
      → ((mark_resident c layer e nbytes).cfg ≡ c.cfg)
        × SameHits c.st (mark_resident c layer e nbytes).st
  unfolding mark_resident
  mark_resident-keeps c layer e nbytes =
      if_intro (λ (d : ExpertCache Double). (d.cfg ≡ c.cfg) × SameHits c.st d.st)
        (entry c layer e).resident _ _ (λ b. (refl, (refl, refl, refl, refl, refl)))
        (λ b. (refl, (refl, refl, refl, refl, refl)))

  release-keeps :
      (c : ExpertCache Double) (layer e : ℕ)
      → ((release c layer e).cfg ≡ c.cfg) × SameHits c.st (release c layer e).st
  unfolding release
  release-keeps c layer e =
      if_intro (λ (d : ExpertCache Double). (d.cfg ≡ c.cfg) × SameHits c.st d.st)
        (ltb 0 (entry c layer e).rc) _ _ (λ b. (refl, (refl, refl, refl, refl, refl)))
        (λ b. (refl, (refl, refl, refl, refl, refl)))

  abbrev KeepsHits : ExpertCache Double → ExpertCache Double → Type 0
  KeepsHits c d = (d.cfg ≡ c.cfg) × SameHits c.st d.st

  end_step-keeps : (c : ExpertCache Double) → KeepsHits c (end_step D c)
  unfolding end_step
  end_step-keeps c =
      if_intro (KeepsHits c) (c.cfg.layer_quota_adapt && inc32 c.step % c.cfg.quota_period == 0) _ _
        (λ b.
          if_intro (KeepsHits c) (le (mean_hits D (record c { step = inc32 c.step })) (from_nat 0))
            _ _ (λ a. (refl, (refl, refl, refl, refl, refl)))
            (λ a. (refl, (refl, refl, refl, refl, refl))))
        (λ b. (refl, (refl, refl, refl, refl, refl)))

  -- One call in range keeps the cache well formed and its configuration.
  pub call-Inv :
      (c : ExpertCache Double) (x : Call)
      → Inv c
      → InRange c.cfg x
      → Inv (call D c x) × ((call D c x).cfg ≡ c.cfg)
  unfolding call
  call-Inv c (acquires layer e origin) v h =
      let s = acquire-Served c layer e v h.0 h.1 origin in (s.inv, s.cfg)
  call-Inv c (marks layer e nbytes) v h =
      (mark_resident-Inv c layer e v h.0 h.1 nbytes, (mark_resident-keeps c layer e nbytes).0)
  call-Inv c (releases layer e) v h = (release-Inv c layer e v h.0 h.1, (release-keeps c layer e).0)
  call-Inv c ends_step v h = (end_step-Inv D c v, (end_step-keeps c).0)

  run-Inv :
      (c : ExpertCache Double) (xs : List Call) → Inv c → AllInRange c.cfg xs → Inv (run D c xs)
  unfolding run
  run-Inv c [] v h = v
  run-Inv c (x ∷ xs) v h =
      let (w, same) = call-Inv c x v h.0 in
      run-Inv (call D c x) xs w (subst (λ q. AllInRange q xs) (sym same) h.1)

  pub run-cfg :
      (c : ExpertCache Double) (xs : List Call)
      → Inv c
      → AllInRange c.cfg xs
      → (run D c xs).cfg ≡ c.cfg
  unfolding run
  run-cfg c [] v h = refl
  run-cfg c (x ∷ xs) v h =
      let (w, same) = call-Inv c x v h.0 in
      run-cfg (call D c x) xs w (subst (λ q. AllInRange q xs) (sym same) h.1) ∙ same

  -- After any calls in range on a new cache, whose configuration is as for `create-Inv`, the cache
  -- is well formed.
  pub run-create-Inv :
      (cfg : Config Double) (xs : List Call)
      → IsConfig cfg
      → slot_count D cfg < no_slot
      → AllInRange cfg xs
      → Inv (run D (create D cfg) xs)
  unfolding create
  run-create-Inv cfg xs ok fits h = run-Inv (create D cfg) xs (create-Inv D cfg ok fits) h

  -- From `a` to `b`, `n` requests were counted.
  record Tallied (n : ℕ) (a b : CacheStats) : Type 0 where
    asked : (b.hit + b.miss) % 2 ^ 64 ≡ (a.hit + a.miss + n) % 2 ^ 64
    kinds :
        (b.hit_pinned + b.hit_small + b.hit_main + a.hit) % 2 ^ 64
        ≡ (a.hit_pinned + a.hit_small + a.hit_main + b.hit) % 2 ^ 64

  SameHits-Tallied : (a b : CacheStats) → SameHits a b → Tallied 0 a b
  SameHits-Tallied a b h = record { asked = ground (arith, h); kinds = ground (arith, h) }

  Tallied-trans :
      (m n k : ℕ) (a b c : CacheStats) → Tallied m a b → Tallied n b c → m + n ≡ k → Tallied k a c
  Tallied-trans m n k a b c f g e = record {
    asked = omega (arith, f.asked, g.asked);
    kinds = omega (arith, f.kinds, g.kinds);
  }

  call-Tallied :
      (c : ExpertCache Double) (x : Call)
      → Inv c
      → InRange c.cfg x
      → Tallied (requests (x ∷ [])) c.st (call D c x).st
  unfolding call
  call-Tallied c (acquires layer e origin) v h =
      let s = acquire-Counted c layer e origin v h.0 h.1 in
      record { asked = s.requests; kinds = s.kinds }
  call-Tallied c (marks layer e nbytes) v h =
      SameHits-Tallied c.st _ (mark_resident-keeps c layer e nbytes).1
  call-Tallied c (releases layer e) v h = SameHits-Tallied c.st _ (release-keeps c layer e).1
  call-Tallied c ends_step v h = SameHits-Tallied c.st _ (end_step-keeps c).1

  requests-cons : (x : Call) (xs : List Call) → requests (x ∷ []) + requests xs ≡ requests (x ∷ xs)
  requests-cons (acquires layer e origin) xs = omega arith
  requests-cons (marks layer e nbytes) xs = omega arith
  requests-cons (releases layer e) xs = omega arith
  requests-cons ends_step xs = omega arith

  run-Tallied :
      (c : ExpertCache Double) (xs : List Call)
      → Inv c
      → AllInRange c.cfg xs
      → Tallied (requests xs) c.st (run D c xs).st
  unfolding run
  run-Tallied c [] v h = SameHits-Tallied c.st c.st (refl, refl, refl, refl, refl)
  run-Tallied c (x ∷ xs) v h =
      let (w, same) = call-Inv c x v h.0 in
      Tallied-trans _ (requests xs) _ c.st (call D c x).st _ (call-Tallied c x v h.0)
        (run-Tallied (call D c x) xs w (subst (λ q. AllInRange q xs) (sym same) h.1))
        (requests-cons x xs)

  -- After any calls in range on a new cache, whose configuration is as for `create-Inv`, hits and misses add up to the requests, and the hits
  -- of the three kinds to the hits, in 64 bits.
  pub run-create-counts :
      (cfg : Config Double) (xs : List Call)
      → IsConfig cfg
      → slot_count D cfg < no_slot
      → AllInRange cfg xs
      → let st = (run D (create D cfg) xs).st in
        ((st.hit + st.miss) % 2 ^ 64 ≡ requests xs % 2 ^ 64)
        × ((st.hit_pinned + st.hit_small + st.hit_main) % 2 ^ 64 ≡ st.hit % 2 ^ 64)
  unfolding create
  run-create-counts cfg xs ok fits h =
      let t = run-Tallied (create D cfg) xs (create-Inv D cfg ok fits) h in
      (omega (arith, t.asked), omega (arith, t.kinds))
