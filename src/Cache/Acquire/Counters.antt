-- ===== src/Cache/Acquire/Counters.antt =====
-- The statistics of `acquire`.
use moestream.Prelude.{
  ℕ, ◌+◌, ◌%◌, ◌^◌, ◌<◌, ◌≡◌, refl, true, ◌&&◌, elem, leb, if_intro, inc64, arith,
}
use moestream.Cache.State.{Origin, Seg, is_seated, CacheStats, ExpertCache, entry}
use moestream.Cache.Inv.{Inv}
use moestream.Cache.Acquire.{
  promote, count_hit, on_hit, count_miss, leave_ghost, was_ghost, admit, on_miss, acquire,
}
use moestream.Cache.Acquire.Cases.{missed, on_miss_cases, acquire_cases}

-- From `a` to `b` one request was counted, as a hit of one kind or as a miss.
pub record Counted (a b : CacheStats) : Type 0 where
  pub requests : (b.hit + b.miss) % 2 ^ 64 ≡ (a.hit + a.miss + 1) % 2 ^ 64
  pub kinds :
      (b.hit_pinned + b.hit_small + b.hit_main + a.hit) % 2 ^ 64
      ≡ (a.hit_pinned + a.hit_small + a.hit_main + b.hit) % 2 ^ 64

module _ {F : Type 0} where
  promote-hits :
      (layer e : ℕ) (c : ExpertCache F)
      → (promote layer e c).st ≡ record c.st { promote = (promote layer e c).st.promote }
  unfolding promote
  promote-hits layer e c =
      if_intro (λ (d : ExpertCache F). d.st ≡ record c.st { promote = d.st.promote })
        (leb 2 (entry c layer e).freq && elem e (c.lay layer).small) _ _ (λ b. refl) (λ b. refl)

  count_hit-Counted :
      (layer e : ℕ) (seg : Seg) (c : ExpertCache F) (st : CacheStats)
      → is_seated seg ≡ true
      → c.st ≡ record st { hit = inc64 st.hit }
      → Counted st (count_hit layer e seg c).st
  unfolding count_hit
  count_hit-Counted layer e Seg.none c st p q = absurd (ground arith)
  count_hit-Counted layer e Seg.pinned c st p q = record {
    requests = ground (arith, q);
    kinds = ground (arith, q);
  }
  count_hit-Counted layer e Seg.main c st p q = record {
    requests = ground (arith, q);
    kinds = ground (arith, q);
  }
  count_hit-Counted layer e Seg.small c st p q =
      let d = record c { st = record c.st { hit_small = inc64 c.st.hit_small } } in
      let same = promote-hits layer e d in
      record { requests = ground (arith, q, same); kinds = ground (arith, q, same) }

  on_hit-Counted :
      (layer e : ℕ) (c : ExpertCache F)
      → is_seated (entry c layer e).seg ≡ true
      → Counted c.st (on_hit layer e c).st
  unfolding on_hit
  on_hit-Counted layer e c s = count_hit-Counted layer e (entry c layer e).seg _ c.st s refl

  missed-st :
      (layer e : ℕ) (c : ExpertCache F)
      → (missed layer e c).st
        ≡ record c.st { miss = inc64 c.st.miss; ghost_hit = (missed layer e c).st.ghost_hit }
  unfolding count_miss leave_ghost
  missed-st layer e c =
      if_intro
        (λ (d : ExpertCache F).
          d.st ≡ record c.st { miss = inc64 c.st.miss; ghost_hit = d.st.ghost_hit })
        (was_ghost layer e (count_miss layer e c)) _ _ (λ b. refl) (λ b. refl)

  on_miss-Counted :
      (layer e : ℕ) (origin : Origin) (c : ExpertCache F)
      → Inv c
      → layer < c.cfg.n_layer
      → e < c.cfg.n_expert
      → Counted c.st (on_miss layer e origin c).0.st
  unfolding admit
  on_miss-Counted layer e origin c v h k =
      let m = missed-st layer e c in
      on_miss_cases (λ r. Counted c.st r.0.st) layer e origin c v h k
        (λ b. record { requests = ground (arith, m); kinds = ground (arith, m) })
        (λ d b l. record {
          requests = ground (arith, m, l.tallies);
          kinds = ground (arith, m, l.tallies);
        })
        (λ d rest s b l f. record {
          requests = ground (arith, m, l.tallies);
          kinds = ground (arith, m, l.tallies);
        })

  -- A request for an expert in range of a well-formed cache adds one to hits plus misses, and a hit
  -- adds one to the hits of one kind.
  pub acquire-Counted :
      (c : ExpertCache F) (layer e : ℕ) (origin : Origin)
      → Inv c
      → layer < c.cfg.n_layer
      → e < c.cfg.n_expert
      → Counted c.st (acquire c layer e origin).0.st
  acquire-Counted c layer e origin v h k =
      acquire_cases (λ r. Counted c.st r.0.st) layer e origin c (on_hit-Counted layer e c)
        (λ s. on_miss-Counted layer e origin c v h k)
