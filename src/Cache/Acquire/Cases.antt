-- ===== src/Cache/Acquire/Cases.antt =====
-- The ways through `acquire`, as rules: to prove a property of its result, prove it of each.
use moestream.Prelude.{
  ℕ, ◌<◌, ◌≡◌, refl, sym, ap, subst, Bool, true, false, List, ◌∷◌, update, count, ◌==◌, if_intro,
  inc64, arith,
}
use moestream.Cache.State.{is_seated, Origin, ExpertCache, Config, no_slot, idx, entry}
use moestream.Cache.Inv.{Inv}
use moestream.Cache.Alloc.Outcome.{Keeps, AllocOutcome, got, refused, alloc_slot-Outcome}
use moestream.Cache.Acquire.{
  count_miss, was_ghost, leave_ghost, admit, settle, on_miss, on_hit, acquire, is_sweep,
}
use moestream.Cache.Acquire.WellFormed.{count_miss-Inv, leave_ghost-Inv}

module _ {F : Type 0} where
  -- What lies on the free stack is a slot of the cache.
  pub free-lt :
      (d : ExpertCache F) (s : ℕ) (rest : List ℕ) → Inv d → d.free ≡ s ∷ rest → s < d.n_slot
  free-lt d s rest v f = ground (arith, v.owned s, ap (count s) f)

  settle_cases {κ} :
      (P : ExpertCache F × Bool × ℕ → Type κ) (layer e : ℕ) (origin : Origin) (ghost : Bool)
      (c : ExpertCache F) (r : ExpertCache F × ℕ)
      → AllocOutcome c r
      → ((d : ExpertCache F) → Keeps c d → P (d, false, no_slot))
      → ((d : ExpertCache F) (rest : List ℕ) (s : ℕ)
          → Keeps c d
          → d.free ≡ s ∷ rest
          → P (admit layer e origin ghost s (record d { free = rest }), false, s))
      → P (settle layer e origin ghost r)
  unfolding settle
  settle_cases P layer e origin ghost c r (refused k p) no_seat seat =
      if_intro P (r.1 == no_slot) _ _ (λ b. no_seat r.0 k) (λ b. absurd (ground arith))
  settle_cases P layer e origin ghost c r (got d rest k f p) no_seat seat =
      if_intro P (r.1 == no_slot) _ _
        (λ b. absurd (ground (arith, free-lt d r.1 rest k.inv f, k.inv.slots)))
        (λ b.
          subst (λ m. P (admit layer e origin ghost r.1 m, false, r.1)) (sym p)
            (seat d rest r.1 k f))

  -- The state in which a miss asks for a slot.
  abbrev pub missed : ℕ → ℕ → ExpertCache F → ExpertCache F
  missed layer e c = leave_ghost layer e (count_miss layer e c)

  abbrev pub ghost_of : ℕ → ℕ → ExpertCache F → Bool
  ghost_of layer e c = was_ghost layer e (count_miss layer e c)

  pub missed-Inv :
      (layer e : ℕ) (c : ExpertCache F)
      → Inv c
      → layer < c.cfg.n_layer
      → e < c.cfg.n_expert
      → Inv (missed layer e c)
  unfolding count_miss
  missed-Inv layer e c v h k = leave_ghost-Inv _ layer e (count_miss-Inv c layer e v h k) h k

  -- A miss so far changed the last use and the frequency of the expert itself.
  pub missed-ent :
      (layer e : ℕ) (c : ExpertCache F)
      → (missed layer e c).ent
        ≡ update c.ent (idx c.cfg layer e) (record (entry c layer e) { last = c.step; freq = 1 })
  unfolding count_miss leave_ghost
  missed-ent layer e c =
      if_intro (λ (d : ExpertCache F). d.ent ≡ (count_miss layer e c).ent)
        (was_ghost layer e (count_miss layer e c)) _ _ (λ b. refl) (λ b. refl)

  pub missed-cfg : (layer e : ℕ) (c : ExpertCache F) → (missed layer e c).cfg ≡ c.cfg
  unfolding count_miss leave_ghost
  missed-cfg layer e c =
      if_intro (λ (d : ExpertCache F). d.cfg ≡ c.cfg) (was_ghost layer e (count_miss layer e c)) _ _
        (λ b. refl) (λ b. refl)

  pub missed-n_slot : (layer e : ℕ) (c : ExpertCache F) → (missed layer e c).n_slot ≡ c.n_slot
  unfolding count_miss leave_ghost
  missed-n_slot layer e c =
      if_intro (λ (d : ExpertCache F). d.n_slot ≡ c.n_slot)
        (was_ghost layer e (count_miss layer e c)) _ _ (λ b. refl) (λ b. refl)

  pub missed-quota : (layer e : ℕ) (c : ExpertCache F) → (missed layer e c).quota ≡ c.quota
  unfolding count_miss leave_ghost
  missed-quota layer e c =
      if_intro (λ (d : ExpertCache F). d.quota ≡ c.quota) (was_ghost layer e (count_miss layer e c))
        _ _ (λ b. refl) (λ b. refl)

  pub on_miss_cases {κ} :
      (P : ExpertCache F × Bool × ℕ → Type κ) (layer e : ℕ) (origin : Origin) (c : ExpertCache F)
      → Inv c
      → layer < c.cfg.n_layer
      → e < c.cfg.n_expert
      → (is_sweep origin ≡ true
          → let c2 = missed layer e c in
            P (record c2 { st = record c2.st { bypass = inc64 c2.st.bypass } }, false, no_slot))
      → ((d : ExpertCache F)
          → is_sweep origin ≡ false
          → Keeps (missed layer e c) d
          → P (d, false, no_slot))
      → ((d : ExpertCache F) (rest : List ℕ) (s : ℕ)
          → is_sweep origin ≡ false
          → Keeps (missed layer e c) d
          → d.free ≡ s ∷ rest
          → P (admit layer e origin (ghost_of layer e c) s (record d { free = rest }), false, s))
      → P (on_miss layer e origin c)
  unfolding on_miss
  on_miss_cases P layer e origin c v h k swept no_seat seat =
      let w = missed-Inv layer e c v h k in
      if_intro P (is_sweep origin) _ _ swept (λ b.
        settle_cases P layer e origin (ghost_of layer e c) (missed layer e c) _
          (alloc_slot-Outcome layer (missed layer e c) w
            (omega (arith, ap (λ (q : Config F). q.n_layer) (missed-cfg layer e c))))
          (λ d l. no_seat d b l) (λ d rest s l f. seat d rest s b l f))

  pub acquire_cases {κ} :
      (P : ExpertCache F × Bool × ℕ → Type κ) (layer e : ℕ) (origin : Origin) (c : ExpertCache F)
      → (is_seated (entry c layer e).seg ≡ true
          → P (on_hit layer e c, true, (entry c layer e).slot))
      → (is_seated (entry c layer e).seg ≡ false → P (on_miss layer e origin c))
      → P (acquire c layer e origin)
  unfolding acquire
  acquire_cases P layer e origin c hit miss =
      if_intro P (is_seated (entry c layer e).seg) _ _ hit miss
