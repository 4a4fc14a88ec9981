-- ===== src/Finalize/Start/Laws.antt =====
-- What holds after the start of the path of the experts.
use mathlib.Core.Option.{some-injective, none-ne-some}
use moestream.Prelude.{
  ℕ, zero, suc, ◌≤◌, ◌<◌, ◌≡◌, ◌⊎◌, inl, inr, Bool-cases, refl, sym, ap, subst, true, false, not,
  ◌||◌, Option, none, some, List, [], ◌∷◌, length, if_intro, sum_below-zero, arith,
}
use moestream.Prelude.Int.{ℤ, pos, negsuc, ltb_ℤ}
use moestream.Cache.Doubles.{Doubles}
use moestream.Cache.State.{ExpertCache, no_slot}
use moestream.Cache.Inv.{Inv}
use moestream.Cache.Create.{slot_count}
use moestream.Cache.Create.WellFormed.{create-Inv}
use moestream.Loader.Map.{same_key, lookup}
use moestream.Loader.Tables.{LayerSlabs}
use moestream.Prefill.Load.{Model}
use moestream.Prefill.Graph.Laws.{Good}
use moestream.Remap.Mrc.{Mrc}
use moestream.Remap.Mrc.Laws.{Balanced}
use moestream.Finalize.Shards.{Fd, check_shards}
use moestream.Finalize.Zero.Laws.{Bounded, AllBounded}
use moestream.Finalize.Arena.Setup.{setup_prefill-Good}
use moestream.Finalize.Start.{
  Runtime, Given, n_layers, n_experts, max_of, max_bytes, arenas_asked, start_mrc, copies, is_empty,
  layer_config, make_caches, set_prefill, with_shards, finalize,
}

abbrev pub AllInv : {F : Type 0} → List (ExpertCache F) → Type 0
AllInv [] = Unit {0}
AllInv (c ∷ cs) = Inv c × AllInv cs

AllInv-copies : {F : Type 0} (n : ℕ) (c : ExpertCache F) → Inv c → AllInv (copies n c)
AllInv-copies zero c h = tt
AllInv-copies (suc n) c h = (h, AllInv-copies n c h)

length-copies : {A : Type 0} (n : ℕ) (x : A) → length (copies n x) ≡ n
length-copies zero x = refl
length-copies (suc n) x = omega (arith, length-copies n x)

module _ (D : Doubles) (g : Given D.Double) (layers : List (ℤ × LayerSlabs)) where
  slot_count_lem : 0 < g.slots → slot_count D (layer_config D g layers) ≡ g.slots
  unfolding slot_count
  slot_count_lem some_slot = ground (arith, some_slot)

  pub make_caches-AllInv :
      0 < g.slots
      → g.slots < no_slot
      → AllInv (make_caches D g layers) × (length (make_caches D g layers) ≡ n_layers layers)
  unfolding make_caches
  make_caches-AllInv some_slot few = (
    AllInv-copies (n_layers layers) _ (
        create-Inv D (layer_config D g layers)
          (record { layers = omega arith; table_fits = omega arith })
          (omega (arith, slot_count_lem some_slot, few))),
    length-copies (n_layers layers) _,
  )

start_mrc-Balanced :
    (layers experts : ℕ) (m : Mrc)
    → m.total ≡ 0
    → m.cold ≡ 0
    → (start_mrc layers experts m).on ≡ true
    → Balanced (start_mrc layers experts m)
start_mrc-Balanced layers experts m none_total none_cold =
    if_intro (λ (t : Mrc). t.on ≡ true → Balanced t) (not m.on) _ _
      (λ off on. absurd (ground (arith, off, on)))
      (λ here on. record {
        sums = omega (arith, none_total, none_cold, sum_below-zero experts (λ r. 0) (λ r. refl));
      })

max_bytes-above : (most : ℕ) (layers : List (ℤ × LayerSlabs)) → most ≤ max_bytes most layers
unfolding max_bytes
max_bytes-above most [] = omega arith
max_bytes-above most ((il, l) ∷ layers) =
    let top =
      max_of (max_of (max_of most l.gate.expert_bytes) l.up.expert_bytes) l.down.expert_bytes in
    let h = max_bytes-above top layers in ground (arith, h)

max_bytes-Bounded :
    (most : ℕ) (layers : List (ℤ × LayerSlabs)) (il : ℤ) (l : LayerSlabs)
    → lookup il layers ≡ some l
    → Bounded (max_bytes most layers) l
unfolding max_bytes lookup
max_bytes-Bounded most [] il l q = absurd (none-ne-some l q)
max_bytes-Bounded most ((k, x) ∷ layers) il l q =
    let top =
      max_of (max_of (max_of most x.gate.expert_bytes) x.up.expert_bytes) x.down.expert_bytes in
    let h = max_bytes-above top layers in
    if_intro (λ (o : Option LayerSlabs). o ≡ some l → Bounded (max_bytes top layers) l)
      (same_key k il) _ _
      (λ s p.
        subst (Bounded (max_bytes top layers)) (some-injective x l p)
          (ground (arith, h), ground (arith, h), ground (arith, h)))
      (λ s p. max_bytes-Bounded top layers il l p) q

pub max_bytes-AllBounded :
    (most : ℕ) (layers : List (ℤ × LayerSlabs)) → AllBounded (max_bytes most layers) layers
unfolding max_bytes
max_bytes-AllBounded most [] = tt
max_bytes-AllBounded most ((il, l) ∷ layers) =
    let top =
      max_of (max_of (max_of most l.gate.expert_bytes) l.up.expert_bytes) l.down.expert_bytes in
    let h = max_bytes-above top layers in
    ((ground (arith, h), ground (arith, h), ground (arith, h)), max_bytes-AllBounded top layers)

module _ (D : Doubles) {W : Type 0} (M : Model W) (g : Given D.Double)
    (layers : List (ℤ × LayerSlabs)) where
  -- Nothing has been started.
  abbrev pub Fresh : Runtime D.Double W → Type 0
  Fresh r =
      (r.enabled ≡ true)
      × (r.caches ≡ [])
      × (r.prefill.pf_ready ≡ false)
      × (r.prefill.pf_thread ≡ none)
      × (0 < r.prefill.pf_nbuf)
      × (r.mrc.total ≡ 0)
      × (r.mrc.cold ≡ 0)

  abbrev pub Started : Runtime D.Double W → Type 0
  Started t =
      (check_shards layers g.shards ≡ some t.fds)
      × AllInv t.caches
      × (length t.caches ≡ n_layers layers)
      × (t.prefill.pf_ready ≡ true → Good D M t.prefill)
      × (t.mrc.on ≡ true → Balanced t.mrc)
      × ((il : ℤ) (l : LayerSlabs) → lookup il layers ≡ some l → Bounded t.maxb l)

  -- Without layers of experts.
  abbrev pub DenseOnly : Runtime D.Double W → Type 0
  DenseOnly t = (is_empty layers ≡ true) × (g.dn_ready ≡ true) × (t.caches ≡ [])

  finalize-DenseOnly :
      (r : Runtime D.Double W)
      → r.enabled ≡ true
      → r.caches ≡ []
      → is_empty layers ≡ true
      → (finalize D g layers r).enabled ≡ true
      → DenseOnly (finalize D g layers r)
  unfolding finalize
  finalize-DenseOnly r on no_cache none_given =
      let none_yet = ap is_empty no_cache in
      if_intro P (not r.enabled || not (is_empty r.caches)) _ _
        (λ b. absurd (ground (arith, on, none_yet, b)))
        (λ b.
          if_intro P (is_empty layers) _ _ (λ c live. (none_given, live, no_cache))
            (λ c. absurd (ground (arith, none_given, c))))
    where
      P : Runtime D.Double W → Type 0
      P t = t.enabled ≡ true → DenseOnly t

  abbrev pub with_caches : Runtime D.Double W → Runtime D.Double W
  with_caches r = record r { caches = make_caches D g layers }

  pub finalize-runs :
      (r : Runtime D.Double W)
      → r.enabled ≡ true
      → r.caches ≡ []
      → is_empty layers ≡ false
      → finalize D g layers r
        ≡ with_shards D g layers (check_shards layers g.shards) (with_caches r)
  unfolding finalize
  finalize-runs r on no_cache some_layer =
      let none_yet = ap is_empty no_cache in
      if_intro P (not r.enabled || not (is_empty r.caches)) _ _
        (λ b. absurd (ground (arith, on, none_yet, b)))
        (λ b.
          if_intro P (is_empty layers) _ _ (λ c. absurd (ground (arith, some_layer, c)))
            (λ c. refl))
    where
      P : Runtime D.Double W → Type 0
      P t = t ≡ with_shards D g layers (check_shards layers g.shards) (with_caches r)

  arenas_asked_some : (n : ℕ) (o : Option ℤ) → 0 < n → 0 < arenas_asked n o
  arenas_asked_some n none h = h
  arenas_asked_some n (some (pos k)) h =
      if_intro (λ (m : ℕ). 0 < m) (ltb_ℤ (pos 1) (pos k)) _ _ (λ b. ground (arith, b))
        (λ b. omega arith)
  arenas_asked_some n (some (negsuc k)) h =
      if_intro (λ (m : ℕ). 0 < m) (ltb_ℤ (pos 1) (negsuc k)) _ _ (λ b. absurd (ground (arith, b)))
        (λ b. omega arith)

  with_shards-Started :
      (r : Runtime D.Double W) (o : Option (List Fd))
      → Fresh r
      → 0 < g.slots
      → g.slots < no_slot
      → check_shards layers g.shards ≡ o
      → (with_shards D g layers o (with_caches r)).enabled ≡ true
      → Started (with_shards D g layers o (with_caches r))
  with_shards-Started r none fresh some_slot few q on = absurd (ground arith)
  with_shards-Started r (some fds) (on, none_cache, off, idle, nbuf, total, cold) some_slot few q
        stays =
      let (inv, many) = make_caches-AllInv D g layers some_slot few in
      (
        q,
        inv,
        many,
        setup_prefill-Good D M g.host layers (n_layers layers) (set_prefill D g layers r.prefill)
            off idle (arenas_asked_some r.prefill.pf_nbuf g.prefill_bufs nbuf),
        start_mrc-Balanced (n_layers layers) (n_experts layers) r.mrc total cold,
        λ il l here. max_bytes-Bounded 0 layers il l here,
      )

-- The start from a fresh state, with between one slot and as many as a cache may have, that leaves
-- the runtime on: either there are no layers of experts, the dense path is live, and no cache was
-- made; or all shards are open and passed the checks, there is one well-formed
-- cache for each layer number, the prefill path is good if it is on, the statistics are balanced if
-- they are on, and no member's experts are larger than the staging size.
pub finalize-Started :
    (D : Doubles) {W : Type 0} (M : Model W) (g : Given D.Double) (layers : List (ℤ × LayerSlabs))
    (r : Runtime D.Double W)
    → Fresh D M g layers r
    → 0 < g.slots
    → g.slots < no_slot
    → (finalize D g layers r).enabled ≡ true
    → DenseOnly D M g layers (finalize D g layers r) ⊎ Started D M g layers (finalize D g layers r)
finalize-Started D M g layers r fresh some_slot few stays = elim (Bool-cases (is_empty layers)) [
  | inl none_given ↦ inl (finalize-DenseOnly D M g layers r fresh.0 fresh.1 none_given stays)
  | inr some_layer ↦ inr (
      subst (λ (t : Runtime D.Double _). t.enabled ≡ true → Started D M g layers t)
        (sym (finalize-runs D M g layers r fresh.0 fresh.1 some_layer))
        (with_shards-Started D M g layers r (check_shards layers g.shards) fresh some_slot few refl)
        stays)
]
