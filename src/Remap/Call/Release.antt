-- ===== src/Remap/Call/Release.antt =====
-- The release of the references that the passes of a layer hold.
use moestream.Prelude.{
  ℕ, zero, suc, ◌+◌, ◌-◌, ◌*◌, ◌≤◌, ◌<◌, ◌≡◌, ◌≢◌, refl, sym, ap, ◌∙◌, List, [], ◌∷◌, count, ltb,
  ◌==◌, if◌then◌else◌, if_intro, update, update_at, update_ne, sum_below, arith,
}
use native.Mathlib.Decide.{ℕ_discrete, dec_lt}
use moestream.Cache.State.{Entry, Config, ExpertCache, idx, entry, set_entry}
use moestream.Cache.Inv.{Inv}
use moestream.Cache.Acquire.{release}
use moestream.Cache.Acquire.WellFormed.{release-Inv}
use moestream.Remap.Call.{Globals, release_all, release_passes}

module _ {F : Type 0} where
  -- `d` is `c` but for the references, of which expert `f` of the layer has lost `less f`.
  pub record Released (less : ℕ → ℕ) (c d : ExpertCache F) : Type 0 where
    pub cfg : d.cfg ≡ c.cfg
    pub n_slot : d.n_slot ≡ c.n_slot
    pub slot : (f : ℕ) → (entry d 0 f).slot ≡ (entry c 0 f).slot
    pub seg : (f : ℕ) → (entry d 0 f).seg ≡ (entry c 0 f).seg
    pub rc : (f : ℕ) → (entry d 0 f).rc ≡ (entry c 0 f).rc - less f

  -- Replacing the references of one entry.
  set_rc-Released :
      (e : ℕ) (c : ExpertCache F) (n : ℕ)
      → n ≡ (entry c 0 e).rc - 1
      → Released
          (λ f. if e == f then 1 else 0)
          c
          (set_entry c (idx c.cfg 0 e) (record (entry c 0 e) { rc = n }))
  set_rc-Released e c n h =
      let new = record (entry c 0 e) { rc = n } in
      let at : (f : ℕ) → f ≡ e → update c.ent (idx c.cfg 0 e) new (idx c.cfg 0 f) ≡ new =
        λ f p. update_at c.ent _ _ new (ap (λ (i : ℕ). idx c.cfg 0 i) p) in
      let off : (f : ℕ) → f ≢ e → update c.ent (idx c.cfg 0 e) new (idx c.cfg 0 f) ≡ entry c 0 f =
        λ f p. update_ne c.ent _ _ new (λ q. p (omega arith)) in
      record {
        cfg = refl;
        n_slot = refl;
        slot = λ f. elim (ℕ_discrete f e) [
          | yes p ↦
              ap (λ (en : Entry). en.slot) (at f p) ∙ ap (λ (i : ℕ). (entry c 0 i).slot) (sym p)
          | no p ↦ ap (λ (en : Entry). en.slot) (off f p)
        ];
        seg = λ f. elim (ℕ_discrete f e) [
          | yes p ↦ ap (λ (en : Entry). en.seg) (at f p) ∙ ap (λ (i : ℕ). (entry c 0 i).seg) (sym p)
          | no p ↦ ap (λ (en : Entry). en.seg) (off f p)
        ];
        rc = λ f. elim (ℕ_discrete f e) [
          | yes p ↦
              ground (
                arith,
                ap (λ (en : Entry). en.rc) (at f p),
                ap (λ (i : ℕ). (entry c 0 i).rc) (sym p),
              )
          | no p ↦ ground (arith, ap (λ (en : Entry). en.rc) (off f p))
        ];
      }

  pub release-Released :
      (e : ℕ) (c : ExpertCache F) → Released (λ f. if e == f then 1 else 0) c (release c 0 e)
  unfolding release
  release-Released e c =
      if_intro (Released (λ f. if e == f then 1 else 0) c) (ltb 0 (entry c 0 e).rc) _ _
        (λ b. set_rc-Released e c _ refl)
        (λ b. record {
          cfg = refl;
          n_slot = refl;
          slot = λ f. refl;
          seg = λ f. refl;
          rc = λ f. elim (ℕ_discrete f e) [
            | yes p ↦ ground (arith, ap (λ (i : ℕ). (entry c 0 i).rc) (sym p))
            | no p ↦ ground arith
          ];
        })

  release_all-Released :
      (es : List ℕ) (c : ExpertCache F) → Released (λ f. count f es) c (release_all es c)
  unfolding release_all
  release_all-Released [] c = record {
    cfg = refl;
    n_slot = refl;
    slot = λ f. refl;
    seg = λ f. refl;
    rc = λ f. omega arith;
  }
  release_all-Released (e ∷ es) c =
      let one = release-Released e c in
      let rest = release_all-Released es (release c 0 e) in
      record {
        cfg = rest.cfg ∙ one.cfg;
        n_slot = rest.n_slot ∙ one.n_slot;
        slot = λ f. rest.slot f ∙ one.slot f;
        seg = λ f. rest.seg f ∙ one.seg f;
        rc = λ f. ground (arith, rest.rc f, one.rc f);
      }

  release_all-Inv :
      (n : ℕ) (es : List ℕ) (c : ExpertCache F)
      → Inv c
      → 0 < c.cfg.n_layer
      → c.cfg.n_expert ≡ n
      → ((e : ℕ) → n ≤ e → count e es ≡ 0)
      → Inv (release_all es c)
  unfolding release_all
  release_all-Inv n [] c v h k b = v
  release_all-Inv n (e ∷ es) c v h k b =
      let one = release-Released e c in
      let low : e < c.cfg.n_expert = elim (dec_lt e n) [
        | yes p ↦ omega arith
        | no p ↦ absurd (ground (arith, b e (omega arith)))
      ] in
      release_all-Inv n es (release c 0 e) (release-Inv c 0 e v h low)
        (omega (arith, ap (λ (q : Config F). q.n_layer) one.cfg))
        (ap (λ (q : Config F). q.n_expert) one.cfg ∙ k) (λ f l. ground (arith, b f l))

  -- Between two calls for layer `il`, the cache of the layer is well formed and the references
  -- are those that its eight passes hold.
  pub record Ready (il n : ℕ) (g : Globals F) : Type 0 where
    pub inv : Inv g.cache
    pub one : g.cache.cfg.n_layer ≡ 1
    pub experts : g.cache.cfg.n_expert ≡ n
    pub refs :
        (e : ℕ) → e < n → (entry g.cache 0 e).rc ≡ sum_below 8 (λ q. count e (g.held (il * 8 + q)))
    pub none_else : (e q : ℕ) → n ≤ e → q < 8 → count e (g.held (il * 8 + q)) ≡ 0

  pub release_passes-Released :
      (il n : ℕ) (g : Globals F) (m : ℕ)
      → Ready il n g
      → m ≤ 8
      → Inv (release_passes il m g.held g.cache)
        × Released
            (λ f. sum_below m (λ q. count f (g.held (il * 8 + q))))
            g.cache
            (release_passes il m g.held g.cache)
  unfolding release_passes sum_below
  release_passes-Released il n g zero r h = (
    r.inv,
    record { cfg = refl; n_slot = refl; slot = λ f. refl; seg = λ f. refl; rc = λ f. omega arith },
  )
  release_passes-Released il n g (suc q) r h =
      let (v, before) = release_passes-Released il n g q r (omega arith) in
      let es = g.held (il * 8 + q) in
      let rest = release_all-Released es (release_passes il q g.held g.cache) in
      (
        release_all-Inv n es _ v (omega (arith, r.one, ap (λ (p : Config F). p.n_layer) before.cfg))
            (ap (λ (p : Config F). p.n_expert) before.cfg ∙ r.experts)
            (λ e l. r.none_else e q l (omega arith)),
        record {
          cfg = rest.cfg ∙ before.cfg;
          n_slot = rest.n_slot ∙ before.n_slot;
          slot = λ f. rest.slot f ∙ before.slot f;
          seg = λ f. rest.seg f ∙ before.seg f;
          rc = λ f. omega (arith, rest.rc f, before.rc f);
        },
      )
