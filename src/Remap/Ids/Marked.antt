-- ===== src/Remap/Ids/Marked.antt =====
-- Marking an expert resident leaves its slot, its segment and its references alone.
use moestream.Prelude.{
  ℕ, ◌<◌, ◌≡◌, ◌≢◌, refl, sym, ap, ◌∙◌, subst, Bool, true, update_at, update_ne, if_intro, arith,
}
use moestream.Cache.State.{is_seated, Entry, Config, ExpertCache, idx, entry}
use moestream.Cache.Acquire.{mark_resident}
use moestream.Cache.Acquire.WellFormed.{mark_resident-Inv}
use moestream.Cache.Acquire.Served.{Served}

module _ {F : Type 0} where
  record Marked (layer e : ℕ) (c d : ExpertCache F) : Type 0 where
    cfg : d.cfg ≡ c.cfg
    n_slot : d.n_slot ≡ c.n_slot
    quota : d.quota ≡ c.quota
    others : (j : ℕ) → j ≢ idx c.cfg layer e → d.ent j ≡ c.ent j
    slot : (d.ent (idx c.cfg layer e)).slot ≡ (c.ent (idx c.cfg layer e)).slot
    seg : (d.ent (idx c.cfg layer e)).seg ≡ (c.ent (idx c.cfg layer e)).seg
    rc : (d.ent (idx c.cfg layer e)).rc ≡ (c.ent (idx c.cfg layer e)).rc

  mark_resident-Marked :
      (layer e n : ℕ) (c : ExpertCache F) → Marked layer e c (mark_resident c layer e n)
  unfolding mark_resident
  mark_resident-Marked layer e n c =
      if_intro (λ d. Marked layer e c d) (entry c layer e).resident _ _
        (λ b. record {
          cfg = refl;
          n_slot = refl;
          quota = refl;
          others = λ j h. refl;
          slot = refl;
          seg = refl;
          rc = refl;
        })
        (λ b.
          let here =
            update_at c.ent (idx c.cfg layer e) (idx c.cfg layer e)
              (record (entry c layer e) { resident = true }) refl in
          record {
            cfg = refl;
            n_slot = refl;
            quota = refl;
            others = λ j h. update_ne c.ent _ j _ h;
            slot = ap (λ (en : Entry). en.slot) here;
            seg = ap (λ (en : Entry). en.seg) here;
            rc = ap (λ (en : Entry). en.rc) here;
          })

  -- The answer to a request stays right when the expert is marked.
  pub mark_resident-Served :
      (c : ExpertCache F) (layer e n : ℕ) (d : ExpertCache F) (hit : Bool) (slot : ℕ)
      → layer < c.cfg.n_layer
      → e < c.cfg.n_expert
      → Served c layer e (d, hit, slot)
      → Served c layer e (mark_resident d layer e n, hit, slot)
  mark_resident-Served c layer e n d hit slot h k s =
      let m = mark_resident-Marked layer e n d in
      let i = idx c.cfg layer e in
      let p : idx d.cfg layer e ≡ i = ap (λ (q : Config F). idx q layer e) s.cfg in
      let other : (j : ℕ) → j ≢ i → (mark_resident d layer e n).ent j ≡ d.ent j =
        λ j t. m.others j (λ u. t (u ∙ p)) in
      let same_slot : ((mark_resident d layer e n).ent i).slot ≡ (d.ent i).slot =
        subst (λ (t : ℕ). ((mark_resident d layer e n).ent t).slot ≡ (d.ent t).slot) p m.slot in
      let same_seg : ((mark_resident d layer e n).ent i).seg ≡ (d.ent i).seg =
        subst (λ (t : ℕ). ((mark_resident d layer e n).ent t).seg ≡ (d.ent t).seg) p m.seg in
      let same_rc : ((mark_resident d layer e n).ent i).rc ≡ (d.ent i).rc =
        subst (λ (t : ℕ). ((mark_resident d layer e n).ent t).rc ≡ (d.ent t).rc) p m.rc in
      record {
        inv =
            mark_resident-Inv d layer e s.inv
              (omega (arith, ap (λ (q : Config F). q.n_layer) s.cfg))
              (omega (arith, ap (λ (q : Config F). q.n_expert) s.cfg)) n;
        cfg = m.cfg ∙ s.cfg;
        n_slot = m.n_slot ∙ s.n_slot;
        quota = m.quota ∙ s.quota;
        counts = λ j t. ap (λ (en : Entry). en.rc) (other j t) ∙ s.counts j t;
        in_use = λ j t u. other j t ∙ s.in_use j t u;
        stays = λ j t u.
            let same = other j t in
            let (slot, seated) =
              s.stays j t (ap (λ (en : Entry). is_seated en.seg) (sym same) ∙ u) in
            (ap (λ (en : Entry). en.slot) same ∙ slot, seated);
        hit = s.hit;
        hit_slot = s.hit_slot;
        seat = λ t.
            let (seated, here, rc, lt) = s.seat t in
            (
              ap is_seated same_seg ∙ seated,
              same_slot ∙ here,
              same_rc ∙ rc,
              omega (arith, m.n_slot),
            );
        refusal =
            λ t. let (seated, rc) = s.refusal t in (ap is_seated same_seg ∙ seated, same_rc ∙ rc);
      }
