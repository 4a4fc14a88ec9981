-- ===== src/Cache/Acquire/Served.antt =====
-- What a caller of `acquire` gets.
use moestream.Prelude.{
  ℕ, ◌<◌, ◌≡◌, ◌≢◌, refl, sym, ap, ◌∙◌, Bool, true, false, ◌&&◌, List, ◌∷◌, update, update_at,
  update_ne, elem, leb, if◌then◌else◌, if_intro, inc16, inc64, arith,
}
use moestream.Cache.State.{
  Origin, Seg, is_seated, CacheStats, Entry, ExpertCache, Config, no_slot, idx, entry,
}
use moestream.Cache.Inv.{Inv, idx-lt-total}
use moestream.Cache.Change.{set_stats-Inv}
use moestream.Cache.Owners.{slot-lt}
use moestream.Cache.Evict.Frame.{Frame, stats-Frame}
use moestream.Cache.Acquire.{touch, promote, count_hit, on_hit, admit, on_miss, acquire}
use moestream.Cache.Acquire.WellFormed.{on_hit-Inv, admit-Inv}
use moestream.Cache.Acquire.Cases.{
  missed, missed-Inv, missed-ent, missed-cfg, missed-n_slot, missed-quota, free-lt, on_miss_cases,
  acquire_cases,
}

queued : (ghost : Bool) → is_seated (if ghost then Seg.main else Seg.small) ≡ true
queued true = refl
queued false = refl

module _ {F : Type 0} where
  -- The result `r` of asking for expert `e` of `layer` in state `c`.
  pub record Served (c : ExpertCache F) (layer e : ℕ) (r : ExpertCache F × Bool × ℕ) : Type 0 where
    pub inv : Inv r.0
    pub cfg : r.0.cfg ≡ c.cfg
    pub n_slot : r.0.n_slot ≡ c.n_slot
    pub quota : r.0.quota ≡ c.quota
    -- Every other expert keeps its reference count; if it is in use it keeps all.
    pub counts : (i : ℕ) → i ≢ idx c.cfg layer e → (r.0.ent i).rc ≡ (c.ent i).rc
    pub in_use : (i : ℕ) → i ≢ idx c.cfg layer e → 0 < (c.ent i).rc → r.0.ent i ≡ c.ent i
    -- Another expert that has a slot had it before.
    pub stays :
        (i : ℕ)
        → i ≢ idx c.cfg layer e
        → is_seated (r.0.ent i).seg ≡ true
        → ((r.0.ent i).slot ≡ (c.ent i).slot) × (is_seated (c.ent i).seg ≡ true)
    -- A hit is an expert that has a slot, and that slot is the answer.
    pub hit : r.1 ≡ is_seated (entry c layer e).seg
    pub hit_slot : r.1 ≡ true → r.2 ≡ (entry c layer e).slot
    -- An answer other than `no_slot` is the slot that the expert now has, with one more reference.
    pub seat :
        r.2 ≢ no_slot
        → let en = r.0.ent (idx c.cfg layer e) in
          (is_seated en.seg ≡ true)
          × (en.slot ≡ r.2)
          × (en.rc ≡ inc16 (entry c layer e).rc)
          × (r.2 < r.0.n_slot)
    -- Otherwise it has none, and no reference.
    pub refusal :
        r.2 ≡ no_slot
        → let en = r.0.ent (idx c.cfg layer e) in (is_seated en.seg ≡ false) × (en.rc ≡ 0)

  -- Only the expert's own entry changed, and there at most the segment.
  record Bumped (layer e : ℕ) (c d : ExpertCache F) : Type 0 where
    cfg : d.cfg ≡ c.cfg
    n_slot : d.n_slot ≡ c.n_slot
    quota : d.quota ≡ c.quota
    others : (j : ℕ) → j ≢ idx c.cfg layer e → d.ent j ≡ c.ent j
    slot : (d.ent (idx c.cfg layer e)).slot ≡ (c.ent (idx c.cfg layer e)).slot
    rc : (d.ent (idx c.cfg layer e)).rc ≡ (c.ent (idx c.cfg layer e)).rc
    seated :
        is_seated (c.ent (idx c.cfg layer e)).seg ≡ true
        → is_seated (d.ent (idx c.cfg layer e)).seg ≡ true

  stats-Bumped :
      (layer e : ℕ) (c : ExpertCache F) (st : CacheStats) → Bumped layer e c (record c { st = st })
  stats-Bumped layer e c st = record {
    cfg = refl;
    n_slot = refl;
    quota = refl;
    others = λ j h. refl;
    slot = refl;
    rc = refl;
    seated = λ h. h;
  }

  promote-Bumped :
      (layer e : ℕ) (c : ExpertCache F) (st : CacheStats)
      → Bumped layer e c (promote layer e (record c { st = st }))
  unfolding promote
  promote-Bumped layer e c st =
      if_intro (λ d. Bumped layer e c d)
        (leb 2 (entry c layer e).freq && elem e (c.lay layer).small) _ _
        (λ b. record {
          cfg = refl;
          n_slot = refl;
          quota = refl;
          others = λ j h. update_ne c.ent _ j _ h;
          slot = ground arith;
          rc = ground arith;
          seated = λ h. ground arith;
        })
        (λ b. stats-Bumped layer e c st)

  count_hit-Bumped :
      (layer e : ℕ) (seg : Seg) (c : ExpertCache F) → Bumped layer e c (count_hit layer e seg c)
  unfolding count_hit
  count_hit-Bumped layer e Seg.none c = stats-Bumped layer e c c.st
  count_hit-Bumped layer e Seg.pinned c = stats-Bumped layer e c _
  count_hit-Bumped layer e Seg.main c = stats-Bumped layer e c _
  count_hit-Bumped layer e Seg.small c = promote-Bumped layer e c _

  module _ (c : ExpertCache F) (layer e : ℕ) (v : Inv c) (h : layer < c.cfg.n_layer)
      (k : e < c.cfg.n_expert) where
    on_hit-Served :
        is_seated (entry c layer e).seg ≡ true
        → Served c layer e (on_hit layer e c, true, (entry c layer e).slot)
    unfolding on_hit
    on_hit-Served s =
        let i = idx c.cfg layer e in
        let c1 = record c {
          ent = update c.ent i (touch c.step (entry c layer e));
          st = record c.st { hit = inc64 c.st.hit };
        } in
        let b = count_hit-Bumped layer e (entry c layer e).seg c1 in
        let here = update_at c.ent i i (touch c.step (entry c layer e)) refl in
        let range = slot-lt c v i (idx-lt-total v.config layer e h k) s in
        record {
          inv = on_hit-Inv layer e c v h k s;
          cfg = b.cfg;
          n_slot = b.n_slot;
          quota = b.quota;
          counts = λ j d. ap (λ (en : Entry). en.rc) (b.others j d ∙ update_ne c.ent i j _ d);
          in_use = λ j d p. b.others j d ∙ update_ne c.ent i j _ d;
          stays = λ j d p.
              let same = b.others j d ∙ update_ne c.ent i j _ d in
              (
                ap (λ (en : Entry). en.slot) same,
                ap (λ (en : Entry). is_seated en.seg) (sym same) ∙ p,
              );
          hit = sym s;
          hit_slot = λ p. refl;
          seat = λ p. (
            b.seated (ap (λ (en : Entry). is_seated en.seg) here ∙ s),
            b.slot ∙ ap (λ (en : Entry). en.slot) here,
            b.rc ∙ ap (λ (en : Entry). en.rc) here,
            omega (arith, range, b.n_slot),
          );
          refusal = λ p. absurd (omega (arith, v.slots, range));
        }

    -- A state `d` in which the miss is about to be answered.
    record Readied (d : ExpertCache F) : Type 0 where
      cfg : d.cfg ≡ c.cfg
      n_slot : d.n_slot ≡ c.n_slot
      quota : d.quota ≡ c.quota
      counts : (i : ℕ) → i ≢ idx c.cfg layer e → (d.ent i).rc ≡ (c.ent i).rc
      in_use : (i : ℕ) → i ≢ idx c.cfg layer e → 0 < (c.ent i).rc → d.ent i ≡ c.ent i
      stays :
          (i : ℕ)
          → i ≢ idx c.cfg layer e
          → is_seated (d.ent i).seg ≡ true
          → ((d.ent i).slot ≡ (c.ent i).slot) × (is_seated (c.ent i).seg ≡ true)
      vacant : is_seated (d.ent (idx c.cfg layer e)).seg ≡ false
      unused : (d.ent (idx c.cfg layer e)).rc ≡ 0

    module _ (s : is_seated (entry c layer e).seg ≡ false) where
      missed-other : (j : ℕ) → j ≢ idx c.cfg layer e → (missed layer e c).ent j ≡ c.ent j
      missed-other j d =
          ap (λ (f : ℕ → Entry). f j) (missed-ent layer e c) ∙ update_ne c.ent _ j _ d

      missed-own :
          (missed layer e c).ent (idx c.cfg layer e)
          ≡ record (entry c layer e) { last = c.step; freq = 1 }
      missed-own =
          ap (λ (f : ℕ → Entry). f (idx c.cfg layer e)) (missed-ent layer e c)
          ∙ update_at c.ent _ _ _ refl

      Frame-Readied : (d : ExpertCache F) → Frame (missed layer e c) d → Readied d
      Frame-Readied d f =
          let i = idx c.cfg layer e in
          let none : is_seated ((missed layer e c).ent i).seg ≡ false =
            ap (λ (en : Entry). is_seated en.seg) missed-own ∙ s in
          let own = f.vacant i none ∙ missed-own in
          record {
            cfg = f.cfg ∙ missed-cfg layer e c;
            n_slot = f.n_slot ∙ missed-n_slot layer e c;
            quota = f.quota ∙ missed-quota layer e c;
            counts = λ j d. f.counts j ∙ ap (λ (en : Entry). en.rc) (missed-other j d);
            in_use = λ j d p.
                f.in_use j (omega (arith, ap (λ (en : Entry). en.rc) (missed-other j d)))
                ∙ missed-other j d;
            stays = λ j d p.
                let (slot, seg) = f.stays j p in
                let same = missed-other j d in
                (
                  slot ∙ ap (λ (en : Entry). en.slot) same,
                  ap (λ (en : Entry). is_seated en.seg) (sym same) ∙ ap is_seated (sym seg) ∙ p,
                );
            vacant = ap (λ (en : Entry). is_seated en.seg) own ∙ s;
            unused = ap (λ (en : Entry). en.rc) own ∙ ((v.entries i).vacant s).1;
          }

      Readied-refused :
          (d : ExpertCache F) → Readied d → Inv d → Served c layer e (d, false, no_slot)
      Readied-refused d r w = record {
        inv = w;
        cfg = r.cfg;
        n_slot = r.n_slot;
        quota = r.quota;
        counts = r.counts;
        in_use = r.in_use;
        stays = r.stays;
        hit = sym s;
        hit_slot = λ p. absurd (ground arith);
        seat = λ p. absurd (p refl);
        refusal = λ p. (r.vacant, r.unused);
      }

      same_idx : (d : ExpertCache F) → d.cfg ≡ c.cfg → idx d.cfg layer e ≡ idx c.cfg layer e
      same_idx d p = ap (λ (q : Config F). idx q layer e) p

      Readied-admitted :
          (d : ExpertCache F) (origin : Origin) (ghost : Bool) (slot : ℕ) (rest : List ℕ)
          → Readied d
          → Inv d
          → d.free ≡ slot ∷ rest
          → Served c layer e
              (admit layer e origin ghost slot (record d { free = rest }), false, slot)
      unfolding admit
      Readied-admitted d origin ghost slot rest r w f =
          let p = same_idx d r.cfg in
          let h' : layer < d.cfg.n_layer = omega (arith, ap (λ (q : Config F). q.n_layer) r.cfg) in
          let k' : e < d.cfg.n_expert = omega (arith, ap (λ (q : Config F). q.n_expert) r.cfg) in
          let seat : Entry = record (entry d layer e) {
            slot = slot;
            rc = 1;
            resident = false;
            seg = if ghost then Seg.main else Seg.small;
          } in
          let here = update_at d.ent (idx d.cfg layer e) (idx c.cfg layer e) seat (sym p) in
          let none : is_seated (entry d layer e).seg ≡ false =
            ap (λ (i : ℕ). is_seated (d.ent i).seg) p ∙ r.vacant in
          record {
            inv = admit-Inv d layer e w h' k' origin ghost slot rest f none;
            cfg = r.cfg;
            n_slot = r.n_slot;
            quota = r.quota;
            counts = λ j q.
                ap (λ (en : Entry). en.rc) (update_ne d.ent _ j _ (λ t. q (t ∙ p))) ∙ r.counts j q;
            in_use = λ j q u. update_ne d.ent _ j _ (λ t. q (t ∙ p)) ∙ r.in_use j q u;
            stays = λ j q u.
                let same = update_ne d.ent (idx d.cfg layer e) j seat (λ t. q (t ∙ p)) in
                let (slot, seated) =
                  r.stays j q (ap (λ (en : Entry). is_seated en.seg) (sym same) ∙ u) in
                (ap (λ (en : Entry). en.slot) same ∙ slot, seated);
            hit = sym s;
            hit_slot = λ q. absurd (ground arith);
            seat = λ q. (
              ap (λ (en : Entry). is_seated en.seg) here ∙ queued ghost,
              ap (λ (en : Entry). en.slot) here,
              ap (λ (en : Entry). en.rc) here
                  ∙ ap inc16 (sym ((v.entries (idx c.cfg layer e)).vacant s).1),
              free-lt d slot rest w f,
            );
            refusal = λ q. absurd (omega (arith, free-lt d slot rest w f, w.slots));
          }

      on_miss-Served : (origin : Origin) → Served c layer e (on_miss layer e origin c)
      on_miss-Served origin =
          let w = missed-Inv layer e c v h k in
          on_miss_cases (Served c layer e) layer e origin c v h k
            (λ b.
              let swept = set_stats-Inv _ w _ in
              Readied-refused _ (Frame-Readied _ (stats-Frame (missed layer e c) _)) swept)
            (λ d b l. Readied-refused d (Frame-Readied d l.frame) l.inv)
            (λ d rest slot b l f.
              Readied-admitted d origin _ slot rest (Frame-Readied d l.frame) l.inv f)

    -- A request for an expert in range of a well-formed cache leaves a well-formed cache, changes the
    -- reference count of no other expert and nothing of those in use, and gives no other expert a
    -- slot; it answers a hit exactly for an expert that has a slot, with that slot; any slot that it
    -- answers is the one that the expert then has, with one more reference; without one the expert
    -- has no slot and no reference.
    pub acquire-Served : (origin : Origin) → Served c layer e (acquire c layer e origin)
    acquire-Served origin =
        acquire_cases (Served c layer e) layer e origin c on_hit-Served
          (λ s. on_miss-Served s origin)
