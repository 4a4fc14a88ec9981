-- ===== src/Cache/Acquire/WellFormed.antt =====
-- `acquire`, `mark_resident` and `release` keep the cache well formed.
use moestream.Prelude.{
  ℕ, ◌+◌, ◌-◌, ◌<◌, ◌≡◌, refl, ap, Bool, true, false, ◌&&◌, List, [], ◌∷◌, ◌++◌, update, update_at,
  count, count-append, length, length-append, elem, erase_first, count-erase_first,
  length-erase_first, leb, ltb, ◌==◌, if◌then◌else◌, if_intro, inc32, arith,
}
use moestream.Cache.State.{
  is_seated, Origin, prefetch_low, Seg, Entry, LayerState, CacheStats, ExpertCache, idx, entry,
}
use moestream.Cache.Inv.{Inv, idx-lt-total}
use moestream.Cache.Change.{Reseats, reseat-Inv, set_layer-Inv, set_entry-Inv, set_stats-Inv}
use moestream.Cache.Evict.WellFormed.{resident-lt}
use moestream.Cache.Acquire.{
  touch, promote, count_hit, on_hit, count_miss, was_ghost, leave_ghost, enqueue, admit,
  mark_resident, release,
}

-- The new expert stands in one queue, once more than before.
pub record Enqueued (ghost : Bool) (e : ℕ) (old new : LayerState) : Type 0 where
  pub smalls :
      (x : ℕ)
      → count x new.small ≡ count x old.small + (if ghost then 0 else if x == e then 1 else 0)
  pub mains :
      (x : ℕ) → count x new.main ≡ count x old.main + (if ghost then if x == e then 1 else 0 else 0)
  pub longer : length new.small + length new.main ≡ length old.small + length old.main + 1
  pub resident : new.resident ≡ old.resident
  pub pinned : new.pinned ≡ old.pinned

enqueue-Enqueued :
    (ghost : Bool) (origin : Origin) (e : ℕ) (ls : LayerState)
    → Enqueued ghost e ls (enqueue ghost origin e ls)
enqueue-Enqueued true origin e ls = record {
  smalls = λ x. omega arith;
  mains = λ x. ground (arith, count-append x ls.main (e ∷ []));
  longer = omega (arith, length-append ls.main (e ∷ []));
  resident = refl;
  pinned = refl;
}
enqueue-Enqueued false prefetch_low e ls = record {
  smalls = λ x. ground arith;
  mains = λ x. omega arith;
  longer = omega arith;
  resident = refl;
  pinned = refl;
}
enqueue-Enqueued false _ e ls = record {
  smalls = λ x. ground (arith, count-append x ls.small (e ∷ []));
  mains = λ x. omega arith;
  longer = omega (arith, length-append ls.small (e ∷ []));
  resident = refl;
  pinned = refl;
}

module _ {F : Type 0} (c : ExpertCache F) (layer e : ℕ) (v : Inv c) (h : layer < c.cfg.n_layer)
    (k : e < c.cfg.n_expert) where
  promote-Reseats :
      (entry c layer e).seg ≡ Seg.small
      → elem e (c.lay layer).small ≡ true
      → Reseats c layer e
          (record (entry c layer e) { seg = Seg.main })
          (record (c.lay layer) {
            small = erase_first e (c.lay layer).small;
            main = (c.lay layer).main ++ e ∷ [];
          })
          c.free
  promote-Reseats s m =
      let ls = c.lay layer in
      let counted = v.layers layer in
      let good = v.entries (idx c.cfg layer e) in
      record {
        layer_range = h;
        expert_range = k;
        good_entry = record { vacant = λ p. absurd (ground arith); capped = good.capped };
        good_layer = record {
          residents = omega (
            arith,
            counted.residents,
            length-erase_first e ls.small m,
            length-append ls.main (e ∷ []),
          );
        };
        owned = λ x. ground (arith, s);
        small = λ x. ground (arith, s, count-erase_first e x ls.small m);
        main = λ x. ground (arith, s, count-append x ls.main (e ∷ []));
        seats = refl;
      }

  promote-Inv : (entry c layer e).seg ≡ Seg.small → Inv (promote layer e c)
  unfolding promote
  promote-Inv s =
      if_intro Inv (leb 2 (entry c layer e).freq && elem e (c.lay layer).small) _ _
        (λ b.
          reseat-Inv c v layer e _ _ c.free (promote-Reseats s (ground arith)) _ c.slot_table
            (λ j. ground (arith, v.mirrored j)))
        (λ b. v)

  admit-Reseats :
      (origin : Origin) (ghost : Bool) (slot : ℕ) (rest : List ℕ)
      → c.free ≡ slot ∷ rest
      → is_seated (entry c layer e).seg ≡ false
      → Reseats c layer e
          (record (entry c layer e) {
            slot = slot;
            rc = 1;
            resident = false;
            seg = if ghost then Seg.main else Seg.small;
          })
          (record (enqueue ghost origin e (c.lay layer)) {
            resident = inc32 (enqueue ghost origin e (c.lay layer)).resident;
          })
          rest
  admit-Reseats origin ghost slot rest f s =
      let counted = v.layers layer in
      let good = v.entries (idx c.cfg layer e) in
      let q = enqueue-Enqueued ghost origin e (c.lay layer) in
      let room = resident-lt c layer v h in
      record {
        layer_range = h;
        expert_range = k;
        good_entry = record { vacant = λ p. absurd (ground arith); capped = good.capped };
        good_layer = record {
          residents = omega (arith, counted.residents, q.longer, q.resident, q.pinned);
        };
        owned = λ x. ground (arith, s, ap (count x) f);
        small = λ x. ground (arith, s, q.smalls x);
        main = λ x. ground (arith, s, q.mains x);
        seats = omega (arith, ap length f, q.resident);
      }

  pub admit-Inv :
      (origin : Origin) (ghost : Bool) (slot : ℕ) (rest : List ℕ)
      → c.free ≡ slot ∷ rest
      → is_seated (entry c layer e).seg ≡ false
      → Inv (admit layer e origin ghost slot (record c { free = rest }))
  unfolding admit
  admit-Inv origin ghost slot rest f s =
      reseat-Inv c v layer e _ _ rest (admit-Reseats origin ghost slot rest f s) _ _
        (λ j. ground (arith, v.mirrored j))

  pub touched-Inv :
      (st : CacheStats)
      → is_seated (entry c layer e).seg ≡ true
      → Inv (record c {
        ent = update c.ent (idx c.cfg layer e) (touch c.step (entry c layer e));
        st = st;
      })
  touched-Inv st s =
      let good = v.entries (idx c.cfg layer e) in
      let t =
        set_entry-Inv c v (idx c.cfg layer e) (touch c.step (entry c layer e))
          (idx-lt-total v.config layer e h k) refl refl
          (record { vacant = λ p. absurd (ground arith); capped = ground (arith, good.capped) }) in
      set_stats-Inv _ t st

  pub count_miss-Inv : Inv (count_miss layer e c)
  unfolding count_miss
  count_miss-Inv =
      let good = v.entries (idx c.cfg layer e) in
      let t =
        set_entry-Inv c v (idx c.cfg layer e) (record (entry c layer e) { last = c.step; freq = 1 })
          (idx-lt-total v.config layer e h k) refl refl
          (record { vacant = good.vacant; capped = omega arith }) in
      set_stats-Inv _ t _

  pub leave_ghost-Inv : Inv (leave_ghost layer e c)
  unfolding leave_ghost
  leave_ghost-Inv =
      if_intro Inv (was_ghost layer e c) _ _
        (λ b.
          set_stats-Inv _
            (set_layer-Inv c v layer _ h (record {
              small_count = λ x. refl;
              main_count = λ x. refl;
              small_length = refl;
              main_length = refl;
              resident = refl;
              pinned = refl;
            }))
            _)
        (λ b. v)

  pub mark_resident-Inv : (nbytes : ℕ) → Inv (mark_resident c layer e nbytes)
  unfolding mark_resident
  mark_resident-Inv nbytes =
      let good = v.entries (idx c.cfg layer e) in
      if_intro Inv (entry c layer e).resident _ _ (λ b. v)
        (λ b.
          set_stats-Inv _
            (set_entry-Inv c v (idx c.cfg layer e) (record (entry c layer e) { resident = true })
              (idx-lt-total v.config layer e h k) refl refl
              (record { vacant = good.vacant; capped = good.capped }))
            _)

  pub release-Inv : Inv (release c layer e)
  unfolding release
  release-Inv =
      let good = v.entries (idx c.cfg layer e) in
      if_intro Inv (ltb 0 (entry c layer e).rc) _ _
        (λ b.
          set_entry-Inv c v (idx c.cfg layer e)
            (record (entry c layer e) { rc = (entry c layer e).rc - 1 })
            (idx-lt-total v.config layer e h k) refl refl
            (record { vacant = λ p. ground (arith, good.vacant p); capped = good.capped }))
        (λ b. v)

module _ {F : Type 0} (layer e : ℕ) where
  pub count_hit-Inv :
      (c : ExpertCache F) (seg : Seg)
      → Inv c
      → layer < c.cfg.n_layer
      → e < c.cfg.n_expert
      → (entry c layer e).seg ≡ seg
      → Inv (count_hit layer e seg c)
  unfolding count_hit
  count_hit-Inv c Seg.none v h k s = v
  count_hit-Inv c Seg.pinned v h k s = set_stats-Inv c v _
  count_hit-Inv c Seg.small v h k s = promote-Inv _ layer e (set_stats-Inv c v _) h k s
  count_hit-Inv c Seg.main v h k s = set_stats-Inv c v _

  pub on_hit-Inv :
      (c : ExpertCache F)
      → Inv c
      → layer < c.cfg.n_layer
      → e < c.cfg.n_expert
      → is_seated (entry c layer e).seg ≡ true
      → Inv (on_hit layer e c)
  unfolding on_hit
  on_hit-Inv c v h k s =
      count_hit-Inv _ (entry c layer e).seg (touched-Inv c layer e v h k _ s) h k
        (ap (λ (en : Entry). en.seg) (update_at c.ent _ _ _ refl))
