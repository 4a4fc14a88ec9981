-- ===== src/Remap/Ids/Loop.antt =====
-- What the loop over the ids of a batch writes.
use moestream.Prelude.{
  ℕ, ◌+◌, ◌^◌, ◌%◌, ◌≤◌, ◌<◌, ◌≡◌, ◌≢◌, refl, sym, ap, ◌∙◌, subst, Bool, false, not, ◌&&◌, Option,
  none, some, List, [], ◌∷◌, ◌++◌, length, length-append, ltb, ◌==◌, if◌then◌else◌, if_intro,
  Bool-cases, inl, inr, arith,
}
use moestream.Prelude.Int.{ℤ, pos, negsuc}
use moestream.Cache.State.{is_seated, ExpertCache, demand, no_slot, idx, entry}
use moestream.Cache.Inv.{idx-lt-total}
use moestream.Cache.Owners.{slot-lt}
use moestream.Cache.Acquire.{acquire, mark_resident}
use moestream.Cache.Acquire.Served.{Served, acquire-Served}
use moestream.Remap.Mrc.{mrc_touch}
use moestream.Remap.Ids.{Batch, Run, expert_of, drops, answer, serve, map_expert, map_ids}
use moestream.Remap.Ids.Words.{
  Word, foreign, unowned, refused, served, Words, nil, more, Word-map, Words-map,
}
use moestream.Remap.Ids.Marked.{mark_resident-Served}
use moestream.Remap.Ids.Step.{
  filled, filled-append, Tracks, Loaded, Keeping, served-Tracks, refused-Tracks, served-Keeping,
  served-here, refused-Loaded, hit-Loaded, read-Loaded,
}

Keeping-trans : {F : Type 0} {c d x : ExpertCache F} → Keeping c d → Keeping d x → Keeping c x
Keeping-trans h k = record {
  n_slot = k.n_slot ∙ h.n_slot;
  experts = k.experts ∙ h.experts;
  kept = λ e low used.
      let (used', same) = h.kept e low used in
      let (used'', same') = k.kept e (omega (arith, h.experts)) used' in (used'', same' ∙ same);
}

expert_of-lt : (n : ℕ) (i : ℤ) (e : ℕ) → expert_of n i ≡ some e → e < n
expert_of-lt n (pos k) e h = ground arith
expert_of-lt n (negsuc k) e h = ground arith

module _ {F : Type 0} {W : Type 0} (b : Batch) (weights mem : ℕ → W) where
  -- Expert `e` is in use in cache `c`, in slot `w`.
  abbrev At : ExpertCache F → ℕ → ℕ → Type 0
  At c e w = (e < c.cfg.n_expert) × (0 < (entry c 0 e).rc) × ((entry c 0 e).slot ≡ w)

  Keeping-At : {c d : ExpertCache F} → Keeping c d → (e w : ℕ) → At c e w → At d e w
  Keeping-At h e w (low, used, slot) =
      let (used', same) = h.kept e low used in (omega (arith, h.experts), used', same ∙ slot)

  record Good (r : Run F) : Type 0 where
    tracks : Tracks b.n_expert r.held r.cache
    loaded : Loaded weights (filled weights r.pend mem) r.cache

  record Stepped (o : Option ℕ) (r : Run F) (x : Run F × ℕ) : Type 0 where
    good : Good x.0
    keeping : Keeping r.cache x.0.cache
    room : length x.0.held ≤ length r.held + 1
    refusals : ℕ
    word : Word (At x.0.cache) b o x.1 refusals
    exhausted : x.0.exhausted % 2 ^ 64 ≡ (r.exhausted + refusals) % 2 ^ 64

  module _ (live : drops b ≡ false) (reads : b.no_reads ≡ false) where
    answer-Stepped :
        (e : ℕ) (r : Run F) (x : ExpertCache F × Bool × ℕ)
        → e < b.n_expert
        → Good r
        → length r.held + 1 < 2 ^ 16
        → Served r.cache 0 e x
        → Stepped (some e) r (answer b e r x)
    unfolding answer
    answer-Stepped e r (d, hit, slot) k g room s =
        if_intro (Stepped (some e) r) (slot == no_slot) _ _
          (λ p.
            let none : slot ≡ no_slot = ground arith in
            record {
              good = record {
                tracks = refused-Tracks b.n_expert e r.held r.cache g.tracks k d hit slot s none;
                loaded =
                    refused-Loaded b.n_expert e r.held r.cache g.tracks k d hit slot s weights
                      (filled weights r.pend mem) g.loaded none;
              };
              keeping = served-Keeping b.n_expert e r.held r.cache g.tracks k d hit slot s room;
              room = omega arith;
              refusals = 1;
              word = refused e refl refl;
              exhausted = omega arith;
            })
          (λ p.
            if_intro (Stepped (some e) r) (not hit && drops b) _ _ (λ q. absurd (ground arith))
              (λ q.
                if_intro (Stepped (some e) r) hit _ _
                  (λ u.
                    let good : slot ≢ no_slot = λ t. absurd (ground arith) in
                    record {
                      good = record {
                        tracks =
                            served-Tracks b.n_expert e r.held r.cache g.tracks k d hit slot s good
                              room;
                        loaded =
                            hit-Loaded b.n_expert e r.held r.cache g.tracks k d hit slot s weights
                              (filled weights r.pend mem) g.loaded u;
                      };
                      keeping =
                          served-Keeping b.n_expert e r.held r.cache g.tracks k d hit slot s room;
                      room = omega (arith, length-append r.held (e ∷ []));
                      refusals = 0;
                      word = served e refl (
                          served-here b.n_expert e r.held r.cache g.tracks k d hit slot s good
                            room);
                      exhausted = omega arith;
                    })
                  (λ u.
                    let good : slot ≢ no_slot = λ t. absurd (ground arith) in
                    let lay : 0 < r.cache.cfg.n_layer = omega (arith, g.tracks.one) in
                    let s' =
                      mark_resident-Served r.cache 0 e b.expert_bytes d hit slot lay
                        (omega (arith, g.tracks.experts)) s in
                    let d' = mark_resident d 0 e b.expert_bytes in
                    let pend : (if b.no_reads then r.pend else r.pend ++ (e, slot) ∷ [])
                        ≡ r.pend ++ (e, slot) ∷ [] =
                      ground arith in
                    record {
                      good = record {
                        tracks =
                            served-Tracks b.n_expert e r.held r.cache g.tracks k d' hit slot s' good
                              room;
                        loaded =
                            subst (λ (m : ℕ → W). Loaded weights m d')
                              (sym (filled-append weights r.pend e slot mem)
                                ∙ ap (λ (ps : List (ℕ × ℕ)). filled weights ps mem) (sym pend))
                              (read-Loaded b.n_expert e r.held r.cache g.tracks k d' hit slot s'
                                weights (filled weights r.pend mem) g.loaded good);
                      };
                      keeping =
                          served-Keeping b.n_expert e r.held r.cache g.tracks k d' hit slot s' room;
                      room = omega (arith, length-append r.held (e ∷ []));
                      refusals = 0;
                      word = served e refl (
                          served-here b.n_expert e r.held r.cache g.tracks k d' hit slot s' good
                            room);
                      exhausted = omega arith;
                    })))

    unchanged :
        (o : Option ℕ) (r : Run F)
        → Good r
        → Word (At r.cache) b o b.zero_slot 0
        → Stepped o r (r, b.zero_slot)
    unchanged o r g w = record {
      good = g;
      keeping = record { n_slot = refl; experts = refl; kept = λ e h u. (u, refl) };
      room = omega arith;
      refusals = 0;
      word = w;
      exhausted = omega arith;
    }

    map_expert-Stepped :
        (o : Option ℕ) (r : Run F)
        → ((e : ℕ) → o ≡ some e → e < b.n_expert)
        → Good r
        → length r.held + 1 < 2 ^ 16
        → Stepped o r (map_expert b o r)
    unfolding map_expert serve
    map_expert-Stepped none r h g room = unchanged none r g (foreign refl refl)
    map_expert-Stepped (some e) r h g room =
        if_intro (Stepped (some e) r) (ltb 1 b.np && not (b.owned e)) _ _
          (λ p. unchanged (some e) r g (unowned e refl p refl))
          (λ p.
            let k = h e refl in
            let s =
              acquire-Served r.cache 0 e g.tracks.inv (omega (arith, g.tracks.one))
                (omega (arith, g.tracks.experts)) demand in
            let r' = record r { mrc = mrc_touch b.il e r.mrc } in
            let st =
              answer-Stepped e r' (acquire r.cache 0 e demand) k
                (record { tracks = g.tracks; loaded = g.loaded }) room s in
            record {
              good = st.good;
              keeping = st.keeping;
              room = st.room;
              refusals = st.refusals;
              word = st.word;
              exhausted = st.exhausted;
            })

    -- The state and the words after the loop.
    record Done (ids : List ℤ) (r : Run F) (x : Run F × List ℕ) : Type 0 where
      good : Good x.0
      keeping : Keeping r.cache x.0.cache
      refusals : ℕ
      words : Words (At x.0.cache) b ids x.1 refusals
      exhausted : x.0.exhausted % 2 ^ 64 ≡ (r.exhausted + refusals) % 2 ^ 64

    map_ids-Done :
        (ids : List ℤ) (r : Run F)
        → Good r
        → length r.held + length ids < 2 ^ 16
        → Done ids r (map_ids b ids r)
    unfolding map_ids
    map_ids-Done [] r g room = record {
      good = g;
      keeping = record { n_slot = refl; experts = refl; kept = λ e h u. (u, refl) };
      refusals = 0;
      words = nil;
      exhausted = omega arith;
    }
    map_ids-Done (i ∷ ids) r g room =
        let o = expert_of b.n_expert i in
        let st = map_expert-Stepped o r (expert_of-lt b.n_expert i) g (omega arith) in
        let rest = map_ids-Done ids (map_expert b o r).0 st.good (omega (arith, st.room)) in
        record {
          good = rest.good;
          keeping = Keeping-trans st.keeping rest.keeping;
          refusals = st.refusals + rest.refusals;
          words = more (Word-map (λ e h. Keeping-At rest.keeping e _ h) st.word) rest.words;
          exhausted = omega (arith, st.exhausted, rest.exhausted);
        }

    -- An expert in use has its weights in its slot.
    At-Right :
        (r : Run F)
        → Good r
        → (e w : ℕ) → At r.cache e w
        → (w < r.cache.n_slot) × (filled weights r.pend mem w ≡ weights e)
    At-Right r g e w (low, used, slot) =
        let v = g.tracks.inv in
        let at = idx-lt-total v.config 0 e (omega (arith, g.tracks.one)) low in
        elim (Bool-cases (is_seated (entry r.cache 0 e).seg)) [
          | inr bare ↦ absurd (omega (arith, ((v.entries (idx r.cache.cfg 0 e)).vacant bare).1))
          | inl seated ↦ (
            omega (arith, slot-lt r.cache v (idx r.cache.cfg 0 e) at seated, slot),
            ap (filled weights r.pend mem) (sym slot) ∙ g.loaded e low seated,
          )
        ]

    -- The words.
    pub map_ids-Words :
        (ids : List ℤ) (r : Run F)
        → Tracks b.n_expert r.held r.cache
        → Loaded weights (filled weights r.pend mem) r.cache
        → r.cache.n_slot ≡ b.zero_slot
        → length r.held + length ids < 2 ^ 16
        → let x = map_ids b ids r in
          (k : ℕ) × Words
            (λ e w. (w < b.zero_slot) × (filled weights x.0.pend mem w ≡ weights e))
            b
            ids
            x.1
            k
          × (x.0.exhausted % 2 ^ 64 ≡ (r.exhausted + k) % 2 ^ 64)
    map_ids-Words ids r t l z room =
        let done = map_ids-Done ids r (record { tracks = t; loaded = l }) room in
        (
          done.refusals,
          Words-map
              (λ e w h.
                let (low, right) = At-Right (map_ids b ids r).0 done.good e w h in
                (omega (arith, done.keeping.n_slot), right))
              done.words,
          done.exhausted,
        )

    -- The reference counts.
    pub map_ids-keeps :
        (ids : List ℤ) (r : Run F)
        → Tracks b.n_expert r.held r.cache
        → Loaded weights (filled weights r.pend mem) r.cache
        → length r.held + length ids < 2 ^ 16
        → let r' = (map_ids b ids r).0 in
          Tracks b.n_expert r'.held r'.cache × Loaded weights (filled weights r'.pend mem) r'.cache
    map_ids-keeps ids r t l room =
        let done = map_ids-Done ids r (record { tracks = t; loaded = l }) room in
        (done.good.tracks, done.good.loaded)
