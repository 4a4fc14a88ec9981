-- ===== src/Remap/Call/Laws.antt =====
-- What a call of the remap leaves, and what it writes.
use moestream.Prelude.{
  ℕ, zero, suc, ◌+◌, ◌*◌, ◌^◌, ◌%◌, ◌<◌, ◌≡◌, refl, sym, ap, ◌∙◌, subst, true, false, List, [],
  length, count, ltb, ◌==◌, if◌then◌else◌, update, update_at, update_ne, sum_below, sum_below-ext,
  arith, not,
}
use native.Mathlib.Decide.{ℕ_discrete}
use moestream.Prelude.Int.{ℤ, pos, ltb_ℤ}
use moestream.Cache.State.{is_seated, Config}
use moestream.Remap.Ids.{Run, map_ids}
use moestream.Remap.Ids.Step.{filled, Tracks, Loaded}
use moestream.Remap.Ids.Words.{Words}
use moestream.Remap.Ids.Loop.{map_ids-Words, map_ids-keeps}
use moestream.Remap.Call.{Setting, Globals, clear_passes, batch_of, begin, finish, remap}
use moestream.Remap.Call.Release.{Ready, release_passes-Released}

clear_passes-cleared :
    (il m : ℕ) (held : ℕ → List ℕ) (q : ℕ) → q < m → clear_passes il m held (il * 8 + q) ≡ []
unfolding clear_passes
clear_passes-cleared il zero held q h = absurd (omega arith)
clear_passes-cleared il (suc m) held q h = elim (ℕ_discrete q m) [
  | yes p ↦ update_at (clear_passes il m held) _ _ [] (omega arith)
  | no p ↦
      update_ne (clear_passes il m held) _ _ [] (λ t. p (omega arith))
      ∙ clear_passes-cleared il m held q (omega arith)
]

sum_at : (m p k : ℕ) → sum_below m (λ q. if q == p then k else 0) ≡ (if ltb p m then k else 0)
unfolding sum_below
sum_at zero p k = ground arith
sum_at (suc m) p k = ground (arith, sum_at m p k)

-- After the call only its own pass holds references.
own_pass :
    (il p : ℕ) (held : ℕ → List ℕ) (new : List ℕ) (e q : ℕ)
    → q < 8
    → count e (update (clear_passes il 8 held) (il * 8 + p) new (il * 8 + q))
      ≡ (if q == p then count e new else 0)
own_pass il p held new e q h = elim (ℕ_discrete q p) [
  | yes t ↦ ground (
    arith,
    ap (count e) (update_at (clear_passes il 8 held) (il * 8 + p) (il * 8 + q) new (omega arith)),
  )
  | no t ↦ ground (
    arith,
    ap (count e)
        (update_ne (clear_passes il 8 held) (il * 8 + p) (il * 8 + q) new (λ u. t (omega arith))),
    ap (count e) (clear_passes-cleared il 8 held q h),
  )
]

module _ {F : Type 0} {W : Type 0} (weights mem : ℕ → W) (s : Setting) (ids : List ℤ)
    (g : Globals F) (r : Ready s.il s.n_expert g) (l : Loaded weights mem g.cache)
    (own : s.pass < 8) (short : length ids < 2 ^ 16) where
  cleared : (begin s g).held ≡ []
  unfolding begin
  cleared = clear_passes-cleared s.il 8 g.held s.pass own

  begin-Tracks : Tracks s.n_expert [] (begin s g).cache
  unfolding begin
  begin-Tracks =
      let (v, free) = release_passes-Released s.il s.n_expert g 8 r (omega arith) in
      record {
        inv = v;
        one = ap (λ (q : Config F). q.n_layer) free.cfg ∙ r.one;
        experts = ap (λ (q : Config F). q.n_expert) free.cfg ∙ r.experts;
        refs = λ e h. omega (arith, free.rc e, r.refs e h);
        none_else = λ e h. refl;
        fits = omega arith;
      }

  begin-Loaded : Loaded weights mem (begin s g).cache
  unfolding begin
  begin-Loaded e h seated =
      let (v, free) = release_passes-Released s.il s.n_expert g 8 r (omega arith) in
      ap mem (free.slot e)
      ∙ l e (omega (arith, ap (λ (q : Config F). q.n_expert) free.cfg))
          (ap is_seated (sym (free.seg e)) ∙ seated)

  room : length (begin s g).held + length ids < 2 ^ 16
  room = omega (arith, ap length cleared)

  start : Tracks s.n_expert (begin s g).held (begin s g).cache
  start = subst (λ (h : List ℕ). Tracks s.n_expert h (begin s g).cache) (sym cleared) begin-Tracks

  finish-Ready :
      (x : Run F) → Tracks s.n_expert x.held x.cache → Ready s.il s.n_expert (finish s g x)
  unfolding finish
  finish-Ready x t =
      let after = own_pass s.il s.pass g.held x.held in
      record {
        inv = t.inv;
        one = t.one;
        experts = t.experts;
        refs = λ e h.
            ground
              (arith, t.refs e h, sum_below-ext 8 _ _ (after e), sum_at 8 s.pass (count e x.held));
        none_else = λ e q h k. ground (arith, after e q k, t.none_else e h);
      }

  module _ (live : ltb_ℤ (pos s.il) s.drop_from ≡ true) (reads : s.no_reads ≡ false) where
    -- A call in a ready state in which every expert that has a slot has its weights there, for a
    -- layer below `drop_from`, with reads enabled, one of the eight passes and fewer
    -- than 65536 ids, keeps the layer ready, and once its pending reads are done every expert that
    -- has a slot has its weights there.
    pub remap-Ready :
        let x = remap s ids g in
        Ready s.il s.n_expert x.0 × Loaded weights (filled weights x.2 mem) x.0.cache
    unfolding remap batch_of begin finish
    remap-Ready =
        let (tracks, loaded) =
          map_ids-keeps (batch_of s ids) weights mem (ap not live) reads ids (begin s g) start
            begin-Loaded room in
        (finish-Ready (map_ids (batch_of s ids) ids (begin s g)).0 tracks, loaded)

    -- In such a call, if the number of the null slot is the number of the cache's slots, the word of an id that is out
    -- of range or not of this pass is the null slot; the word of every other id is a slot of the
    -- cache that, once the pending reads are done, has exactly that expert's weights, but for the
    -- ids that the cache refused, whose words are the null slot and which are counted.
    pub remap-Words :
        g.cache.n_slot ≡ s.zero_slot
        → let x = remap s ids g in
          (k : ℕ) × Words
            (λ e w. (w < s.zero_slot) × (filled weights x.2 mem w ≡ weights e))
            (batch_of s ids)
            ids
            x.1
            k
          × (x.0.exhausted % 2 ^ 64 ≡ (g.exhausted + k) % 2 ^ 64)
    unfolding remap batch_of begin finish
    remap-Words z =
        let (v, free) = release_passes-Released s.il s.n_expert g 8 r (omega arith) in
        map_ids-Words (batch_of s ids) weights mem (ap not live) reads ids (begin s g) start
          begin-Loaded (free.n_slot ∙ z) room
