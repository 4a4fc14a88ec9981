-- ===== src/Finalize/Start/Failed.antt =====
-- The first call of the remap operation, by what the checks find.
use moestream.Prelude.{
  ℕ, ◌<◌, ◌≡◌, ◌⊎◌, inl, inr, refl, sym, ap, ◌∙◌, subst, Option-cases, Bool, true, false, not, ◌&&◌,
  ◌||◌, Option, none, some, List, [], ◌∷◌, length, leb, if◌then◌else◌, if_intro, arith,
}
use moestream.Prelude.Int.{ℤ, pos, ltb_ℤ}
use moestream.Cache.Doubles.{Doubles}
use moestream.Cache.State.{no_slot}
use moestream.Loader.Map.{lookup}
use moestream.Loader.Tables.{LayerSlabs}
use moestream.Prefill.Load.{Model}
use moestream.Finalize.Shards.{Fd, check_shards}
use moestream.Finalize.Zero.{Outcome, done, ◌>>=◌, Slabs, zero_layers}
use moestream.Finalize.Zero.Laws.{
  Overruns, >>=-Overruns, zero_layers-Overruns, AllBounded, zero_layers-done,
}
use moestream.Finalize.Start.{
  Runtime, Given, n_layers, is_empty, make_caches, with_shards, finalize, layer_ready,
  ensure_zero_slot, head_of, remap_head,
}
use moestream.Finalize.Start.Laws.{
  with_caches, finalize-runs, make_caches-AllInv, max_bytes-AllBounded,
}

some_cache : {A : Type 0} (xs : List A) → 0 < length xs → is_empty xs ≡ false
some_cache [] h = absurd (omega (arith, h))
some_cache (x ∷ xs) h = refl

module _ (D : Doubles) {W : Type 0} (M : Model W) (g : Given D.Double)
    (layers : List (ℤ × LayerSlabs)) where
  finalize-checked :
      (r : Runtime D.Double W) (o : Option (List Fd))
      → r.enabled ≡ true
      → r.caches ≡ []
      → is_empty layers ≡ false
      → check_shards layers g.shards ≡ o
      → finalize D g layers r ≡ with_shards D g layers o (with_caches D M g layers r)
  finalize-checked r o on no_cache some_layer q =
      finalize-runs D M g layers r on no_cache some_layer
      ∙ ap (λ (p : Option (List Fd)). with_shards D g layers p (with_caches D M g layers r)) q

  -- The head, from what `finalize` left.
  abbrev goes_on :
      Bool → ℕ → Runtime D.Double W → Runtime D.Double W → Outcome (Runtime D.Double W × Bool)
  goes_on on il r s =
      if not on || false
      then done (r, false)
      else if is_empty s.caches || (ltb_ℤ (pos il) (pos 0) || leb (length s.caches) il)
      then done (s, false)
      else head_of D g layers (layer_ready (lookup (pos il) layers)) s

  goes_on-serves :
      (il : ℕ) (l : LayerSlabs) (r s : Runtime D.Double W)
      → r.enabled ≡ true
      → il < length s.caches
      → lookup (pos il) layers ≡ some l
      → l.ready ≡ true
      → goes_on r.enabled il r s ≡ head_of D g layers true s
  goes_on-serves il l r s on inside here ready =
      if_intro P (not r.enabled || false) _ _ (λ b. absurd (ground (arith, on, b)))
        (λ b.
          if_intro P (is_empty s.caches || (ltb_ℤ (pos il) (pos 0) || leb (length s.caches) il)) _ _
            (λ c. absurd (ground (arith, c, inside, some_cache s.caches (omega (arith, inside)))))
            (λ c.
              ap (λ (o : Option LayerSlabs). head_of D g layers (layer_ready o) s) here
              ∙ ap (λ (d : Bool). head_of D g layers d s) ready))
    where
      P : Outcome (Runtime D.Double W × Bool) → Type 0
      P x = x ≡ head_of D g layers true s

  remap_head-serves :
      (r : Runtime D.Double W) (il : ℕ) (l : LayerSlabs) (o : Option (List Fd))
      → r.enabled ≡ true
      → r.caches ≡ []
      → is_empty layers ≡ false
      → check_shards layers g.shards ≡ o
      → il < length (make_caches D g layers)
      → lookup (pos il) layers ≡ some l
      → l.ready ≡ true
      → remap_head D g layers false (pos il) r
        ≡ head_of D g layers true (with_shards D g layers o (with_caches D M g layers r))
  unfolding remap_head
  remap_head-serves r il l o on no_cache some_layer checks inside here ready =
      ap (goes_on r.enabled il r) (
        ap (λ (b : Bool). if b then finalize D g layers r else r) (ap is_empty no_cache)
        ∙ finalize-checked r o on no_cache some_layer checks)
      ∙ goes_on-serves il l r (with_shards D g layers o (with_caches D M g layers r)) on
          (caches_kept o) here ready
    where
      caches_kept :
          (p : Option (List Fd))
          → il < length (with_shards D g layers p (with_caches D M g layers r)).caches
      caches_kept none = inside
      caches_kept (some fds) = inside

  head_of-Overruns :
      (t : Runtime D.Double W)
      → Overruns (ensure_zero_slot D g layers t)
      → Overruns (head_of D g layers true t)
  head_of-Overruns t over = >>=-Overruns (ensure_zero_slot D g layers t) _ over

  -- With an empty vector, and a layer whose gate is there.
  ensure_zero_slot-Overruns :
      (t : Runtime D.Double W) (il : ℕ) (l : LayerSlabs)
      → t.zero_filled ≡ false
      → t.maxb ≡ 0
      → is_empty layers ≡ false
      → lookup (pos il) layers ≡ some l
      → (l.gate.present && g.has_buffer (pos il) 0) ≡ true
      → 0 < l.gate.expert_bytes
      → Overruns (ensure_zero_slot D g layers t)
  unfolding ensure_zero_slot
  ensure_zero_slot-Overruns t il l fresh none_known some_layer here there some_byte =
      if_intro Overruns (t.zero_filled || is_empty layers) _ _
        (λ b. absurd (ground (arith, b, fresh, some_layer)))
        (λ b. >>=-Overruns (zero_layers g.tensor_set g.has_buffer t.maxb g.slots layers t.slabs) _ (
          subst
            (λ (m : ℕ). Overruns (zero_layers g.tensor_set g.has_buffer m g.slots layers t.slabs))
            (sym none_known)
            (zero_layers-Overruns g.tensor_set g.has_buffer g.slots layers (pos il) l t.slabs here
              there some_byte)))

  -- With a vector that is large enough; nothing but the slabs changes.
  ensure_zero_slot-done :
      (t : Runtime D.Double W)
      → AllBounded t.maxb layers
      → (u : Runtime D.Double W) × (ensure_zero_slot D g layers t ≡ done u)
        × (u.enabled ≡ t.enabled)
        × (u.fds ≡ t.fds)
  unfolding ensure_zero_slot
  ensure_zero_slot-done t h =
      if_intro P (t.zero_filled || is_empty layers) _ _ (λ b. (t, refl, refl, refl))
        (λ b.
          let (s, q) = zero_layers-done g.tensor_set g.has_buffer t.maxb g.slots layers t.slabs h in
          (
            record t { zero_filled = true; slabs = s },
            ap (λ (o : Outcome Slabs). o >>= λ x. done (record t { zero_filled = true; slabs = x }))
                q,
            refl,
            refl,
          ))
    where
      P : Outcome (Runtime D.Double W) → Type 0
      P o = (u : Runtime D.Double W) × (o ≡ done u) × (u.enabled ≡ t.enabled) × (u.fds ≡ t.fds)

  -- The files passed the checks, and the call maps its ids with them; or they did not, the runtime is
  -- off and without files, and the zeros are read behind the end of an empty vector.
  abbrev pub HeadEnds : ℕ → Runtime D.Double W → Type 0
  HeadEnds il r =
      ((fds : List Fd) × (check_shards layers g.shards ≡ some fds)
        × (t : Runtime D.Double W) × (remap_head D g layers false (pos il) r ≡ done (t, true))
        × (t.enabled ≡ true)
        × (t.fds ≡ fds))
      ⊎ ((check_shards layers g.shards ≡ none)
          × ((finalize D g layers r).enabled ≡ false)
          × ((finalize D g layers r).fds ≡ [])
          × Overruns (remap_head D g layers false (pos il) r))

-- A runtime that is on and has not been started, and the first call of the remap operation for a
-- layer that is ready, whose gate has a buffer and some bytes. If the files pass the checks, the call
-- goes on to map its ids, with the files open. If they fail, `finalize` turns the runtime off and
-- closes the files, and the call does not pass its ids on, but goes on to fill the slot of the null
-- expert, where it reads more bytes than there are in a vector of none.
pub remap_head-HeadEnds :
    (D : Doubles) {W : Type 0} (M : Model W) (g : Given D.Double) (layers : List (ℤ × LayerSlabs))
    (r : Runtime D.Double W) (il : ℕ) (l : LayerSlabs)
    → r.enabled ≡ true
    → r.caches ≡ []
    → r.zero_filled ≡ false
    → r.maxb ≡ 0
    → is_empty layers ≡ false
    → 0 < g.slots
    → g.slots < no_slot
    → il < n_layers layers
    → lookup (pos il) layers ≡ some l
    → l.ready ≡ true
    → (l.gate.present && g.has_buffer (pos il) 0) ≡ true
    → 0 < l.gate.expert_bytes
    → HeadEnds D M g layers il r
remap_head-HeadEnds D {W = W} M g layers r il l on no_cache fresh none_known some_layer some_slot
      few inside here ready there some_byte =
    elim (Option-cases (check_shards layers g.shards)) [
      | inl wrong ↦ inr (
        wrong,
        ap (λ (t : Runtime D.Double W). t.enabled) (left none wrong),
        ap (λ (t : Runtime D.Double W). t.fds) (left none wrong),
        subst Overruns (sym (head none wrong)) (
            head_of-Overruns D M g layers (after none) (
              ensure_zero_slot-Overruns D M g layers (after none) il l fresh none_known some_layer
                here there some_byte)),
      )
      | inr (fds, right) ↦
          let (u, q, e, f) =
            ensure_zero_slot-done D M g layers (after (some fds)) (max_bytes-AllBounded 0 layers) in
          inl (
            fds,
            right,
            u,
            head (some fds) right
                ∙ ap (λ (o : Outcome (Runtime D.Double W)). o >>= λ t. done (t, true)) q,
            e ∙ on,
            f,
          )
    ]
  where
    after : Option (List Fd) → Runtime D.Double W
    after o = with_shards D g layers o (with_caches D M g layers r)

    left :
        (o : Option (List Fd)) → check_shards layers g.shards ≡ o → finalize D g layers r ≡ after o
    left o q = finalize-checked D M g layers r o on no_cache some_layer q

    head :
        (o : Option (List Fd))
        → check_shards layers g.shards ≡ o
        → remap_head D g layers false (pos il) r ≡ head_of D g layers true (after o)
    head o q =
        remap_head-serves D M g layers r il l o on no_cache some_layer q
          (omega (arith, (make_caches-AllInv D g layers some_slot few).1, inside)) here ready
