-- ===== src/Dense/Load/Graph.antt =====
-- The operation before a streamed layer: its arena has its weights, and keeps them while those of
-- the next layer are read.
use moestream.Prelude.{
  ℕ, ◌+◌, ◌%◌, ◌^◌, ◌<◌, ◌≡◌, ◌≢◌, refl, sym, ap, ◌∙◌, subst, Bool, true, not, ◌||◌, Option, none,
  some, List, ltb, if_intro, arith,
}
use native.Mathlib.Nat.{mod-lt}
use moestream.Prelude.Int.{pos, ltb_ℤ}
use moestream.Cache.Doubles.{Doubles}
use moestream.Prefill.Pass.{is_layer}
use moestream.Prefill.Graph.Laws.{next-differs}
use moestream.Dense.Info.{DenseInfo}
use moestream.Dense.Load.{
  Tables, Dense, streamed, dense_load_layer, join_load, dn_wait, dn_kick, count_dn_hit,
  ms_dnload_fn,
}
use moestream.Dense.Load.Weights.{Holds, Reads}
use moestream.Dense.Load.Laws.{
  AllInside, AllLaid, Filled, SameSetup, dense_load_layer-SameSetup, dense_load_layer-other,
  dense_load_layer-Filled, dense_load_layer-Holds,
}

module _ (D : Doubles) (T : Tables) (reads : Reads T) (inside : AllInside T) (size : ℕ)
    (laid : AllLaid size T) where
  open D use {Double}

  -- The path is on, all its arenas are there.
  abbrev pub Ready : Dense Double → Type 0
  Ready st =
      (st.dn_ready ≡ true) × (0 < st.dn_nbuf) × ((b : ℕ) → b < st.dn_nbuf → st.has_host b ≡ true)

  -- A thread exists only if there are two arenas.
  abbrev pub Idle : Dense Double → Type 0
  Idle st = st.dn_nbuf < 2 → st.dn_thread ≡ none

  abbrev pub Good : Dense Double → Type 0
  Good st = Filled D T st × Ready st × Idle st

  Ready-SameSetup : (s t : Dense Double) → SameSetup D T s t → Ready s → Ready t
  Ready-SameSetup s t (on, n, host, thread) (ready, some_arena, all) =
      (on ∙ ready, omega arith, λ b h. ap (λ (f : ℕ → Bool). f b) host ∙ all b (omega arith))

  load_Good :
      (il : ℕ) (dt : Double) (s : Dense Double)
      → Good s
      → Good (dense_load_layer T D il dt s) × SameSetup D T s (dense_load_layer T D il dt s)
  load_Good il dt s (f, r, i) =
      let same = dense_load_layer-SameSetup D T il dt s in
      let after = dense_load_layer T D il dt s in
      (
        (
          dense_load_layer-Filled D T il dt s reads inside size laid f,
          Ready-SameSetup s after same r,
          λ few. same.3 ∙ i (omega (arith, same.1)),
        ),
        same,
      )

  join_load-Good :
      (o : Option ℕ) (dt : Double) (s : Dense Double)
      → Good s
      → Good (join_load T D o dt s) × SameSetup D T s (join_load T D o dt s)
  join_load-Good none dt s g = (g, (refl, refl, refl, refl))
  join_load-Good (some il) dt s g = load_Good il dt s g

  dn_wait-Good :
      (dt : Double) (s : Dense Double)
      → Good s
      → Good (dn_wait T D dt s)
        × ((dn_wait T D dt s).dn_nbuf ≡ s.dn_nbuf)
        × ((dn_wait T D dt s).dn_thread ≡ none)
  unfolding dn_wait
  dn_wait-Good dt s g =
      let ((f, r, i), same) = join_load-Good s.dn_thread dt s g in
      ((f, r, λ few. refl), same.1, refl)

  dn_wait-host :
      (dt : Double) (s : Dense Double) → s.dn_thread ≡ none → (dn_wait T D dt s).host ≡ s.host
  unfolding dn_wait
  dn_wait-host dt s h = ap (λ (o : Option ℕ). (join_load T D o dt s).host) h

  module _ (il : ℕ) (dt : Double) (st : Dense Double) where
    abbrev started : Dense Double
    started = record (dn_wait T D dt st) { dn_inflight = pos il; dn_thread = some il }

    dn_kick-cases {ℓ} :
        (P : Dense Double → Type ℓ) → P st → (1 < st.dn_nbuf → P started) → P (dn_kick T D il dt st)
    unfolding dn_kick
    dn_kick-cases P idle start =
        if_intro P (not st.dn_ready || ltb st.dn_nbuf 2) _ _ (λ a. idle)
          (λ a.
            if_intro P (not (streamed T.dn_first il) || not (ltb_ℤ (pos il) T.dn_nlayer)) st started
              (λ b. idle) (λ b. start (ground arith)))

    dn_kick-Good : Good st → Good (dn_kick T D il dt st)
    dn_kick-Good g = dn_kick-cases Good g (λ two.
        let ((f, r, i), n, t) = dn_wait-Good dt st g in (f, r, λ few. absurd (omega (arith, n))))

    -- The thread that was started writes to the arena of its layer.
    dn_kick-then :
        (later : Double) (b : ℕ)
        → Good st
        → st.dn_thread ≡ none
        → (1 < st.dn_nbuf → b ≢ il % st.dn_nbuf)
        → ((dn_kick T D il dt st).host b ≡ st.host b)
          × ((dn_wait T D later (dn_kick T D il dt st)).host b ≡ st.host b)
    unfolding dn_wait
    dn_kick-then later b g t q =
        dn_kick-cases
          (λ (s : Dense Double).
            (s.host b ≡ st.host b) × ((dn_wait T D later s).host b ≡ st.host b))
          (refl, ap (λ (f : ℕ → ℕ → ℕ). f b) (dn_wait-host later st t))
          (λ two.
            let now = ap (λ (f : ℕ → ℕ → ℕ). f b) (dn_wait-host dt st t) in
            let (g2, n, t2) = dn_wait-Good dt st g in
            (
              now,
              dense_load_layer-other D T il later started b
                    (λ e. q two (e ∙ ap (λ (k : ℕ). il % k) n))
                  ∙ now,
            ))

  module _ (ud : ℕ) (there here : Double) (st : Dense Double) where
    abbrev il : ℕ
    il = ud % 2 ^ 16

    abbrev waited : Dense Double
    waited = dn_wait T D there st

    abbrev fetched : Dense Double
    fetched = count_dn_hit T D (is_layer st.dn_inflight il) (dense_load_layer T D il here waited)

    fetched-facts :
        Good st → Good fetched × (fetched.dn_nbuf ≡ st.dn_nbuf) × (fetched.dn_thread ≡ none)
    fetched-facts g =
        let (wg, wn, wt) = dn_wait-Good there st g in
        let (fg, same) = load_Good il here waited wg in
        let (f, r, i) = fg in
        if_intro (λ (s : Dense Double). Good s × (s.dn_nbuf ≡ st.dn_nbuf) × (s.dn_thread ≡ none))
          (is_layer st.dn_inflight il) _ _ (λ b. ((f, r, i), same.1 ∙ wn, same.3 ∙ wt))
          (λ b. ((f, r, i), same.1 ∙ wn, same.3 ∙ wt))

    pub ms_dnload_fn-Good : Good st → Good (ms_dnload_fn T D ud there here st)
    unfolding ms_dnload_fn
    ms_dnload_fn-Good g =
        if_intro Good (not st.dn_ready) st (dn_kick T D (il + 1) here fetched) (λ a. g)
          (λ a. dn_kick-Good (il + 1) here fetched (fetched-facts g).0)

    -- The shards are regular files that read without error, `pread` returns at most what was asked
    -- for, every valid weight lies inside its shard, the views are laid out in the arenas, and the
    -- state keeps the path's invariant: after the operation before a
    -- streamed layer each of its valid weights whose file is open has its bytes of the file at its
    -- place in the layer's arena, and still has after the load of the next layer that may run in
    -- the background.
    pub ms_dnload_fn-Holds :
        (ms vs : List DenseInfo) (later : Double)
        → Good st
        → T.meta il ≡ some ms
        → T.view il ≡ some vs
        → let after = ms_dnload_fn T D ud there here st in
          Holds T ms vs (after.host (il % st.dn_nbuf))
          × Holds T ms vs ((dn_wait T D later after).host (il % st.dn_nbuf))
    unfolding ms_dnload_fn
    ms_dnload_fn-Holds ms vs later g m v =
        if_intro Both (not st.dn_ready) st (dn_kick T D (il + 1) here fetched)
          (λ a. absurd (ground (arith, g.1.0)))
          (λ a.
            let (h, w) =
              dn_kick-then (il + 1) here fetched later (il % st.dn_nbuf) good no_thread apart in
            (subst (Holds T ms vs) (sym h) now, subst (Holds T ms vs) (sym w) now))
      where
        Both : Dense Double → Type 0
        Both s =
            Holds T ms vs (s.host (il % st.dn_nbuf))
            × Holds T ms vs ((dn_wait T D later s).host (il % st.dn_nbuf))

        good : Good fetched
        good = (fetched-facts g).0

        no_thread : fetched.dn_thread ≡ none
        no_thread = (fetched-facts g).2

        apart : 1 < fetched.dn_nbuf → il % st.dn_nbuf ≢ (il + 1) % fetched.dn_nbuf
        apart two q =
            next-differs il st.dn_nbuf (omega (arith, (fetched-facts g).1))
              (q ∙ ap (λ (k : ℕ). (il + 1) % k) (fetched-facts g).1)

        at_wait : Good waited × (waited.dn_nbuf ≡ st.dn_nbuf) × (waited.dn_thread ≡ none)
        at_wait = dn_wait-Good there st g

        read : Holds T ms vs ((dense_load_layer T D il here waited).host (il % waited.dn_nbuf))
        read =
            let (f, (ready, some_arena, all), i) = at_wait.0 in
            dense_load_layer-Holds D T il here waited reads inside size laid ms vs f ready
              (all (il % waited.dn_nbuf) (omega (arith, mod-lt il {m = waited.dn_nbuf} some_arena)))
              m v

        now : Holds T ms vs (fetched.host (il % st.dn_nbuf))
        now =
            subst (λ (k : ℕ). Holds T ms vs (fetched.host (il % k))) at_wait.1
              (if_intro (λ (s : Dense Double). Holds T ms vs (s.host (il % waited.dn_nbuf)))
                (is_layer st.dn_inflight il) _ _ (λ b. read) (λ b. read))
