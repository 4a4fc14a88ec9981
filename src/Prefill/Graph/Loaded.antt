-- ===== src/Prefill/Graph/Loaded.antt =====
-- The load operation of a layer: every id of the batch that is in range, of an expert whose reads
-- succeed, has its weights in the layer's arena, and the load of the next layer in the background
-- leaves them there.
use moestream.Prelude.{
  ℕ, ◌+◌, ◌*◌, ◌%◌, ◌^◌, ◌<◌, ◌≡◌, refl, sym, ap, ◌∙◌, subst, Bool, true, false, ◌&&◌, Option, none,
  some, leb, ◌==◌, if_intro, arith,
}
use native.Mathlib.Nat.{mod-lt}
use moestream.Prelude.Int.{ℤ, pos}
use moestream.Cache.Doubles.{Doubles}
use moestream.Remap.Ids.{expert_of}
use moestream.Prefill.State.{Marks, Prefill}
use moestream.Prefill.Pass.{Clock}
use moestream.Prefill.Load.{Model, asks, load_layer_arena}
use moestream.Prefill.Load.Laws.{Succeeds}
use moestream.Prefill.Load.Arenas.{load_layer_arena-loaded}
use moestream.Prefill.Load.Setup.{SameSetup}
use moestream.Prefill.Ids.{Ids, copy_ids, note_union}
use moestream.Prefill.Ids.Laws.{copy_ids-out, copy_ids-need}
use moestream.Prefill.Graph.{given, pf_wait, pf_kick, experts_of, load_for, ms_pfload_fn}
use moestream.Prefill.Graph.Laws.{
  next-differs, Good, pf_wait-Good, pf_wait-arena, pf_kick-then, fetched, plain, load_Good,
  load_for-Good,
}

module _ (D : Doubles) {W : Type 0} (M : Model W) where
  open D use {Double}

  module _ (il n e r : ℕ) (need : Marks) (there here clock : Clock Double) where
    load_lem :
        (s : Prefill Double W)
        → Good D M s
        → M.in_full il ≡ true
        → M.layers il ≡ some n
        → e < n
        → asks (given need) e ≡ true
        → r < 3
        → Succeeds D M il r e
        → (load_layer_arena D M il (given need) here s).arena (il % s.pf_nbuf) r e
          ≡ M.weights il r e
    load_lem s (f, (ready, some_arena, inside), i) full known =
        load_layer_arena-loaded D M il (given need) here s n e r f ready
          (omega (arith, mod-lt il {m = s.pf_nbuf} some_arena)) some_arena full known

    module _ (nt : ℕ) (st : Prefill Double W) where
      -- The weights are in arena `b` now, and when the thread that may run is joined.
      abbrev Stays : Prefill Double W → Type 0
      Stays s =
          (s.arena (il % st.pf_nbuf) r e ≡ M.weights il r e)
          × ((pf_wait D M clock s).arena (il % st.pf_nbuf) r e ≡ M.weights il r e)

      load_for-Stays :
          Good D M st
          → M.in_full il ≡ true
          → M.layers il ≡ some n
          → e < n
          → asks (given need) e ≡ true
          → r < 3
          → Succeeds D M il r e
          → Stays (load_for D M il nt need there here st)
      unfolding load_for
      load_for-Stays g full known below asked h ok =
          if_intro Stays (st.pf_async && leb 2 st.pf_nbuf) _ pl
            (λ b.
              if_intro Stays (leb 256 nt) (pf_kick D M (il + 1) here fe) fe (λ c. kept b)
                (λ c. (now, at_rest fe no_thread now)))
            (λ b.
              let t = (load_Good D M il nt need there here st st g).1.4 ∙ g.2 b in
              let p = load_lem st g full known below asked h ok in (p, at_rest pl t p))
        where
          waited : Prefill Double W
          waited = pf_wait D M there st

          fe : Prefill Double W
          fe = fetched D M il nt need there here st

          pl : Prefill Double W
          pl = plain D M il nt need there here st

          after_wait :
              Good D M waited
              × (waited.pf_nbuf ≡ st.pf_nbuf)
              × (waited.pf_async ≡ st.pf_async)
              × (waited.pf_thread ≡ none)
          after_wait = pf_wait-Good D M there st g

          after_load : Good D M fe × SameSetup D M waited fe
          after_load = load_Good D M il nt need there here st waited after_wait.0

          at_rest :
              (s : Prefill Double W)
              → s.pf_thread ≡ none
              → s.arena (il % st.pf_nbuf) r e ≡ M.weights il r e
              → (pf_wait D M clock s).arena (il % st.pf_nbuf) r e ≡ M.weights il r e
          at_rest s t p =
              ap (λ (f : ℕ → ℕ → ℕ → W). f (il % st.pf_nbuf) r e) (pf_wait-arena D M clock s t) ∙ p

          now : fe.arena (il % st.pf_nbuf) r e ≡ M.weights il r e
          now =
              ap (λ (k : ℕ). fe.arena (il % k) r e) (sym after_wait.1)
              ∙ load_lem waited after_wait.0 full known below asked h ok

          no_thread : fe.pf_thread ≡ none
          no_thread = after_load.1.4 ∙ after_wait.3

          kept : (st.pf_async && leb 2 st.pf_nbuf) ≡ true → Stays (pf_kick D M (il + 1) here fe)
          kept b =
              let two : 1 < st.pf_nbuf = ground arith in
              let apart = next-differs il st.pf_nbuf two in
              let same_count = after_load.1.1 ∙ after_wait.1 in
              let (k1, k2) =
                pf_kick-then D M (il + 1) here fe clock (il % st.pf_nbuf) after_load.0 no_thread
                  (λ q. apart (q ∙ ap (λ (k : ℕ). (il + 1) % k) same_count)) in
              (ap (λ (x : ℕ → ℕ → W). x r e) k1 ∙ now, ap (λ (x : ℕ → ℕ → W). x r e) k2 ∙ now)

  asks-given : (m : Marks) (e : ℕ) → m.mark e ≡ true → asks (given m) e ≡ true
  asks-given m e h =
      if_intro (λ (o : Option Marks). asks o e ≡ true) (m.size == 0) none (some m) (λ b. refl)
        (λ b. h)

  note_union-Good :
      (il nt : ℕ) (need : Marks) (st : Prefill Double W)
      → Good D M st
      → Good D M (note_union il nt need st) × ((note_union il nt need st).pf_nbuf ≡ st.pf_nbuf)
  unfolding note_union
  note_union-Good il nt need st g =
      if_intro (λ (t : Prefill Double W). Good D M t × (t.pf_nbuf ≡ st.pf_nbuf)) _ _ st
        (λ b. (g, refl)) (λ b. (g, refl))

  module _ (ud : ℕ) (a : Ids) (out : ℕ → ℤ) (there here : Clock Double)
      (st : Prefill Double W) where
    abbrev il : ℕ
    il = ud % 2 ^ 16

    abbrev need : Marks
    need = record {
      size = experts_of D M (M.layers il);
      mark = (copy_ids a (experts_of D M (M.layers il)) out).need;
    }

    -- The state before the load.
    abbrev noted : Prefill Double W
    noted = note_union il a.nt need (record st { seen_topk = a.tk })

    noted-Good : Good D M st → Good D M noted × (noted.pf_nbuf ≡ st.pf_nbuf)
    noted-Good = note_union-Good il a.nt need (record st { seen_topk = a.tk })

    -- The operation keeps the invariant of the path: every marked expert whose reads
    -- succeed has its weights in its arena, the path is on with as many arenas as the layers are spread over, and a thread is
    -- there only if the path loads in the background.
    pub ms_pfload_fn-Good :
        (present : Bool)
        → Good D M st
        → Good D M (ms_pfload_fn D M ud present a out there here st).0
    unfolding ms_pfload_fn
    ms_pfload_fn-Good true g = load_for-Good D M il a.nt need there here noted (noted-Good g).0
    ms_pfload_fn-Good false g = g

    -- For an id in range, of an expert whose reads succeed, of a layer that has its tensors, on a
    -- state that keeps the path's invariant: the operation writes the id to its place in the output, and the expert has its
    -- weights in the layer's arena, after the operation and also after the load of the next layer
    -- that may run in the background.
    pub ms_pfload_fn-serves :
        (n e r j k : ℕ) (clock : Clock Double)
        → Good D M st
        → M.in_full il ≡ true
        → M.layers il ≡ some n
        → j < a.nt
        → k < a.tk
        → a.ids j k ≡ pos e
        → e < n
        → r < 3
        → Succeeds D M il r e
        → let after = ms_pfload_fn D M ud true a out there here st in
          let bi = il % st.pf_nbuf in
          (after.1 (j * a.tk + k) ≡ pos e)
          × (after.0.arena bi r e ≡ M.weights il r e)
          × ((pf_wait D M clock after.0).arena bi r e ≡ M.weights il r e)
    unfolding ms_pfload_fn
    ms_pfload_fn-serves n e r j k clock g full known row column named below h ok =
        let (now, later) =
          subst
            (λ (count : ℕ).
              (after.arena (il % count) r e ≡ M.weights il r e)
              × ((pf_wait D M clock after).arena (il % count) r e ≡ M.weights il r e))
            (noted-Good g).1
            (load_for-Stays il n e r need there here clock a.nt noted (noted-Good g).0 full known
              below asked h ok) in
        (copied, now, later)
      where
        after : Prefill Double W
        after = load_for D M il a.nt need there here noted

        copied : (copy_ids a need.size out).out (j * a.tk + k) ≡ pos e
        copied = (copy_ids-out a need.size out).0 j k row column ∙ named

        all_known : need.size ≡ n
        all_known = ap (λ (o : Option ℕ). experts_of D M o) known

        is_named : expert_of need.size (a.ids j k) ≡ some e
        is_named = ap (expert_of need.size) named ∙ ground (arith, all_known)

        asked : asks (given need) e ≡ true
        asked =
            asks-given need e ((copy_ids-need a need.size out e).1 (j, k, row, column, is_named))
