-- ===== src/Prefill/Graph/Laws.antt =====
-- The load operation of a layer: every id of the batch that is in range, of an expert whose reads
-- succeed, has its weights in the layer's arena, and the load of the next layer in the background
-- leaves them there.
use moestream.Prelude.{
  ℕ, ◌+◌, ◌%◌, ◌<◌, ◌≡◌, ◌≢◌, refl, sym, ap, ◌∙◌, Bool, false, not, ◌&&◌, ◌||◌, Option, none, some,
  ltb, leb, if_intro, arith,
}
use native.Mathlib.Nat.{mod-lt, mod-add-mod, mod-eq_of_lt, mod_self}
use native.Mathlib.Decide.{ℕ_discrete}
use moestream.Cache.Doubles.{Doubles}
use moestream.Prefill.State.{Marks, Background, Prefill}
use moestream.Prefill.Pass.{is_layer, Clock}
use moestream.Prefill.Load.{Model, load_layer_arena}
use moestream.Prefill.Load.Laws.{Filled}
use moestream.Prefill.Load.Arenas.{load_layer_arena-Filled, load_layer_arena-other}
use moestream.Prefill.Load.Setup.{Ready, SameSetup, load_layer_arena-SameSetup, Ready-SameSetup}
use moestream.Prefill.Graph.{
  given, pf_wait, pf_kick, join_thread, start_thread, is_known, count_async, load_for,
}

-- Two layers in a row have different arenas.
pub next-differs : (il n : ℕ) → 1 < n → il % n ≢ (il + 1) % n
next-differs il n h q = elim (ℕ_discrete (il % n + 1) n) [
  | yes last ↦ absurd (
      omega (
        arith,
        mod-add-mod il n 1,
        mod-lt il {m = n} (omega arith),
        mod_self n,
        ap (λ (i : ℕ). i % n) last,
      ))
  | no inner ↦ absurd (
      omega (
        arith,
        mod-add-mod il n 1,
        mod-eq_of_lt {n = il % n + 1} {m = n} (omega (arith, mod-lt il {m = n} (omega arith))),
      ))
]

module _ (D : Doubles) {W : Type 0} (M : Model W) where
  open D use {Double}

  -- A thread exists only if the path loads in the background, into two arenas at least.
  abbrev pub Idle : Prefill Double W → Type 0
  Idle st = (st.pf_async && leb 2 st.pf_nbuf) ≡ false → st.pf_thread ≡ none

  abbrev pub Good : Prefill Double W → Type 0
  Good st = Filled D M st × Ready D M st × Idle st

  Idle-SameSetup : (s t : Prefill Double W) → SameSetup D M s t → Idle s → Idle t
  Idle-SameSetup s t (on, n, k, a, thread) idle off =
      thread
      ∙ idle (
          ap (λ (x : Bool). x && leb 2 s.pf_nbuf) (sym a)
          ∙ ap (λ (x : ℕ). t.pf_async && leb 2 x) (sym n)
          ∙ off)

  join_thread-Good :
      (o : Option Background) (clock : Clock Double) (st : Prefill Double W)
      → Filled D M st
      → Ready D M st
      → Filled D M (join_thread D M o clock st) × SameSetup D M st (join_thread D M o clock st)
  join_thread-Good none clock st f r = (f, (refl, refl, refl, refl, refl))
  join_thread-Good (some b) clock st f r = (
    load_layer_arena-Filled D M b.layer (given b.hint) clock st f,
    load_layer_arena-SameSetup D M b.layer (given b.hint) clock st r.2,
  )

  pub pf_wait-Good :
      (clock : Clock Double) (st : Prefill Double W)
      → Good st
      → Good (pf_wait D M clock st)
        × ((pf_wait D M clock st).pf_nbuf ≡ st.pf_nbuf)
        × ((pf_wait D M clock st).pf_async ≡ st.pf_async)
        × ((pf_wait D M clock st).pf_thread ≡ none)
  unfolding pf_wait
  pf_wait-Good clock st (f, r, i) =
      let (filled, same) = join_thread-Good st.pf_thread clock st f r in
      (
        (
          filled,
          Ready-SameSetup D M st (join_thread D M st.pf_thread clock st) same r,
          λ off. refl,
        ),
        same.1,
        same.3,
        refl,
      )

  -- Without a thread, waiting changes no arena.
  pub pf_wait-arena :
      (clock : Clock Double) (st : Prefill Double W)
      → st.pf_thread ≡ none
      → (pf_wait D M clock st).arena ≡ st.arena
  unfolding pf_wait
  pf_wait-arena clock st h = ap (λ (o : Option Background). (join_thread D M o clock st).arena) h

  pf_wait-other :
      (clock : Clock Double) (st : Prefill Double W) (bk : Background) (b : ℕ)
      → st.pf_thread ≡ some bk
      → b ≢ bk.layer % st.pf_nbuf
      → (pf_wait D M clock st).arena b ≡ st.arena b
  unfolding pf_wait
  pf_wait-other clock st bk b h q =
      ap (λ (o : Option Background). (join_thread D M o clock st).arena b) h
      ∙ load_layer_arena-other D M bk.layer (given bk.hint) clock st b q

  module _ (il : ℕ) (here : Clock Double) (st : Prefill Double W) where
    abbrev kicked : Prefill Double W
    kicked = pf_kick D M il here st

    pf_kick-Good : Good st → Good kicked
    unfolding pf_kick
    pf_kick-Good g =
        if_intro Good (not st.pf_async || ltb st.pf_nbuf 2) _ _ (λ b. g)
          (λ b.
            if_intro Good (not (is_known D M (M.layers il))) st
              (start_thread D M il (pf_wait D M here st)) (λ c. g)
              (λ c.
                let ((f, r, i), n, a, t) = pf_wait-Good here st g in
                (f, r, λ off. absurd (ground (arith, n, a)))))

    -- What the thread that was started writes to is the arena of its layer.
    pub pf_kick-then :
        (clock : Clock Double) (b : ℕ)
        → Good st
        → st.pf_thread ≡ none
        → b ≢ il % st.pf_nbuf
        → (kicked.arena b ≡ st.arena b) × ((pf_wait D M clock kicked).arena b ≡ st.arena b)
    unfolding pf_kick
    pf_kick-then clock b g t q =
        if_intro P (not st.pf_async || ltb st.pf_nbuf 2) _ _ (λ h. idle)
          (λ h.
            if_intro P (not (is_known D M (M.layers il))) st
              (start_thread D M il (pf_wait D M here st)) (λ c. idle) (λ c. started))
      where
        P : Prefill Double W → Type 0
        P s = (s.arena b ≡ st.arena b) × ((pf_wait D M clock s).arena b ≡ st.arena b)

        idle : P st
        idle = (refl, ap (λ (f : ℕ → ℕ → ℕ → W). f b) (pf_wait-arena clock st t))

        started : P (start_thread D M il (pf_wait D M here st))
        started =
            let now = ap (λ (f : ℕ → ℕ → ℕ → W). f b) (pf_wait-arena here st t) in
            let (g2, n, a, none_left) = pf_wait-Good here st g in
            (
              now,
              pf_wait-other clock (start_thread D M il (pf_wait D M here st)) _ b refl
                    (λ e. q (e ∙ ap (λ (k : ℕ). il % k) n))
                  ∙ now,
            )

  module _ (il nt : ℕ) (need : Marks) (there here : Clock Double) (st : Prefill Double W) where
    -- The state after the load of a layer with a path that loads in the background.
    abbrev pub fetched : Prefill Double W
    fetched =
        count_async D M (is_layer st.pf_inflight il)
          (load_layer_arena D M il (given need) here (pf_wait D M there st))

    abbrev pub plain : Prefill Double W
    plain = load_layer_arena D M il (given need) here st

    pub load_Good :
        (s : Prefill Double W)
        → Good s
        → Good (load_layer_arena D M il (given need) here s)
          × SameSetup D M s (load_layer_arena D M il (given need) here s)
    load_Good s (f, r, i) =
        let same = load_layer_arena-SameSetup D M il (given need) here s r.2 in
        let after = load_layer_arena D M il (given need) here s in
        (
          (
            load_layer_arena-Filled D M il (given need) here s f,
            Ready-SameSetup D M s after same r,
            Idle-SameSetup s after same i,
          ),
          same,
        )

    pub load_for-Good : Good st → Good (load_for D M il nt need there here st)
    unfolding load_for
    load_for-Good g =
        if_intro Good (st.pf_async && leb 2 st.pf_nbuf) _ plain
          (λ b.
            if_intro Good (leb 256 nt) (pf_kick D M (il + 1) here fetched) fetched
              (λ c. pf_kick-Good (il + 1) here fetched fetched_Good) (λ c. fetched_Good))
          (λ b. (load_Good st g).0)
      where
        fetched_Good : Good fetched
        fetched_Good = (load_Good (pf_wait D M there st) (pf_wait-Good there st g).0).0
