-- ===== src/Prefill/Load/Setup.antt =====
-- A load does not change how many arenas there are, and turns the path off only if an arena is
-- missing.
use moestream.Prelude.{
  ℕ, ◌%◌, ◌<◌, ◌≤◌, ◌≡◌, refl, ◌∙◌, Bool, true, false, Option, none, some, ◌==◌, if_intro, arith,
}
use native.Mathlib.Nat.{mod-lt}
use moestream.Cache.Doubles.{Doubles}
use moestream.Prefill.State.{Marks, Prefill}
use moestream.Prefill.Pass.{Clock}
use moestream.Prefill.Load.{Model, count_load, fill_arena, load_found, load_layer_arena}
use moestream.Prefill.Load.Arenas.{load_layer_arena-cases, noted}

module _ (D : Doubles) {W : Type 0} (M : Model W) where
  open D use {Double}

  -- The path is on, and as many arenas as the layers are spread over were allocated.
  abbrev pub Ready : Prefill Double W → Type 0
  Ready st = (st.pf_ready ≡ true) × (0 < st.pf_nbuf) × (st.pf_nbuf ≤ st.n_arena)

  abbrev pub SameSetup : Prefill Double W → Prefill Double W → Type 0
  SameSetup s t =
      (t.pf_ready ≡ s.pf_ready)
      × (t.pf_nbuf ≡ s.pf_nbuf)
      × (t.n_arena ≡ s.n_arena)
      × (t.pf_async ≡ s.pf_async)
      × (t.pf_thread ≡ s.pf_thread)

  module _ (il : ℕ) (need : Option Marks) (clock : Clock Double) where
    count_load-SameSetup :
        (n reads : ℕ) (st : Prefill Double W) → SameSetup st (count_load D M il n reads clock st)
    unfolding count_load
    count_load-SameSetup n reads st =
        if_intro (λ (t : Prefill Double W). SameSetup st t) (reads == 0) _ _
          (λ b. (refl, refl, refl, refl, refl)) (λ b. (refl, refl, refl, refl, refl))

    load_found-SameSetup :
        (bi : ℕ) (full : Bool) (found : Option ℕ) (st : Prefill Double W)
        → SameSetup st (load_found D M il bi full found need clock st)
    unfolding load_found fill_arena
    load_found-SameSetup bi true (some n) st = count_load-SameSetup n _ _
    load_found-SameSetup bi true none st = (refl, refl, refl, refl, refl)
    load_found-SameSetup bi false found st = (refl, refl, refl, refl, refl)

    pub load_layer_arena-SameSetup :
        (st : Prefill Double W)
        → st.pf_nbuf ≤ st.n_arena
        → SameSetup st (load_layer_arena D M il need clock st)
    load_layer_arena-SameSetup st inside =
        load_layer_arena-cases D M il need clock st (SameSetup st) (refl, refl, refl, refl, refl)
          (refl, refl, refl, refl, refl)
          (λ given outside. absurd (omega (arith, mod-lt il {m = st.pf_nbuf} given)))
          (load_found-SameSetup (il % st.pf_nbuf) (M.in_full il) (M.layers il)
            (noted D M il need clock st))

  pub Ready-SameSetup : (s t : Prefill Double W) → SameSetup s t → Ready s → Ready t
  Ready-SameSetup s t (on, n, k, a, i) (ready, given, inside) =
      (on ∙ ready, omega arith, omega arith)
