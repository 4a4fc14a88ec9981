-- ===== src/Prefill/Load/Arenas.antt =====
-- The arenas over a load: the marks of the experts whose reads succeed stay true, every such expert
-- that is asked for is there afterwards, and the arenas of the other residues are untouched.
use moestream.Prelude.{
  ℕ, ◌%◌, ◌<◌, ◌≤◌, ◌≡◌, ◌≢◌, refl, sym, ap, ◌∙◌, subst, inl, inr, Bool, true, false, not, Option,
  none, some, List, elem, ltb, ◌==◌, if◌then◌else◌, if_intro, if_both, Bool-cases, arith,
}
use native.Mathlib.Decide.{ℕ_discrete}
use moestream.Prelude.Int.{ℤ, pos, negsuc}
use moestream.Cache.Doubles.{Doubles}
use moestream.Prefill.State.{Marks, Prefill}
use moestream.Prefill.Pass.{is_layer, Clock, note_pass}
use moestream.Prefill.Load.{
  Model, asks, have_now, read_now, fill_arena, load_found, load_layer_arena,
}
use moestream.Prefill.Load.Laws.{
  elem-missing, Succeeds, Filled, fill_arena-other, fill_arena-layer, fill_arena-have,
  fill_arena-get, es,
}

pub is_layer-eq : (v : ℤ) (il : ℕ) → is_layer v il ≡ true → v ≡ pos il
is_layer-eq (pos k) il h = ap pos (ground arith)
is_layer-eq (negsuc k) il h = ground arith

pub pos-eq : (a b : ℕ) → pos a ≡ pos b → a ≡ b
pos-eq a b q = ap (λ (v : ℤ). elim v [ pos k ↦ k | negsuc k ↦ 0 ]) q

module _ (D : Doubles) {W : Type 0} (M : Model W) where
  open D use {Double}

  module _ (il bi n : ℕ) (need : Option Marks) (clock : Clock Double) (st : Prefill Double W) where
    abbrev after : Prefill Double W
    after = fill_arena D M il bi n need clock st

    have_now-layer :
        (e : ℕ)
        → have_now D M il bi st e ≡ true
        → (st.arena_layer bi ≡ pos il) × (st.arena_have bi e ≡ true)
    have_now-layer e h =
        let (same, has) = if_both (is_layer (st.arena_layer bi) il) (st.arena_have bi e) h in
        (is_layer-eq (st.arena_layer bi) il same, has)

    -- The marks of the arena that was loaded are true, for reads that succeed.
    fill_arena-marked :
        (e r : ℕ)
        → Filled D M st
        → after.arena_have bi e ≡ true
        → r < 3
        → Succeeds D M il r e
        → after.arena bi r e ≡ M.weights il r e
    fill_arena-marked e r f has h ok = elim (Bool-cases (elem e read)) [
      | inl new ↦ got ∙ ap choose new ∙ ok st.counters.pf_loads (st.arena bi r e)
      | inr old ↦
          let (same, there) =
            have_now-layer e (ground (arith, fill_arena-have D M il bi n need clock st e)) in
          got ∙ ap choose old ∙ f bi e r il same there h ok
    ]
      where
        read : List ℕ
        read = es D M il bi n need clock st

        choose : Bool → W
        choose b = if b then read_now D M il bi st r e else st.arena bi r e

        got : after.arena bi r e ≡ choose (elem e read)
        got = fill_arena-get D M il bi n need clock st r e h

    fill_arena-Filled : Filled D M st → Filled D M after
    fill_arena-Filled f b e r k at has h ok = elim (ℕ_discrete b bi) [
      | yes q ↦
          let il_k = pos-eq il k (
            sym (fill_arena-layer D M il bi n need clock st) ∙ ap after.arena_layer (sym q) ∙ at) in
          ap (λ (i : ℕ). after.arena i r e) q
          ∙ fill_arena-marked e r f (ap (λ (i : ℕ). after.arena_have i e) (sym q) ∙ has) h
              (subst (λ (i : ℕ). Succeeds D M i r e) (sym il_k) ok)
          ∙ ap (λ (i : ℕ). M.weights i r e) il_k
      | no q ↦
          let (content, layer, marks) = fill_arena-other D M il bi n need clock st b q in
          ap (λ (g : ℕ → ℕ → W). g r e) content
          ∙ f b e r k (sym layer ∙ at) (ap (λ (g : ℕ → Bool). g e) (sym marks) ∙ has) h ok
    ]

    -- The experts below `n` that are asked for are there, if their reads succeed.
    fill_arena-loaded :
        (e r : ℕ)
        → Filled D M st
        → e < n
        → asks need e ≡ true
        → r < 3
        → Succeeds D M il r e
        → (after.arena_have bi e ≡ true) × (after.arena bi r e ≡ M.weights il r e)
    fill_arena-loaded e r f below asked h ok = (there, fill_arena-marked e r f there h ok)
      where
        there : after.arena_have bi e ≡ true
        there = ground (
          arith,
          fill_arena-have D M il bi n need clock st e,
          elem-missing n e need (have_now D M il bi st),
        )

  module _ (il bi : ℕ) (need : Option Marks) (clock : Clock Double) where
    load_found-Filled :
        (full : Bool) (found : Option ℕ) (st : Prefill Double W)
        → Filled D M st
        → Filled D M (load_found D M il bi full found need clock st)
    unfolding load_found
    load_found-Filled true (some n) st f = fill_arena-Filled il bi n need clock st f
    load_found-Filled true none st f = f
    load_found-Filled false found st f = f

    load_found-other :
        (full : Bool) (found : Option ℕ) (b : ℕ) (st : Prefill Double W)
        → b ≢ bi
        → (load_found D M il bi full found need clock st).arena b ≡ st.arena b
    unfolding load_found
    load_found-other true (some n) b st q = (fill_arena-other D M il bi n need clock st b q).0
    load_found-other true none b st q = refl
    load_found-other false found b st q = refl

  module _ (il : ℕ) (need : Option Marks) (clock : Clock Double) (st : Prefill Double W) where
    abbrev pub noted : Prefill Double W
    noted = record st { times = note_pass D il st.pf_ntok_seen clock st.times }

    abbrev pub loaded : Prefill Double W
    loaded = load_layer_arena D M il need clock st

    abbrev pub found : Prefill Double W
    found = load_found D M il (il % st.pf_nbuf) (M.in_full il) (M.layers il) need clock noted

    -- The four ways through the call.
    pub load_layer_arena-cases {ℓ} :
        (P : Prefill Double W → Type ℓ)
        → P st
        → P noted
        → (0 < st.pf_nbuf → st.n_arena ≤ il % st.pf_nbuf → P (record noted { pf_ready = false }))
        → P found
        → P loaded
    unfolding load_layer_arena
    load_layer_arena-cases P idle none_given bad fill =
        if_intro P (not st.pf_ready) _ _ (λ b. idle)
          (λ b.
            if_intro P (st.pf_nbuf == 0) _ _ (λ b. none_given)
              (λ b.
                if_intro P (not (ltb (il % st.pf_nbuf) st.n_arena)) _ _
                  (λ c. bad (ground arith) (ground arith)) (λ c. fill)))

    -- The marks of the experts whose reads succeed stay true, on every path.
    pub load_layer_arena-Filled : Filled D M st → Filled D M loaded
    load_layer_arena-Filled f =
        load_layer_arena-cases (Filled D M) f f (λ h k. f)
          (load_found-Filled il (il % st.pf_nbuf) need clock (M.in_full il) (M.layers il) noted f)

    -- A load leaves the arenas of the other residues as they were.
    pub load_layer_arena-other : (b : ℕ) → b ≢ il % st.pf_nbuf → loaded.arena b ≡ st.arena b
    load_layer_arena-other b q =
        load_layer_arena-cases (λ (t : Prefill Double W). t.arena b ≡ st.arena b) refl refl
          (λ h k. refl)
          (load_found-other il (il % st.pf_nbuf) need clock (M.in_full il) (M.layers il) b noted q)

    -- With the guards passed, the call is the filling of the arena.
    load_layer_arena-fills :
        (n : ℕ)
        → st.pf_ready ≡ true
        → il % st.pf_nbuf < st.n_arena
        → 0 < st.pf_nbuf
        → M.in_full il ≡ true
        → M.layers il ≡ some n
        → loaded ≡ fill_arena D M il (il % st.pf_nbuf) n need clock noted
    unfolding load_layer_arena load_found
    load_layer_arena-fills n ready inside given full known =
        if_intro (λ (t : Prefill Double W). t ≡ found) (not st.pf_ready) _ _
          (λ b. absurd (ground arith))
          (λ b.
            if_intro (λ (t : Prefill Double W). t ≡ found) (st.pf_nbuf == 0) _ _
              (λ c. absurd (ground arith))
              (λ c.
                if_intro (λ (t : Prefill Double W). t ≡ found)
                  (not (ltb (il % st.pf_nbuf) st.n_arena)) _ _ (λ d. absurd (ground arith))
                  (λ d. refl)))
        ∙ ap (λ (x : Bool). load_found D M il (il % st.pf_nbuf) x (M.layers il) need clock noted)
            full
        ∙ ap (λ (x : Option ℕ). load_found D M il (il % st.pf_nbuf) true x need clock noted) known

    -- Every expert of the layer that is asked for, and whose reads succeed, has its weights in the layer's arena.
    pub load_layer_arena-loaded :
        (n e r : ℕ)
        → Filled D M st
        → st.pf_ready ≡ true
        → il % st.pf_nbuf < st.n_arena
        → 0 < st.pf_nbuf
        → M.in_full il ≡ true
        → M.layers il ≡ some n
        → e < n
        → asks need e ≡ true
        → r < 3
        → Succeeds D M il r e
        → loaded.arena (il % st.pf_nbuf) r e ≡ M.weights il r e
    load_layer_arena-loaded n e r f ready inside given full known below asked h ok =
        ap (λ (t : Prefill Double W). t.arena (il % st.pf_nbuf) r e)
          (load_layer_arena-fills n ready inside given full known)
        ∙ (fill_arena-loaded il (il % st.pf_nbuf) n need clock noted e r f below asked h ok).1
