-- ===== src/Prefill/Load/Laws.antt =====
-- What an arena has after a load: what the reads of the missing experts left, the marks set, and the
-- other arenas untouched.
use moestream.Prelude.{
  ℕ, zero, suc, ◌<◌, ◌≡◌, ◌≢◌, refl, ap, ◌∙◌, Bool, true, false, not, ◌&&◌, ◌||◌, Option, List, [],
  ◌∷◌, ◌++◌, update, update_at, update_ne, length, elem, ltb, ◌==◌, if◌then◌else◌, if_intro, arith,
}
use native.Mathlib.Decide.{ℕ_discrete}
use moestream.Prelude.Int.{ℤ, pos}
use moestream.Cache.Doubles.{Doubles}
use moestream.Remap.Jobs.Laws.{Staged, last_of, run_reads-direct}
use moestream.Prefill.State.{Marks, Prefill}
use moestream.Prefill.Pass.{Clock}
use moestream.Prefill.Load.{
  Model, asks, missing, arena_jobs, read_arena, count_load, have_now, read_now, fill_arena,
}

elem-append : (a : ℕ) (xs ys : List ℕ) → elem a (xs ++ ys) ≡ (elem a xs || elem a ys)
elem-append a [] ys = refl
elem-append a (x ∷ xs) ys = ground (arith, elem-append a xs ys)

elem-one : (e k : ℕ) (b : Bool) → elem e (if b then k ∷ [] else []) ≡ (b && e == k)
elem-one e k true = ground arith
elem-one e k false = refl

pub elem-missing :
    (n e : ℕ) (need : Option Marks) (have : ℕ → Bool)
    → elem e (missing n need have) ≡ (ltb e n && (asks need e && not (have e)))
unfolding missing
elem-missing zero e need have = ground arith
elem-missing (suc k) e need have = elem-append e (missing k need have) _ ∙ elim (ℕ_discrete e k) [
  | yes q ↦ ground (
    arith,
    elem-missing k e need have,
    elem-one e k (asks need k && not (have k)),
    ap (λ (i : ℕ). asks need i && not (have i)) q,
  )
  | no q ↦ ground (arith, elem-missing k e need have, elem-one e k (asks need k && not (have k)))
]

abbrev all_mapped : ℕ → ℕ → Bool
all_mapped role slot = true

arena_jobs-Staged : (es : List ℕ) → Staged all_mapped 0 (arena_jobs es)
unfolding arena_jobs
arena_jobs-Staged [] = tt
arena_jobs-Staged (e ∷ es) = (refl, refl, (refl, refl, (refl, refl, arena_jobs-Staged es)))

module _ {W : Type 0} (weights : ℕ → ℕ → W) where
  first_or_later :
      (f : ℕ → W) (e p : ℕ) (later : Bool) (w : W)
      → (if later then f p else if e == p then f e else w)
        ≡ (if if e == p then true else later then f p else w)
  first_or_later f e p later w = elim (ℕ_discrete e p) [
    | yes q ↦ ground (arith, ap f q)
    | no q ↦ ground arith
  ]

  last_of-arena_jobs :
      (es : List ℕ) (r p : ℕ) (w : W)
      → r < 3
      → last_of all_mapped weights r p (arena_jobs es) w ≡ (if elem p es then weights r p else w)
  unfolding arena_jobs
  last_of-arena_jobs [] r p w h = refl
  last_of-arena_jobs (e ∷ es) zero p w h =
      last_of-arena_jobs es 0 p _ h ∙ first_or_later (weights 0) e p (elem p es) w
  last_of-arena_jobs (e ∷ es) (suc zero) p w h =
      last_of-arena_jobs es 1 p _ h ∙ first_or_later (weights 1) e p (elem p es) w
  last_of-arena_jobs (e ∷ es) (suc (suc zero)) p w h =
      last_of-arena_jobs es 2 p _ h ∙ first_or_later (weights 2) e p (elem p es) w
  last_of-arena_jobs (e ∷ es) (suc (suc (suc r))) p w h = absurd (omega arith)

  read_arena-get :
      (es : List ℕ) (mem : ℕ → ℕ → W) (r e : ℕ)
      → r < 3
      → read_arena weights es mem r e ≡ (if elem e es then weights r e else mem r e)
  unfolding read_arena
  read_arena-get es mem r e h =
      run_reads-direct all_mapped weights (arena_jobs es) 0 r e _ (arena_jobs-Staged es) refl
      ∙ last_of-arena_jobs es r e (mem r e) h

-- Loading a layer, whatever the arenas have.
module _ (D : Doubles) {W : Type 0} (M : Model W) where
  open D use {Double}

  -- The read of a member of an expert gets all of its bytes, whenever it is tried.
  abbrev pub Succeeds : ℕ → ℕ → ℕ → Type 0
  Succeeds k r e = (t : ℕ) (w : W) → M.read t k r e w ≡ M.weights k r e

  -- The experts that are marked in the arena of a layer, and whose reads succeed, have that layer's
  -- weights there.
  abbrev pub Filled : Prefill Double W → Type 0
  Filled st =
      (b e r k : ℕ)
      → st.arena_layer b ≡ pos k
      → st.arena_have b e ≡ true
      → r < 3
      → Succeeds k r e
      → st.arena b r e ≡ M.weights k r e

  -- What a load does not count and time.
  abbrev pub SameArenas : Prefill Double W → Prefill Double W → Type 0
  SameArenas s t =
      (t.arena ≡ s.arena) × (t.arena_layer ≡ s.arena_layer) × (t.arena_have ≡ s.arena_have)

  count_load-SameArenas :
      (il n reads : ℕ) (clock : Clock Double) (st : Prefill Double W)
      → SameArenas st (count_load D M il n reads clock st)
  unfolding count_load
  count_load-SameArenas il n reads clock st =
      if_intro (λ (t : Prefill Double W). SameArenas st t) (reads == 0) _ _
        (λ b. (refl, refl, refl)) (λ b. (refl, refl, refl))

  module _ (il bi n : ℕ) (need : Option Marks) (clock : Clock Double) (st : Prefill Double W) where
    abbrev pub es : List ℕ
    es = missing n need (have_now D M il bi st)

    abbrev pub after : Prefill Double W
    after = fill_arena D M il bi n need clock st

    abbrev filled : Prefill Double W
    filled = record st {
      arena = update st.arena bi (read_arena (read_now D M il bi st) es (st.arena bi));
      arena_layer = update st.arena_layer bi (pos il);
      arena_have = update st.arena_have bi (λ e. have_now D M il bi st e || elem e es);
    }

    fill_arena-SameArenas : SameArenas filled after
    unfolding fill_arena
    fill_arena-SameArenas = count_load-SameArenas il n (length es) clock filled

    pub fill_arena-other :
        (b : ℕ)
        → b ≢ bi
        → (after.arena b ≡ st.arena b)
          × (after.arena_layer b ≡ st.arena_layer b)
          × (after.arena_have b ≡ st.arena_have b)
    fill_arena-other b h = (
      ap (λ (f : ℕ → ℕ → ℕ → W). f b) fill_arena-SameArenas.0 ∙ update_ne st.arena bi b _ h,
      ap (λ (f : ℕ → ℤ). f b) fill_arena-SameArenas.1 ∙ update_ne st.arena_layer bi b _ h,
      ap (λ (f : ℕ → ℕ → Bool). f b) fill_arena-SameArenas.2 ∙ update_ne st.arena_have bi b _ h,
    )

    pub fill_arena-layer : after.arena_layer bi ≡ pos il
    fill_arena-layer =
        ap (λ (f : ℕ → ℤ). f bi) fill_arena-SameArenas.1 ∙ update_at st.arena_layer bi bi _ refl

    pub fill_arena-have : (e : ℕ) → after.arena_have bi e ≡ (have_now D M il bi st e || elem e es)
    fill_arena-have e =
        ap (λ (f : ℕ → ℕ → Bool). f bi e) fill_arena-SameArenas.2
        ∙ ap (λ (f : ℕ → Bool). f e) (update_at st.arena_have bi bi _ refl)

    pub fill_arena-get :
        (r e : ℕ)
        → r < 3
        → after.arena bi r e ≡ (if elem e es then read_now D M il bi st r e else st.arena bi r e)
    fill_arena-get r e h =
        ap (λ (f : ℕ → ℕ → ℕ → W). f bi r e) fill_arena-SameArenas.0
        ∙ ap (λ (f : ℕ → ℕ → W). f r e) (update_at st.arena bi bi _ refl)
        ∙ read_arena-get (read_now D M il bi st) es (st.arena bi) r e h
