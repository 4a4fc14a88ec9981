-- ===== src/Dense/Load/Laws.antt =====
-- The loads keep the arenas true: an arena has the weights of the layer that it is marked with.
use moestream.Prelude.{
  ℕ, ◌+◌, ◌%◌, ◌^◌, ◌≡◌, ◌≢◌, refl, sym, ap, ◌∙◌, subst, true, not, Option, none, some, List,
  update_at, update_ne, if_intro, arith,
}
use native.Mathlib.Decide.{ℕ_discrete}
use moestream.Prelude.Int.{pos}
use moestream.Cache.Doubles.{Doubles}
use moestream.Prefill.Pass.{is_layer}
use moestream.Prefill.Load.Arenas.{is_layer-eq, pos-eq}
use moestream.Dense.Info.{DenseInfo}
use moestream.Dense.Layout.Laws.{Laid}
use moestream.Dense.Load.{Tables, Dense, fill_layer, fill_found, dense_load_layer}
use moestream.Dense.Load.Weights.{Holds, Reads, Inside, read_weights-Holds}

from_some : List DenseInfo → Option (List DenseInfo) → List DenseInfo
from_some d (some x) = x
from_some d none = d

pub some-eq : (a b : List DenseInfo) → some a ≡ some b → a ≡ b
unfolding from_some
some-eq a b q = ap (from_some a) q

-- Every layer's weights lie inside their shards.
abbrev pub AllInside : Tables → Type 0
AllInside T = (k : ℕ) (ms : List DenseInfo) → T.meta k ≡ some ms → Inside T ms

-- Every layer with a view is laid out in its arena.
abbrev pub AllLaid : ℕ → Tables → Type 0
AllLaid size T =
    (k : ℕ) (ms vs : List DenseInfo) → T.meta k ≡ some ms → T.view k ≡ some vs → Laid 0 size ms vs

module _ (D : Doubles) (T : Tables) where
  open D use {Double}

  abbrev pub Filled : Dense Double → Type 0
  Filled st =
      (b k : ℕ) (ms vs : List DenseInfo)
      → st.resident b ≡ pos k
      → T.meta k ≡ some ms
      → T.view k ≡ some vs
      → Holds T ms vs (st.host b)

  abbrev pub SameSetup : Dense Double → Dense Double → Type 0
  SameSetup s t =
      (t.dn_ready ≡ s.dn_ready)
      × (t.dn_nbuf ≡ s.dn_nbuf)
      × (t.has_host ≡ s.has_host)
      × (t.dn_thread ≡ s.dn_thread)

  module _ (il : ℕ) (dt : Double) (st : Dense Double) where
    abbrev bi : ℕ
    bi = il % st.dn_nbuf

    abbrev loaded : Dense Double
    loaded = dense_load_layer T D il dt st

    -- The ways through the call: nothing but a counter changes, or the arena is filled.
    dense_load_layer-cases {ℓ} :
        (P : Dense Double → Type ℓ)
        → P st
        → P (record st { hits = (st.hits + 1) % 2 ^ 64 })
        → ((ms vs : List DenseInfo)
            → T.meta il ≡ some ms
            → T.view il ≡ some vs
            → P (fill_layer T D il bi ms vs dt st))
        → P loaded
    unfolding dense_load_layer fill_found
    dense_load_layer-cases P idle hit fill =
        if_intro P (not st.dn_ready) _ _ (λ a. idle)
          (λ a.
            if_intro P (is_layer (st.resident bi) il) _ _ (λ b. hit)
              (λ b. found (T.meta il) (T.view il) fill))
      where
        found :
            (m v : Option (List DenseInfo))
            → ((ms vs : List DenseInfo)
                → m ≡ some ms
                → v ≡ some vs
                → P (fill_layer T D il bi ms vs dt st))
            → P (fill_found T D il bi m v dt st)
        found (some ms) (some vs) f =
            if_intro P (not (st.has_host bi)) _ _ (λ c. idle) (λ c. f ms vs refl refl)
        found (some ms) none f = idle
        found none v f = idle

    fill_layer-resident :
        (ms vs : List DenseInfo) (b : ℕ)
        → b ≡ bi
        → (fill_layer T D il bi ms vs dt st).resident b ≡ pos il
    unfolding fill_layer
    fill_layer-resident ms vs b q = update_at st.resident bi b _ q

    fill_layer-other :
        (ms vs : List DenseInfo) (b : ℕ)
        → b ≢ bi
        → ((fill_layer T D il bi ms vs dt st).host b ≡ st.host b)
          × ((fill_layer T D il bi ms vs dt st).resident b ≡ st.resident b)
    unfolding fill_layer
    fill_layer-other ms vs b q = (update_ne st.host bi b _ q, update_ne st.resident bi b _ q)

    pub dense_load_layer-SameSetup : SameSetup st loaded
    unfolding fill_layer
    dense_load_layer-SameSetup =
        dense_load_layer-cases (SameSetup st) (refl, refl, refl, refl) (refl, refl, refl, refl)
          (λ ms vs m v. (refl, refl, refl, refl))

    pub dense_load_layer-other : (b : ℕ) → b ≢ bi → loaded.host b ≡ st.host b
    unfolding fill_layer
    dense_load_layer-other b q =
        dense_load_layer-cases (λ (t : Dense Double). t.host b ≡ st.host b) refl refl
          (λ ms vs m v. update_ne st.host bi b _ q)

    module _ (reads : Reads T) (inside : AllInside T) (size : ℕ) (laid : AllLaid size T) where
      fill_layer-Holds :
          (ms vs : List DenseInfo)
          → T.meta il ≡ some ms
          → T.view il ≡ some vs
          → Holds T ms vs ((fill_layer T D il bi ms vs dt st).host bi)
      unfolding fill_layer
      fill_layer-Holds ms vs m v = subst (Holds T ms vs) (sym (update_at st.host bi bi _ refl)) (
          read_weights-Holds T reads 0 size ms vs (st.host bi, st.read_bytes) (laid il ms vs m v)
            (inside il ms m))

      pub dense_load_layer-Filled : Filled st → Filled loaded
      dense_load_layer-Filled f = dense_load_layer-cases Filled f f (λ ms vs m v. filled ms vs m v)
        where
          filled :
              (ms vs : List DenseInfo)
              → T.meta il ≡ some ms
              → T.view il ≡ some vs
              → Filled (fill_layer T D il bi ms vs dt st)
          filled ms vs m v b k ns ws at meta view = elim (ℕ_discrete b bi) [
            | yes q ↦
                let fl = fill_layer T D il bi ms vs dt st in
                let il_k : il ≡ k =
                  pos-eq il k
                    (sym (fill_layer-resident ms vs bi refl) ∙ ap fl.resident (sym q) ∙ at) in
                let same_m = some-eq ms ns (sym m ∙ ap T.meta il_k ∙ meta) in
                let same_v = some-eq vs ws (sym v ∙ ap T.view il_k ∙ view) in
                subst (λ (x : List DenseInfo). Holds T x ws (fl.host b)) same_m
                  (subst (λ (x : List DenseInfo). Holds T ms x (fl.host b)) same_v
                    (subst (λ (i : ℕ). Holds T ms vs (fl.host i)) (sym q)
                      (fill_layer-Holds ms vs m v)))
            | no q ↦
                let (content, mark) = fill_layer-other ms vs b q in
                subst (Holds T ns ws) (sym content) (f b k ns ws (sym mark ∙ at) meta view)
          ]

      pub dense_load_layer-Holds :
          (ms vs : List DenseInfo)
          → Filled st
          → st.dn_ready ≡ true
          → st.has_host bi ≡ true
          → T.meta il ≡ some ms
          → T.view il ≡ some vs
          → Holds T ms vs (loaded.host bi)
      unfolding dense_load_layer fill_found
      dense_load_layer-Holds ms vs f ready host m v =
          if_intro P (not st.dn_ready) _ _ (λ a. absurd (ground arith))
            (λ a.
              if_intro P (is_layer (st.resident bi) il) _ _
                (λ b. f bi il ms vs (is_layer-eq (st.resident bi) il b) m v)
                (λ b.
                  subst
                    (λ (x : Option (List DenseInfo)). P (fill_found T D il bi x (T.view il) dt st))
                    (sym m)
                    (subst
                      (λ (x : Option (List DenseInfo)). P (fill_found T D il bi (some ms) x dt st))
                      (sym v)
                      (if_intro P (not (st.has_host bi)) _ _ (λ c. absurd (ground arith))
                        (λ c. fill_layer-Holds ms vs m v)))))
        where
          P : Dense Double → Type 0
          P t = Holds T ms vs (t.host bi)
