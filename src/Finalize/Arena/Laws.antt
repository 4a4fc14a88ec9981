-- ===== src/Finalize/Arena/Laws.antt =====
-- The members of every layer lie in an arena, one behind the other.
use mathlib.Core.Option.{some-injective, none-ne-some}
use moestream.Prelude.{
  ℕ, ◌+◌, ◌*◌, ◌%◌, ◌^◌, ◌≤◌, ◌<◌, ◌≡◌, refl, sym, ap, ◌∙◌, subst, inl, inr, Bool, Option, some,
  List, [], ◌∷◌, ltb, if◌then◌else◌, if_intro, Bool-cases, arith,
}
use moestream.Prelude.Int.{ℤ}
use moestream.Cache.Inv.{row-le}
use moestream.Io.Read.{SlabInfo}
use moestream.Loader.Tables.{LayerSlabs}
use moestream.Loader.Map.{same_key, lookup}
use moestream.Dense.Layout.Laws.{page_up-above}
use moestream.Finalize.Arena.{
  slab_bytes, all_slabs, largest, arena_bytes, Place, Places, place_layer, place_layers,
}

abbrev pub whole : SlabInfo → ℕ
whole si = si.expert_bytes * si.n_expert

abbrev pub whole_layer : LayerSlabs → ℕ
whole_layer l = whole l.gate + whole l.up + whole l.down

-- No layer comes near to 2^64 bytes.
abbrev pub AllSmall : List (ℤ × LayerSlabs) → Type 0
AllSmall [] = Unit {0}
AllSmall ((il, l) ∷ layers) = (whole_layer l + 4096 < 2 ^ 64) × AllSmall layers

AllSmall-lookup :
    (layers : List (ℤ × LayerSlabs)) (il : ℤ) (l : LayerSlabs)
    → AllSmall layers
    → lookup il layers ≡ some l
    → whole_layer l + 4096 < 2 ^ 64
unfolding lookup
AllSmall-lookup [] il l w q = absurd (none-ne-some l q)
AllSmall-lookup ((k, x) ∷ layers) il l (h, w) q =
    if_intro (λ (o : Option LayerSlabs). o ≡ some l → whole_layer l + 4096 < 2 ^ 64) (same_key k il)
      _ _
      (λ s p. subst (λ (y : LayerSlabs). whole_layer y + 4096 < 2 ^ 64) (some-injective x l p) h)
      (λ s p. AllSmall-lookup layers il l w p) q

largest-le : (m : ℕ) (layers : List (ℤ × LayerSlabs)) → m ≤ largest m layers
unfolding largest
largest-le m [] = omega arith
largest-le m ((k, x) ∷ layers) =
    let h = largest-le (if ltb m (all_slabs x) then all_slabs x else m) layers in ground (arith, h)

largest-lookup :
    (m : ℕ) (layers : List (ℤ × LayerSlabs)) (il : ℤ) (l : LayerSlabs)
    → lookup il layers ≡ some l
    → all_slabs l ≤ largest m layers
unfolding largest lookup
largest-lookup m [] il l q = absurd (none-ne-some l q)
largest-lookup m ((k, x) ∷ layers) il l q =
    let top = if ltb m (all_slabs x) then all_slabs x else m in
    if_intro (λ (o : Option LayerSlabs). o ≡ some l → all_slabs l ≤ largest top layers)
      (same_key k il) _ _
      (λ s p.
        subst (λ (y : LayerSlabs). all_slabs y ≤ largest top layers) (some-injective x l p)
          (let h = largest-le top layers in ground (arith, h)))
      (λ s p. largest-lookup top layers il l p) q

largest-small :
    (m : ℕ) (layers : List (ℤ × LayerSlabs))
    → AllSmall layers
    → m + 4096 < 2 ^ 64
    → largest m layers + 4096 < 2 ^ 64
unfolding largest
largest-small m [] w h = h
largest-small m ((k, x) ∷ layers) (small, w) h =
    largest-small (if ltb m (all_slabs x) then all_slabs x else m) layers w (
      if_intro (λ (n : ℕ). n + 4096 < 2 ^ 64) (ltb m (all_slabs x)) _ _ (λ b. omega (arith, small))
        (λ b. h))

pub arena_bytes-le :
    (layers : List (ℤ × LayerSlabs)) (il : ℤ) (l : LayerSlabs)
    → AllSmall layers
    → lookup il layers ≡ some l
    → whole_layer l ≤ arena_bytes layers
unfolding arena_bytes
arena_bytes-le layers il l w q =
    let small = AllSmall-lookup layers il l w q in
    let big = largest-lookup 0 layers il l q in
    let up = page_up-above (largest 0 layers) (largest-small 0 layers w (omega arith)) in
    omega (arith, small, big, up)

place_layers-lookup :
    (layers : List (ℤ × LayerSlabs)) (il : ℤ) (l : LayerSlabs)
    → lookup il layers ≡ some l
    → lookup il (place_layers layers) ≡ some (place_layer l)
unfolding place_layers lookup
place_layers-lookup [] il l q = absurd (none-ne-some l q)
place_layers-lookup ((k, x) ∷ layers) il l q = elim (Bool-cases (same_key k il)) [
  | inl s ↦
      ap (λ (b : Bool). if b then some (place_layer x) else lookup il (place_layers layers)) s
      ∙ ap (λ (y : LayerSlabs). some (place_layer y))
          (some-injective x l
            (sym (ap (λ (b : Bool). if b then some x else lookup il layers) s) ∙ q))
  | inr s ↦
      ap (λ (b : Bool). if b then some (place_layer x) else lookup il (place_layers layers)) s
      ∙ place_layers-lookup layers il l
          (sym (ap (λ (b : Bool). if b then some x else lookup il layers) s) ∙ q)
]

-- The experts of a member lie behind `start`, and end before `end`.
abbrev pub Inside : Place → SlabInfo → ℕ → ℕ → Type 0
Inside p si start end =
    (p.slab ≡ si)
    × ((e : ℕ)
        → e < si.n_expert
        → (start ≤ p.arena_off + e * si.expert_bytes)
          × (p.arena_off + e * si.expert_bytes + si.expert_bytes ≤ end))

placed_within :
    (si : SlabInfo) (off end : ℕ)
    → off + whole si ≤ end
    → Inside (record { slab = si; arena_off = off }) si off end
placed_within si off end h =
    (refl, λ e below. (omega arith, omega (arith, h, row-le e si.n_expert si.expert_bytes below)))

-- Where no layer comes near to 2^64 bytes, the three members of a layer with experts have places in
-- its arena, the experts of each one behind those of the member before, and none beyond the arena's
-- end.
pub place_layers-Inside :
    (layers : List (ℤ × LayerSlabs)) (il : ℤ) (l : LayerSlabs)
    → AllSmall layers
    → lookup il layers ≡ some l
    → (p : Places) × (lookup il (place_layers layers) ≡ some p)
      × Inside p.gate l.gate 0 p.up.arena_off
      × Inside p.up l.up p.up.arena_off p.down.arena_off
      × Inside p.down l.down p.down.arena_off (arena_bytes layers)
place_layers-Inside layers il l w q =
    let small = AllSmall-lookup layers il l w q in
    let fits = arena_bytes-le layers il l w q in
    (
      place_layer l,
      place_layers-lookup layers il l q,
      placed_within l.gate 0 (slab_bytes l.gate) (omega (arith, small)),
      placed_within l.up (slab_bytes l.gate) ((slab_bytes l.gate + slab_bytes l.up) % 2 ^ 64)
          (omega (arith, small)),
      placed_within l.down ((slab_bytes l.gate + slab_bytes l.up) % 2 ^ 64) (arena_bytes layers)
          (omega (arith, small, fits)),
    )
