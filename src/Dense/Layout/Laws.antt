-- ===== src/Dense/Layout/Laws.antt =====
-- The weights of a layer lie one after the other in the arena, which is large enough for all.
use moestream.Prelude.{
  ℕ, ◌+◌, ◌%◌, ◌^◌, ◌≤◌, ◌<◌, ◌≡◌, refl, sym, ap, ◌∙◌, subst, Bool, true, false, List, [], ◌∷◌, ltb,
  if◌then◌else◌, if_intro, arith,
}
use mathlib.Core.List.{Memᴰ}
use mathlib.Core.List.Memᴰ.{head, tail}
use native.Mathlib.Nat.{mod-eq_of_lt}
use moestream.Dense.Info.{DenseInfo, no_info}
use moestream.Dense.Layout.{DenseLayer, layer_bytes, lay_max, page_up, bytes_per, lay_out}

-- The bytes of the valid weights, as a number without a bound.
abbrev pub valid_sum : List DenseInfo → ℕ
valid_sum [] = 0
valid_sum (m ∷ ms) = (if m.valid then m.bytes else 0) + valid_sum ms

-- Each view is valid with its weight; a valid one begins behind those before it and ends before
-- `size`, and is of the same length of the file.
abbrev pub Laid : ℕ → ℕ → List DenseInfo → List DenseInfo → Type 0
Laid start size [] vs = Unit {0}
Laid start size (m ∷ ms) [] = Unit {0}
Laid start size (m ∷ ms) (v ∷ vs) =
    (m.valid ≡ true → (v.present ≡ true) × (start ≤ v.arena_off) × (v.arena_off + m.bytes ≤ size))
    × Laid (if m.valid then v.arena_off + m.bytes else start) size ms vs

layer_bytes-sum :
    (t : ℕ) (ms : List DenseInfo) → t + valid_sum ms < 2 ^ 64 → layer_bytes t ms ≡ t + valid_sum ms
unfolding layer_bytes
layer_bytes-sum t [] h = omega arith
layer_bytes-sum t (m ∷ ms) h =
    if_intro (λ (x : ℕ). layer_bytes x ms ≡ t + ((if m.valid then m.bytes else 0) + valid_sum ms))
      m.valid ((t + m.bytes) % 2 ^ 64) t
      (λ b.
        ap (λ (x : ℕ). layer_bytes x ms)
          (mod-eq_of_lt {n = t + m.bytes} {m = 2 ^ 64} (ground arith))
        ∙ layer_bytes-sum (t + m.bytes) ms (ground arith)
        ∙ ground arith)
      (λ b. layer_bytes-sum t ms (ground arith) ∙ ground arith)

-- One weight more.
Laid-more :
    (m : DenseInfo) (ms : List DenseInfo) (off size : ℕ) (b : Bool)
    → ((o : ℕ)
        → o + valid_sum ms < 2 ^ 64
        → o + valid_sum ms ≤ size
        → Laid o size ms (lay_out o ms))
    → off + ((if b then m.bytes else 0) + valid_sum ms) < 2 ^ 64
    → off + ((if b then m.bytes else 0) + valid_sum ms) ≤ size
    → let v = if b then record m { present = true; arena_off = off } else no_info in
      (b ≡ true → (v.present ≡ true) × (off ≤ v.arena_off) × (v.arena_off + m.bytes ≤ size))
      × Laid
          (if b then v.arena_off + m.bytes else off)
          size
          ms
          (lay_out (if b then (off + m.bytes) % 2 ^ 64 else off) ms)
Laid-more m ms off size true rest h q = (
  λ v. (refl, omega arith, omega arith),
  subst (λ (x : ℕ). Laid (off + m.bytes) size ms (lay_out x ms))
      (sym (mod-eq_of_lt {n = off + m.bytes} {m = 2 ^ 64} (omega arith)))
      (rest (off + m.bytes) (omega arith) (omega arith)),
)
Laid-more m ms off size false rest h q =
    (λ v. absurd (ground arith), rest off (omega arith) (omega arith))

lay_out-Laid :
    (off size : ℕ) (ms : List DenseInfo)
    → off + valid_sum ms < 2 ^ 64
    → off + valid_sum ms ≤ size
    → Laid off size ms (lay_out off ms)
unfolding lay_out
lay_out-Laid off size [] h q = tt
lay_out-Laid off size (m ∷ ms) h q =
    Laid-more m ms off size m.valid (λ o. lay_out-Laid o size ms) h q

-- Every ready layer's sum is below the bound.
abbrev pub Small : List DenseLayer → Type 0
Small [] = Unit {0}
Small (l ∷ ls) = (valid_sum l.w + 4096 < 2 ^ 64) × Small ls

-- Every ready layer fits.
abbrev pub AllFit : ℕ → List DenseLayer → Type 0
AllFit size [] = Unit {0}
AllFit size (l ∷ ls) = (l.ready ≡ true → valid_sum l.w ≤ size) × AllFit size ls

lay_max-above :
    (most : ℕ) (ls : List DenseLayer)
    → Small ls
    → (most ≤ lay_max most ls) × AllFit (lay_max most ls) ls
unfolding lay_max
lay_max-above most [] s = (omega arith, tt)
lay_max-above most (l ∷ ls) (small, s) =
    let t = layer_bytes 0 l.w in
    let sum = layer_bytes-sum 0 l.w (omega arith) in
    let top = if l.ready then if ltb most t then t else most else most in
    let (above, fit) = lay_max-above top ls s in
    (ground (arith, above), (λ r. ground (arith, above, sum, r), fit))

lay_max-below :
    (most : ℕ) (ls : List DenseLayer)
    → Small ls
    → most + 4096 < 2 ^ 64
    → lay_max most ls + 4096 < 2 ^ 64
unfolding lay_max
lay_max-below most [] s h = h
lay_max-below most (l ∷ ls) (small, s) h =
    let sum = layer_bytes-sum 0 l.w (omega arith) in
    lay_max-below
      (if l.ready then if ltb most (layer_bytes 0 l.w) then layer_bytes 0 l.w else most else most)
      ls s (ground (arith, sum))

AllFit-mono : (a b : ℕ) (ls : List DenseLayer) → a ≤ b → AllFit a ls → AllFit b ls
AllFit-mono a b [] h f = tt
AllFit-mono a b (l ∷ ls) h (f, fs) = (λ r. omega (arith, f r), AllFit-mono a b ls h fs)

pub page_up-above : (n : ℕ) → n + 4096 < 2 ^ 64 → n ≤ page_up n
page_up-above n h = omega (arith, mod-eq_of_lt {n = n + 4095} {m = 2 ^ 64} (omega arith))

-- Every layer fits in an arena.
bytes_per-AllFit : (ls : List DenseLayer) → Small ls → AllFit (bytes_per ls) ls
unfolding bytes_per
bytes_per-AllFit ls s =
    AllFit-mono (lay_max 0 ls) (page_up (lay_max 0 ls)) ls
      (page_up-above (lay_max 0 ls) (lay_max-below 0 ls s (omega arith))) (lay_max-above 0 ls s).1

AllFit-at :
    (size : ℕ) (l : DenseLayer) (ls : List DenseLayer)
    → Memᴰ l ls
    → AllFit size ls
    → Small ls
    → (l.ready ≡ true → valid_sum l.w ≤ size) × (valid_sum l.w + 4096 < 2 ^ 64)
AllFit-at size l [] m fit s = elim m [ ]
AllFit-at size l (x ∷ ls) (head q) (fit, fits) (small, s) =
    subst
      (λ (y : DenseLayer).
        (y.ready ≡ true → valid_sum y.w ≤ size) × (valid_sum y.w + 4096 < 2 ^ 64))
      (sym q) (fit, small)
AllFit-at size l (x ∷ ls) (tail m) (fit, fits) (small, s) = AllFit-at size l ls m fits s

-- Where the weights of no layer come near to 2^64 bytes, those of a ready layer lie in its arena
-- one after the other, in order, none beyond the arena's end.
pub arena_holds_layer :
    (l : DenseLayer) (ls : List DenseLayer)
    → Memᴰ l ls
    → Small ls
    → l.ready ≡ true
    → Laid 0 (bytes_per ls) l.w (lay_out 0 l.w)
arena_holds_layer l ls m s ready =
    let (fit, small) = AllFit-at (bytes_per ls) l ls m (bytes_per-AllFit ls s) s in
    lay_out-Laid 0 (bytes_per ls) l.w (omega arith) (omega (arith, fit ready))
