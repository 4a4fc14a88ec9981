-- ===== src/Gguf/Value/Laws.antt =====
-- A value of the metadata is passed over as it was written, and its number found.
use moestream.Prelude.{
  ℕ, zero, suc, ◌+◌, ◌^◌, ◌≤◌, ◌<◌, ◌≡◌, ◌≢◌, refl, sym, ap, ◌∙◌, Bool, true, false, Option, some,
  List, [], ◌++◌, length, length-append, leb, if◌then◌else◌, arith,
}
use moestream.Prelude.Int.{ℤ, pos}
use moestream.Gguf.Stream.{File, ◌>>=◌, rd, seek}
use moestream.Gguf.Stream.Laws.{
  number_bytes, Fits, length-number_bytes, Holds, Holds-inside, Holds-front, Holds-back, rd_number,
}
use moestream.Gguf.Value.{fixed, int_value, skip_items, skip_text, skip_fixed, skip_array, skip}

mutual
  pub data Value : Type 0 where
    scalar : ℕ → Value
    text : List ℕ → Value
    array : ℕ → Items → Value

  pub data Items : Type 0 where
    end : Items
    item : Value → Items → Items

abbrev pub item_count : Items → ℕ
item_count end = 0
item_count (item v vs) = suc (item_count vs)

abbrev mutual
  -- The bytes of a value of a type.
  pub encode : ℕ → Value → List ℕ
  encode t (scalar n) = number_bytes (fixed t) n
  encode t (text s) = number_bytes 8 (length s) ++ s
  encode t (array et vs) =
      number_bytes 4 et ++ (number_bytes 8 (item_count vs) ++ encode_items et vs)

  pub encode_items : ℕ → Items → List ℕ
  encode_items t end = []
  encode_items t (item v vs) = encode t v ++ encode_items t vs

abbrev mutual
  pub WellTyped : ℕ → Value → Type 0
  WellTyped t (scalar n) = (t ≤ 12) × (t ≢ 8) × (t ≢ 9) × Fits (fixed t) n
  WellTyped t (text s) = (t ≡ 8) × Fits 8 (length s)
  WellTyped t (array et vs) = (t ≡ 9) × Fits 4 et × Fits 8 (item_count vs) × AllTyped et vs

  pub AllTyped : ℕ → Items → Type 0
  AllTyped t end = Unit {0}
  AllTyped t (item v vs) = WellTyped t v × AllTyped t vs

abbrev mutual
  -- How deep arrays are nested.
  pub depth : Value → ℕ
  depth (scalar n) = 1
  depth (text s) = 1
  depth (array et vs) = suc (depth_items vs)

  pub depth_items : Items → ℕ
  depth_items end = 0
  depth_items (item v vs) = if leb (depth v) (depth_items vs) then depth_items vs else depth v

-- The number of a value, 0 if it is no integer.
abbrev pub number_of : ℕ → Value → ℤ
number_of t (scalar n) = int_value t n
number_of t (text s) = pos 0
number_of t (array et vs) = pos 0

abbrev pub seen_value : Bool → ℕ → Value → ℤ
seen_value true t v = pos 0
seen_value false t v = number_of t v

depth_pos : (v : Value) → 1 ≤ depth v
depth_pos (scalar n) = omega arith
depth_pos (text s) = omega arith
depth_pos (array et vs) = omega arith

one_less : (n : ℕ) → 1 ≤ n → (k : ℕ) × (n ≡ suc k)
one_less zero h = absurd (omega arith)
one_less (suc k) h = (k, refl)

seen_text : (by : Bool) (t : ℕ) (s : List ℕ) → seen_value by t (text s) ≡ pos 0
seen_text true t s = refl
seen_text false t s = refl

seen_array : (by : Bool) (t et : ℕ) (vs : Items) → seen_value by t (array et vs) ≡ pos 0
seen_array true t et vs = refl
seen_array false t et vs = refl

module _ (f : File) (by_seek : Bool) where
  skip_scalar :
      (fuel t at : ℕ)
      → t ≤ 12
      → t ≢ 8
      → t ≢ 9
      → skip f by_seek (suc fuel) t at ≡ skip_fixed f by_seek t at
  unfolding skip
  skip_scalar fuel t at h p q = ground arith

  seek_inside : (n at : ℕ) → at + n < 2 ^ 63 → seek n at ≡ some (at + n)
  seek_inside n at h = ground arith

  skip_fixed-lem :
      (by : Bool) (t n at : ℕ)
      → f.size < 2 ^ 63
      → Fits (fixed t) n
      → Holds f at (number_bytes (fixed t) n)
      → skip_fixed f by t at ≡ some (at + fixed t, seen_value by t (scalar n))
  skip_fixed-lem true t n at small q h =
      ap (λ (o : Option ℕ). o >>= λ b. some (b, pos 0))
        (seek_inside (fixed t) at (
          omega (
            arith,
            Holds-inside f (number_bytes (fixed t) n) at h,
            length-number_bytes (fixed t) n,
          )))
  skip_fixed-lem false t n at small q h =
      ap (λ (o : Option (ℕ × ℕ)). o >>= λ (m, b). some (b, int_value t m))
        (rd_number f (fixed t) n at q h)

  skip_text_lem :
      (s : List ℕ) (at : ℕ)
      → f.size < 2 ^ 63
      → Fits 8 (length s)
      → Holds f at (number_bytes 8 (length s) ++ s)
      → skip_text f at ≡ some (at + length (number_bytes 8 (length s) ++ s), pos 0)
  skip_text_lem s at small q h =
      ap (λ (o : Option (ℕ × ℕ)). o >>= λ (n, a). seek n a >>= λ b. some (b, pos 0))
        (rd_number f 8 (length s) at q (Holds-front f (number_bytes 8 (length s)) s at h))
      ∙ ap (λ (o : Option ℕ). o >>= λ b. some (b, pos 0))
          (seek_inside (length s) (at + 8)
            (omega (arith, Holds-inside f (number_bytes 8 (length s) ++ s) at h)))
      ∙ ap (λ (a : ℕ). some (a, pos 0)) (omega arith)

  skip_is_text : (fuel t at : ℕ) → t ≡ 8 → skip f by_seek (suc fuel) t at ≡ skip_text f at
  unfolding skip
  skip_is_text fuel t at h = ground arith

  skip_is_array :
      (fuel t at : ℕ)
      → t ≡ 9
      → skip f by_seek (suc fuel) t at ≡ skip_array f (λ et. skip f by_seek fuel et) at
  unfolding skip
  skip_is_array fuel t at h = ground arith

  skip_array_lem :
      (et : ℕ) (vs : Items) (fuel at : ℕ)
      → Fits 4 et
      → Fits 8 (item_count vs)
      → Holds f at (number_bytes 4 et)
      → Holds f (at + 4) (number_bytes 8 (item_count vs))
      → skip_items (skip f by_seek fuel et) (item_count vs) (at + 4 + 8)
        ≡ some (at + 4 + 8 + length (encode_items et vs))
      → skip_array f (λ t. skip f by_seek fuel t) at
        ≡ some (at + length (encode 9 (array et vs)), pos 0)
  skip_array_lem et vs fuel at fits_t fits_n h1 h2 items =
      ap
        (λ (o : Option (ℕ × ℕ)). o >>= λ (t, a).
          rd f 8 a >>= λ (n, b). skip_items (skip f by_seek fuel t) n b >>= λ c. some (c, pos 0))
        (rd_number f 4 et at fits_t h1)
      ∙ ap
          (λ (o : Option (ℕ × ℕ)).
            o >>= λ (n, b). skip_items (skip f by_seek fuel et) n b >>= λ c. some (c, pos 0))
          (rd_number f 8 (item_count vs) (at + 4) fits_n h2)
      ∙ ap (λ (o : Option ℕ). o >>= λ c. some (c, pos 0)) items
      ∙ ap (λ (a : ℕ). some (a, pos 0)) (omega arith)

  -- What the caller of `skip` is told.
  abbrev pub told : ℕ → Value → ℕ → Option (ℕ × ℤ)
  told t v at = some (at + length (encode t v), seen_value by_seek t v)

  mutual
    pub skip-encode :
        (v : Value) (t fuel at : ℕ)
        → f.size < 2 ^ 63
        → depth v ≤ suc fuel
        → WellTyped t v
        → Holds f at (encode t v)
        → skip f by_seek (suc fuel) t at ≡ told t v at
    skip-encode (scalar n) t fuel at small deep (low, a, b, fits) h =
        skip_scalar fuel t at low a b
        ∙ skip_fixed-lem by_seek t n at small fits h
        ∙ ap (λ (k : ℕ). some (at + k, seen_value by_seek t (scalar n)))
            (sym (length-number_bytes (fixed t) n))
    skip-encode (text s) t fuel at small deep (is8, fits) h =
        skip_is_text fuel t at is8
        ∙ skip_text_lem s at small fits h
        ∙ ap (λ (z : ℤ). some (at + length (encode t (text s)), z)) (sym (seen_text by_seek t s))
    skip-encode (array et vs) t fuel at small deep (is9, fits_t, fits_n, w) h =
        let items = number_bytes 8 (item_count vs) ++ encode_items et vs in
        let h1 = Holds-back f (number_bytes 4 et) items at h in
        let h2 = Holds-back f (number_bytes 8 (item_count vs)) (encode_items et vs) (at + 4) h1 in
        skip_is_array fuel t at is9
        ∙ skip_array_lem et vs fuel at fits_t fits_n (Holds-front f (number_bytes 4 et) items at h)
            (Holds-front f (number_bytes 8 (item_count vs)) (encode_items et vs) (at + 4) h1)
            (skip_items-encode vs et fuel (at + 4 + 8) small (omega arith) w h2)
        ∙ ap (λ (z : ℤ). some (at + length (encode t (array et vs)), z))
            (sym (seen_array by_seek t et vs))

    skip_items-encode :
        (vs : Items) (t fuel at : ℕ)
        → f.size < 2 ^ 63
        → depth_items vs ≤ fuel
        → AllTyped t vs
        → Holds f at (encode_items t vs)
        → skip_items (skip f by_seek fuel t) (item_count vs) at
          ≡ some (at + length (encode_items t vs))
    skip_items-encode end t fuel at small deep w h = ap some (omega arith)
    skip_items-encode (item v vs) t fuel at small deep (w, ws) h =
        let (k, q) = one_less fuel (ground (arith, depth_pos v)) in
        let rest = Holds-back f (encode t v) (encode_items t vs) at h in
        ap
          (λ (o : Option (ℕ × ℤ)).
            o >>= λ (next, x). skip_items (skip f by_seek fuel t) (item_count vs) next)
          (ap (λ (n : ℕ). skip f by_seek n t at) q
            ∙ skip-encode v t k at small (ground arith) w
                (Holds-front f (encode t v) (encode_items t vs) at h))
        ∙ skip_items-encode vs t fuel (at + length (encode t v)) small (ground arith) ws rest
        ∙ ap some (omega (arith, length-append (encode t v) (encode_items t vs)))
