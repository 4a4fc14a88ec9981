-- ===== src/Gguf/Keys/Laws.antt =====
-- The first key with an ending and a number between 1 and 4095 is found in a file that was written
-- by the format.
use moestream.Prelude.{
  ℕ, suc, ◌+◌, ◌^◌, ◌≤◌, ◌<◌, ◌≡◌, ◌≢◌, refl, ap, ◌∙◌, false, Option, none, some, List, [], ◌∷◌,
  ◌++◌, length, length-append, ltb, if◌then◌else◌, if_intro, arith,
}
use moestream.Loader.Names.{Name}
use moestream.Gguf.Stream.{File, rd_bytes}
use moestream.Gguf.Stream.Laws.{
  number_bytes, Fits, length-number_bytes, Holds, Holds-inside, Holds-front, Holds-back, rd_number,
  rd_bytes_list, bind_some, encode_header, read_header-encode_header,
}
use moestream.Gguf.Value.{fixed}
use moestream.Gguf.Value.Laws.{
  Value, scalar, text, array, Items, end, item, encode, encode_items, WellTyped, AllTyped, depth,
  depth_items, number_of, skip-encode,
}
use moestream.Gguf.Keys.{ends_with, if_wanted, or_next, find_int, or_zero, gguf_kv_int}

fixed_pos : (t : ℕ) → t ≢ 8 → t ≢ 9 → 1 ≤ fixed t
fixed_pos t h k = ground arith

mutual
  pub depth-le-length : (v : Value) (t : ℕ) → WellTyped t v → depth v ≤ length (encode t v)
  depth-le-length (scalar n) t (low, a, b, fits) =
      omega (arith, fixed_pos t a b, length-number_bytes (fixed t) n)
  depth-le-length (text s) t w = omega arith
  depth-le-length (array et vs) t (is9, a, b, w) = omega (arith, depth_items-le-length vs et w)

  depth_items-le-length :
      (vs : Items) (t : ℕ) → AllTyped t vs → depth_items vs ≤ length (encode_items t vs)
  depth_items-le-length end t w = omega arith
  depth_items-le-length (item v vs) t (w, ws) = ground (
    arith,
    depth-le-length v t w,
    depth_items-le-length vs t ws,
    length-append (encode t v) (encode_items t vs),
  )

-- An entry of the metadata.
pub record KeyEntry : Type 0 where
  pub key : Name
  pub type : ℕ
  pub value : Value

abbrev pub encode_entry : KeyEntry → List ℕ
encode_entry e =
    number_bytes 8 (length e.key) ++ (e.key ++ (number_bytes 4 e.type ++ encode e.type e.value))

abbrev pub encode_entries : List KeyEntry → List ℕ
encode_entries [] = []
encode_entries (e ∷ es) = encode_entry e ++ encode_entries es

abbrev pub AllWell : List KeyEntry → Type 0
AllWell [] = Unit {0}
AllWell (e ∷ es) =
    (length e.key ≤ 2 ^ 20)
    × Fits 8 (length e.key)
    × Fits 4 e.type
    × WellTyped e.type e.value
    × AllWell es

-- The number of the first entry whose key has the ending, and whose number is in range.
abbrev pub first_int : Name → List KeyEntry → Option ℕ
first_int suf [] = none
first_int suf (e ∷ es) =
    or_next (if_wanted (ends_with suf e.key) (number_of e.type e.value)) (first_int suf es)

module _ (f : File) (small : f.size < 2 ^ 63) (suf : Name) where
  key_read :
      (key : Name) (at : ℕ)
      → length key ≤ 2 ^ 20
      → Holds f at key
      → (if ltb (2 ^ 20) (length key) then none else rd_bytes f (length key) at)
        ≡ some (key, at + length key)
  key_read key at short h =
      if_intro (λ (o : Option (Name × ℕ)). o ≡ some (key, at + length key))
        (ltb (2 ^ 20) (length key)) _ _ (λ b. absurd (ground arith)) (λ b. rd_bytes_list f key at h)

  -- One entry is read, and the loop goes on behind it.
  find_int_step :
      (e : KeyEntry) (n at : ℕ)
      → AllWell (e ∷ [])
      → Holds f at (encode_entry e)
      → find_int f suf (suc n) at
        ≡ or_next
            (if_wanted (ends_with suf e.key) (number_of e.type e.value))
            (find_int f suf n (at + length (encode_entry e)))
  unfolding find_int
  find_int_step e n at (short, fits_k, fits_t, typed, rest) h =
      let behind_len = e.key ++ (number_bytes 4 e.type ++ encode e.type e.value) in
      let behind_key = number_bytes 4 e.type ++ encode e.type e.value in
      let h1 = Holds-back f (number_bytes 8 (length e.key)) behind_len at h in
      let h2 = Holds-back f e.key behind_key (at + 8) h1 in
      let h3 =
        Holds-back f (number_bytes 4 e.type) (encode e.type e.value) (at + 8 + length e.key) h2 in
      let deep = depth-le-length e.value e.type typed in
      let inside = Holds-inside f (encode e.type e.value) (at + 8 + length e.key + 4) h3 in
      bind_some _ _ _ (
        rd_number f 8 (length e.key) at fits_k
          (Holds-front f (number_bytes 8 (length e.key)) behind_len at h))
      ∙ bind_some _ _ _ (key_read e.key (at + 8) short (Holds-front f e.key behind_key (at + 8) h1))
      ∙ bind_some _ _ _ (
          rd_number f 4 e.type (at + 8 + length e.key) fits_t (
            Holds-front f (number_bytes 4 e.type) (encode e.type e.value) (at + 8 + length e.key)
              h2))
      ∙ bind_some _ _ _ (
          skip-encode f false e.value e.type f.size (at + 8 + length e.key + 4) small
            (omega (arith, deep, inside)) typed h3)
      ∙ ap
          (λ (a : ℕ).
            or_next (if_wanted (ends_with suf e.key) (number_of e.type e.value))
              (find_int f suf n a))
          (omega (arith, length-append e.key behind_key))

  find_int-encode :
      (es : List KeyEntry) (at : ℕ)
      → AllWell es
      → Holds f at (encode_entries es)
      → find_int f suf (length es) at ≡ first_int suf es
  unfolding find_int
  find_int-encode [] at w h = refl
  find_int-encode (e ∷ es) at (a, b, c, d, w) h =
      find_int_step e (length es) at (a, b, c, d, tt)
        (Holds-front f (encode_entry e) (encode_entries es) at h)
      ∙ ap (or_next (if_wanted (ends_with suf e.key) (number_of e.type e.value))) (
          find_int-encode es (at + length (encode_entry e)) w
            (Holds-back f (encode_entry e) (encode_entries es) at h))

-- A file smaller than 2^63 bytes that begins with a header and the entries of the metadata, each
-- with a key of at most 2^20 bytes and a value of its type: the result is the number of the first
-- entry whose key has the ending and whose number lies between 1 and 4095, and 0 if there is none.
pub gguf_kv_int-encode :
    (f : File) (suf : Name) (version n_tensor : ℕ) (es : List KeyEntry) (rest : List ℕ)
    → f.size < 2 ^ 63
    → Fits 4 version
    → Fits 8 n_tensor
    → Fits 8 (length es)
    → AllWell es
    → Holds f 0 (encode_header version n_tensor (length es) ++ (encode_entries es ++ rest))
    → gguf_kv_int suf (some f) ≡ or_zero (first_int suf es)
unfolding gguf_kv_int
gguf_kv_int-encode f suf version n_tensor es rest small v t k w h =
    let header = encode_header version n_tensor (length es) in
    ap or_zero (
      bind_some _ _ _ (
        read_header-encode_header f version n_tensor (length es) v t k
          (Holds-front f header (encode_entries es ++ rest) 0 h))
      ∙ find_int-encode f small suf es 24 w (
          Holds-front f (encode_entries es) rest 24
            (Holds-back f header (encode_entries es ++ rest) 0 h)))
