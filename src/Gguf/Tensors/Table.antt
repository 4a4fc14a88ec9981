-- ===== src/Gguf/Tensors/Table.antt =====
-- A shard that was written by the format: its metadata is passed over, and its table of tensors found.
use moestream.Prelude.{
  ℕ, ◌+◌, ◌^◌, ◌≤◌, ◌<◌, ◌≡◌, ap, ◌∙◌, Bool, none, some, List, [], ◌∷◌, ◌++◌, length, length-append,
  ltb, if◌then◌else◌, arith,
}
use moestream.Gguf.Stream.{File, seek}
use moestream.Gguf.Stream.Laws.{
  number_bytes, Fits, Holds, Holds-inside, Holds-front, Holds-back, rd_number, bind_some,
  encode_header, read_header-encode_header,
}
use moestream.Gguf.Value.Laws.{encode, skip-encode}
use moestream.Gguf.Keys.Laws.{KeyEntry, encode_entry, encode_entries, AllWell, depth-le-length}
use moestream.Gguf.Tensors.{Tensor, skip_keys, tensor_table}
use moestream.Gguf.Tensors.Laws.{encode_tensors, AllWellFormed}

-- What stands at the front of a shard; the data of the tensors is behind it.
pub record Contents : Type 0 where
  pub version : ℕ
  pub entries : List KeyEntry
  pub tensors : List Tensor
  pub rest : List ℕ

abbrev pub encode_shard : Contents → List ℕ
encode_shard c =
    encode_header c.version (length c.tensors) (length c.entries)
    ++ (encode_entries c.entries ++ (encode_tensors c.tensors ++ c.rest))

abbrev pub IsShard : File → Contents → Type 0
IsShard f c =
    (f.size < 2 ^ 63)
    × Fits 4 c.version
    × Fits 8 (length c.tensors)
    × Fits 8 (length c.entries)
    × AllWell c.entries
    × AllWellFormed c.tensors
    × Holds f 0 (encode_shard c)

module _ (f : File) (small : f.size < 2 ^ 63) where
  name_passed :
      (n at : ℕ)
      → n ≤ 2 ^ 20
      → at + n ≤ f.size
      → (if ltb (2 ^ 20) n then none else seek n at) ≡ some (at + n)
  name_passed n at short inside = ground (arith, short, inside, small)

  skip_keys-encode_entries :
      (by_seek : Bool) (es : List KeyEntry) (at : ℕ)
      → AllWell es
      → Holds f at (encode_entries es)
      → skip_keys f by_seek (length es) at ≡ some (at + length (encode_entries es))
  unfolding skip_keys
  skip_keys-encode_entries by_seek [] at w h = ap some (omega arith)
  skip_keys-encode_entries by_seek (e ∷ es) at (short, fits_k, fits_t, typed, w) h =
      bind_some _ _ _ (
        rd_number f 8 (length e.key) at fits_k
          (Holds-front f (number_bytes 8 (length e.key)) behind_len at h0))
      ∙ bind_some _ _ _ (
          name_passed (length e.key) (at + 8) short
            (Holds-inside f e.key (at + 8) (Holds-front f e.key behind_key (at + 8) h1)))
      ∙ bind_some _ _ _ (
          rd_number f 4 e.type (at + 8 + length e.key) fits_t
            (Holds-front f (number_bytes 4 e.type) bytes (at + 8 + length e.key) h2))
      ∙ bind_some _ _ _ (
          skip-encode f by_seek e.value e.type f.size (at + 8 + length e.key + 4) small
            (omega (
              arith,
              depth-le-length e.value e.type typed,
              Holds-inside f bytes (at + 8 + length e.key + 4) h3,
            ))
            typed h3)
      ∙ ap (skip_keys f by_seek (length es)) (omega (arith, length-append e.key behind_key))
      ∙ skip_keys-encode_entries by_seek es (at + length (encode_entry e)) w
          (Holds-back f (encode_entry e) (encode_entries es) at h)
      ∙ ap some (omega (arith, length-append (encode_entry e) (encode_entries es)))
    where
      bytes : List ℕ
      bytes = encode e.type e.value

      behind_key : List ℕ
      behind_key = number_bytes 4 e.type ++ bytes

      behind_len : List ℕ
      behind_len = e.key ++ behind_key

      h0 : Holds f at (encode_entry e)
      h0 = Holds-front f (encode_entry e) (encode_entries es) at h

      h1 : Holds f (at + 8) behind_len
      h1 = Holds-back f (number_bytes 8 (length e.key)) behind_len at h0

      h2 : Holds f (at + 8 + length e.key) behind_key
      h2 = Holds-back f e.key behind_key (at + 8) h1

      h3 : Holds f (at + 8 + length e.key + 4) bytes
      h3 = Holds-back f (number_bytes 4 e.type) bytes (at + 8 + length e.key) h2

-- Where the entries of the tensors begin.
abbrev pub table_at : Contents → ℕ
table_at c = 24 + length (encode_entries c.entries)

pub tensor_table-encode_shard :
    (by_seek : Bool) (f : File) (c : Contents)
    → IsShard f c
    → (tensor_table by_seek f ≡ some (length c.tensors, table_at c))
      × Holds f (table_at c) (encode_tensors c.tensors)
unfolding tensor_table
tensor_table-encode_shard by_seek f c (small, v, t, k, w, x, h) =
    let header = encode_header c.version (length c.tensors) (length c.entries) in
    let table = encode_tensors c.tensors ++ c.rest in
    let h1 = Holds-back f header (encode_entries c.entries ++ table) 0 h in
    (
      bind_some _ _ _ (
            read_header-encode_header f c.version (length c.tensors) (length c.entries) v t k
              (Holds-front f header (encode_entries c.entries ++ table) 0 h))
          ∙ bind_some _ _ _ (
              skip_keys-encode_entries f small by_seek c.entries 24 w
                (Holds-front f (encode_entries c.entries) table 24 h1)),
      Holds-front f (encode_tensors c.tensors) c.rest (table_at c)
          (Holds-back f (encode_entries c.entries) table 24 h1),
    )
