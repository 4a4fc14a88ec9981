-- ===== src/Gguf/Tensors.antt =====
-- src/llama-moestream.cpp, `gguf_bytes_per_slot` and `gguf_scan_streamable`: the table of the tensors.
-- What is decoded of a tensor's entry is the same in both; `ggml_row_size` and `std::sort` are
-- parameters.
pub mod Laws
pub mod Table
pub mod Sizes
pub mod Scan
use moestream.Prelude.{
  ℕ, zero, suc, ◌+◌, ◌-◌, ◌*◌, ◌^◌, ◌%◌, Bool, true, false, not, ◌&&◌, Option, none, some, List, [],
  ◌∷◌, length, ltb, leb, ◌==◌, if◌then◌else◌,
}
use moestream.Prelude.Int.{ℤ, pos, ltb_ℤ}
use moestream.Loader.Names.{Name, parse_name, parse_dense_any}
use moestream.Loader.Map.{lookup, put}
use moestream.Gguf.Stream.{File, ◌>>=◌, number_at, bytes_at, rd, rd_bytes, seek, read_header}
use moestream.Gguf.Value.{signed, skip}
use moestream.Gguf.Keys.{deepest}

pub record Tensor : Type 0 where
  pub name : Name
  pub dims : List ℕ
  pub type : ℕ
  pub off : ℕ

-- An entry and the position behind it; the end of the loop; the end of the scan, for a dimension
-- that cannot be read.
pub data Found : Type 0 where
  got : Tensor → ℕ → Found
  broken : Found
  no_dims : Found

-- `nm.c_str()`.
abbrev pub c_str : Name → Name
c_str [] = []
c_str (c ∷ s) = if c == 0 then [] else c ∷ c_str s

module _ (f : File) where
  -- The entries of the metadata are passed over.
  unfoldable pub skip_keys : Bool → ℕ → ℕ → Option ℕ
  unfolding number_at skip
  skip_keys by_seek zero at = some at
  skip_keys by_seek (suc n) at = do
    (kl, a) ← rd f 8 at
    b ← if ltb (2 ^ 20) kl then none else seek kl a
    (vt, c) ← rd f 4 b
    (d, v) ← skip f by_seek (deepest f) vt c
    skip_keys by_seek n d

  unfoldable pub rd_dims : ℕ → ℕ → Option (List ℕ × ℕ)
  unfolding number_at
  rd_dims zero at = some ([], at)
  rd_dims (suc n) at = do (d, a) ← rd f 8 at; (ds, b) ← rd_dims n a; some (d ∷ ds, b)

  -- The name and the number of dimensions.
  abbrev pub rd_name : ℕ → Option (Name × ℕ × ℕ)
  rd_name at = do
    (nl, a) ← rd f 8 at
    (nm, b) ← if ltb (2 ^ 16) nl then none else rd_bytes f nl a
    (nd, c) ← rd f 4 b
    if ltb 4 nd then none else some (nm, nd, c)

  -- The type and the offset.
  abbrev pub rd_place : Name → List ℕ → ℕ → Option (Tensor × ℕ)
  rd_place nm ds at = do
    (ty, a) ← rd f 4 at
    (off, b) ← rd f 8 a
    some (record { name = nm; dims = ds; type = ty; off = off }, b)

  abbrev pub placed : Option (Tensor × ℕ) → Found
  placed (some (t, at)) = got t at
  placed none = broken

  abbrev pub with_dims : Name → Option (List ℕ × ℕ) → Found
  with_dims nm (some (ds, at)) = placed (rd_place nm ds at)
  with_dims nm none = no_dims

  abbrev pub with_name : Option (Name × ℕ × ℕ) → Found
  with_name (some (nm, nd, at)) = with_dims nm (rd_dims nd at)
  with_name none = broken

  unfoldable pub rd_tensor : ℕ → Found
  unfolding number_at bytes_at rd_dims
  rd_tensor at = with_name (rd_name at)

-- The number of tensors, and where their entries begin.
unfoldable pub tensor_table : Bool → File → Option (ℕ × ℕ)
unfolding read_header skip_keys
tensor_table by_seek f = do
  (n_tensor, n_kv, at) ← read_header f
  b ← skip_keys f by_seek n_kv at
  some (n_tensor, b)

-- The bytes of a slot, and the number of experts.
pub record Slot : Type 0 where
  pub total : ℕ
  pub experts : ℤ

abbrev pub dim : ℕ → List ℕ → ℕ
dim k [] = 1
dim zero (d ∷ ds) = d
dim (suc k) (d ∷ ds) = dim k ds

abbrev pub is_expert : Option (ℤ × ℕ) → Bool
is_expert (some x) = true
is_expert none = false

abbrev pub no_slot_bytes : Slot
no_slot_bytes = record { total = 0; experts = pos 0 }

abbrev pub join_slot : Slot → Slot → Slot
join_slot all one = record {
  total = (all.total + one.total) % 2 ^ 64;
  experts = if ltb_ℤ (pos 0) one.experts then one.experts else all.experts;
}

abbrev pub per_slot : Option Slot → ℕ
per_slot (some s) = if ltb_ℤ (pos 0) s.experts then s.total else 0
per_slot none = 0

module _ (row_size : ℕ → ℕ → ℕ) where
  -- One expert is `ne[1]` rows.
  abbrev pub add_tensor : Tensor → Slot → Slot
  add_tensor t s =
      let ne2 = signed (2 ^ 63) (dim 2 t.dims) in
      if not (is_expert (parse_name (c_str t.name)))
      then s
      else if not (ltb_ℤ (pos 1) ne2)
      then s
      else record {
        total = (s.total + row_size t.type (dim 0 t.dims) * dim 1 t.dims) % 2 ^ 64;
        experts = ne2;
      }

  abbrev pub slot_next : (ℕ → Slot → Option Slot) → Slot → Found → Option Slot
  slot_next rest s (got t next) = rest next (add_tensor t s)
  slot_next rest s broken = some s
  slot_next rest s no_dims = none

  -- The loop over the tensors; no result if the whole scan ends.
  unfoldable pub slot_loop : File → ℕ → ℕ → Slot → Option Slot
  unfolding rd_tensor
  slot_loop f zero at s = some s
  slot_loop f (suc n) at s = slot_next (λ next t. slot_loop f n next t) s (rd_tensor f at)

  abbrev pub from_table : File → Option (ℕ × ℕ) → Option Slot
  from_table f (some (n_tensor, at)) = slot_loop f n_tensor at no_slot_bytes
  from_table f none = some no_slot_bytes

  -- A shard that cannot be opened or has a header or metadata that cannot be read counts nothing.
  unfoldable pub slot_shard : Option File → Option Slot
  unfolding tensor_table slot_loop
  slot_shard none = some no_slot_bytes
  slot_shard (some f) = from_table f (tensor_table false f)

  unfoldable pub slot_shards : List (Option File) → Slot → Option Slot
  unfolding slot_shard
  slot_shards [] all = some all
  slot_shards (f ∷ fs) all = slot_shard f >>= λ one. slot_shards fs (join_slot all one)

  unfoldable pub gguf_bytes_per_slot : List (Option File) → ℕ
  unfolding slot_shards
  gguf_bytes_per_slot shards = per_slot (slot_shards shards no_slot_bytes)
