-- ===== src/Gguf/Tensors/Scan.antt =====
-- src/llama-moestream.cpp, `gguf_scan_streamable`: the bytes of the tensors that the dense path would
-- claim, in all and for the largest layer. A shard is what can be opened, with whether `stat`
-- succeeds. `sort` is the `std::sort` of the entries by their offsets, and `least` is
-- `g_dn_min_bytes`.
pub mod PerLayer
pub mod Laws
pub mod Sizes
use moestream.Prelude.{
  ℕ, zero, suc, ◌+◌, ◌-◌, ◌^◌, ◌%◌, Bool, true, false, Option, none, some, List, [], ◌∷◌, length,
  ltb, leb, ◌==◌, if◌then◌else◌,
}
use moestream.Prelude.Int.{ℤ}
use moestream.Loader.Names.{parse_dense_any}
use moestream.Loader.Map.{lookup, put}
use moestream.Gguf.Stream.{File}
use moestream.Gguf.Tensors.{Tensor, Found, got, broken, no_dims, c_str, rd_tensor, tensor_table}

-- `*total`, and `per_layer`.
pub record Scan : Type 0 where
  pub total : ℕ
  pub per_layer : List (ℤ × ℕ)

abbrev pub or_none : Option ℕ → ℕ
or_none (some n) = n
or_none none = 0

-- `per_layer[il]`.
unfoldable pub bytes_in_layer : ℤ → List (ℤ × ℕ) → ℕ
unfolding lookup
bytes_in_layer il m = or_none (lookup il m)

abbrev pub with_entry : Tensor → Option (List Tensor) → Option (List Tensor)
with_entry t (some ts) = some (t ∷ ts)
with_entry t none = none

abbrev pub entry_next : (ℕ → Option (List Tensor)) → Found → Option (List Tensor)
entry_next rest (got t next) = with_entry t (rest next)
entry_next rest broken = none
entry_next rest no_dims = none

-- `ents`, if every entry can be read.
unfoldable pub rd_entries : File → ℕ → ℕ → Option (List Tensor)
unfolding rd_tensor
rd_entries f zero at = some []
rd_entries f (suc n) at = entry_next (λ next. rd_entries f n next) (rd_tensor f at)

-- A tensor ends where the next one begins, the last one at the end of the file.
abbrev pub end_of : ℕ → List Tensor → ℕ
end_of fsz [] = fsz
end_of fsz (e ∷ es) = e.off

abbrev pub claim_bytes : ℤ → ℕ → Scan → Scan
claim_bytes il nb s = record {
  total = (s.total + nb) % 2 ^ 64;
  per_layer = put il ((bytes_in_layer il s.per_layer + nb) % 2 ^ 64) s.per_layer;
}

abbrev pub claim_if : Option (ℤ × ℕ) → ℕ → Scan → Scan
claim_if (some (il, role)) nb s = claim_bytes il nb s
claim_if none nb s = s

module _ (least : ℕ) where
  abbrev pub add_entry : Tensor → ℕ → Scan → Scan
  add_entry e end s =
      if leb end e.off
      then s
      else if length e.dims == 2
      then claim_if (parse_dense_any least (c_str e.name) (end - e.off)) (end - e.off) s
      else s

  unfoldable pub add_entries : ℕ → List Tensor → Scan → Scan
  unfolding bytes_in_layer put parse_dense_any
  add_entries fsz [] s = s
  add_entries fsz (e ∷ es) s = add_entries fsz es (add_entry e (end_of fsz es) s)

  module _ (sort : List Tensor → List Tensor) where
    abbrev pub add_sorted : ℕ → Option (List Tensor) → Scan → Scan
    add_sorted fsz (some ents) s = add_entries fsz (sort ents) s
    add_sorted fsz none s = s

    abbrev pub entries_from : File → Option (ℕ × ℕ) → Option (List Tensor)
    entries_from f (some (n_tensor, at)) = rd_entries f n_tensor at
    entries_from f none = none

    unfoldable pub scan_shard : Option (File × Bool) → Scan → Scan
    unfolding tensor_table rd_entries add_entries
    scan_shard none s = s
    scan_shard (some (f, known)) s =
        add_sorted (if known then f.size else 0) (entries_from f (tensor_table true f)) s

    unfoldable pub scan_shards : List (Option (File × Bool)) → Scan → Scan
    unfolding scan_shard
    scan_shards [] s = s
    scan_shards (f ∷ fs) s = scan_shards fs (scan_shard f s)

-- `std::max` over the layers.
unfoldable pub greatest : List (ℤ × ℕ) → ℕ → ℕ
greatest [] most = most
greatest ((il, n) ∷ m) most = greatest m (if ltb most n then n else most)

abbrev pub no_bytes : Scan
no_bytes = record { total = 0; per_layer = [] }

abbrev pub total_and_max : Scan → ℕ × ℕ
total_and_max s = (s.total, greatest s.per_layer 0)

-- `*total` and `*layer_max`.
unfoldable pub gguf_scan_streamable :
    ℕ → (List Tensor → List Tensor) → List (Option (File × Bool)) → ℕ × ℕ
unfolding scan_shards greatest
gguf_scan_streamable least sort shards = total_and_max (scan_shards least sort shards no_bytes)
