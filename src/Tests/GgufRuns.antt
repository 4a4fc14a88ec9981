-- ===== src/Tests/GgufRuns.antt =====
-- A file of one shard: two entries of the metadata, a tensor of experts and one of a dense layer.
use mathlib.Core.List.{Mem, eq-or-mem_of_mem-cons, not-mem-nil, Perm}
use mathlib.Core.List.Perm
use mathlib.Core.Logic.{∥∥₁_elim, ◌⊎◌, inl, inr}
use native.Mathlib.Bridge.{le_prop}
use moestream.Prelude.{
  ℕ, zero, suc, ◌+◌, ◌≤◌, ◌≡◌, refl, sym, ap, ◌∙◌, subst, some, List, [], ◌∷◌, ◌++◌, length, leb,
  if◌then◌else◌, if_intro, arith,
}
use moestream.Prelude.Int.{pos}
use moestream.Loader.Names.{blk, ffn, gate, weight, exps, parse_name, strtol, parse_dense_any}
use moestream.Gguf.Stream.{File}
use moestream.Gguf.Stream.Laws.{Holds}
use moestream.Gguf.Value.Laws.{scalar, text, array, end, item}
use moestream.Gguf.Keys.{expert_used_count, gguf_kv_int}
use moestream.Gguf.Keys.Laws.{KeyEntry, AllWell, gguf_kv_int-encode}
use moestream.Gguf.Tensors.{Tensor, gguf_bytes_per_slot}
use moestream.Gguf.Tensors.Laws.{encode_tensors, AllWellFormed}
use moestream.Gguf.Tensors.Table.{Contents, encode_shard, IsShard}
use moestream.Gguf.Tensors.Sizes.{opened, gguf_bytes_per_slot-shards_sum}
use moestream.Gguf.Tensors.Scan.{gguf_scan_streamable}
use moestream.Gguf.Tensors.Scan.Sizes.{
  with_stat, Ascending, Inside, SortsByOffset, Sums, gguf_scan_streamable-Sums,
}

abbrev byte_of : List ℕ → ℕ → ℕ
byte_of [] at = 0
byte_of (x ∷ xs) zero = x
byte_of (x ∷ xs) (suc at) = byte_of xs at

abbrev file_of : List ℕ → File
file_of xs = record { size = length xs; byte = byte_of xs }

bytes_from :
    (f : File) (xs : List ℕ) (at : ℕ)
    → ((i : ℕ) → f.byte (at + i) ≡ byte_of xs i)
    → at + length xs ≤ f.size
    → Holds f at xs
bytes_from f [] at same h = omega (arith, h)
bytes_from f (x ∷ xs) at same h = (
  ap f.byte (omega arith) ∙ same 0,
  bytes_from f xs (at + 1) (λ i. ap f.byte (omega arith) ∙ same (suc i)) (omega (arith, h)),
)

file_of-Holds : (xs : List ℕ) → Holds (file_of xs) 0 xs
file_of-Holds xs = bytes_from (file_of xs) xs 0 (λ i. ap (byte_of xs) (omega arith)) (omega arith)

-- An array of two texts, and a number behind the key "a.expert_used_count".
abbrev two_entries : List KeyEntry
two_entries =
    record {
      key = 116 ∷ [];
      type = 9;
      value = array 8 (item (text (1 ∷ 2 ∷ [])) (item (text []) end));
    }
    ∷ record { key = 97 ∷ expert_used_count; type = 4; value = scalar 10 }
    ∷ []

-- "blk.7.ffn_gate_exps.weight" with eight experts, and "blk.7.ffn_gate.weight".
abbrev gate_exps_7 : Tensor
gate_exps_7 = record {
  name = blk ++ (55 ∷ ffn (gate exps));
  dims = 256 ∷ 4 ∷ 8 ∷ [];
  type = 12;
  off = 64;
}

abbrev gate_7 : Tensor
gate_7 = record { name = blk ++ (55 ∷ ffn (gate weight)); dims = 16 ∷ 8 ∷ []; type = 0; off = 0 }

abbrev two_tensors : List Tensor
two_tensors = gate_exps_7 ∷ gate_7 ∷ []

abbrev one_shard : Contents
one_shard = record { version = 3; entries = two_entries; tensors = two_tensors; rest = [] }

abbrev shard_file : File
shard_file = file_of (encode_shard one_shard)

two_entries-AllWell : AllWell two_entries
two_entries-AllWell = (
  omega arith,
  refl,
  refl,
  (refl, refl, refl, ((refl, refl), ((refl, refl), tt))),
  (
    omega arith,
    refl,
    refl,
    (omega arith, (λ h. omega (arith, h)), (λ h. omega (arith, h)), refl),
    tt,
  ),
)

two_tensors-AllWellFormed : AllWellFormed two_tensors
two_tensors-AllWellFormed = (
  (omega arith, refl, omega arith, refl, (refl, (refl, (refl, tt))), refl, refl),
  ((omega arith, refl, omega arith, refl, (refl, (refl, tt)), refl, refl), tt),
)

shard_file-IsShard : IsShard shard_file one_shard
shard_file-IsShard = (
  omega arith,
  refl,
  refl,
  refl,
  two_entries-AllWell,
  two_tensors-AllWellFormed,
  file_of-Holds (encode_shard one_shard),
)

gguf_kv_int-encode_example : gguf_kv_int expert_used_count (some shard_file) ≡ 10
gguf_kv_int-encode_example =
    gguf_kv_int-encode shard_file expert_used_count 3 2 two_entries
      (encode_tensors two_tensors ++ []) (omega arith) refl refl refl two_entries-AllWell
      (file_of-Holds (encode_shard one_shard))

-- One byte for each number of a row.
abbrev bytes_of_row : ℕ → ℕ → ℕ
bytes_of_row type n = n

gguf_bytes_per_slot-shards_sum_example :
    gguf_bytes_per_slot bytes_of_row (opened (shard_file ∷ shard_file ∷ [])) ≡ 2048
unfolding parse_name strtol
gguf_bytes_per_slot-shards_sum_example =
    gguf_bytes_per_slot-shards_sum bytes_of_row (shard_file ∷ shard_file ∷ [])
      (one_shard ∷ one_shard ∷ []) (shard_file-IsShard, (shard_file-IsShard, tt))

abbrev insert_tensor : Tensor → List Tensor → List Tensor
insert_tensor t [] = t ∷ []
insert_tensor t (u ∷ ts) =
    let rest = insert_tensor t ts in if leb t.off u.off then t ∷ u ∷ ts else u ∷ rest

abbrev by_offset : List Tensor → List Tensor
by_offset [] = []
by_offset (t ∷ ts) = insert_tensor t (by_offset ts)

insert_tensor-perm : (t : Tensor) (ts : List Tensor) → Perm (insert_tensor t ts) (t ∷ ts)
insert_tensor-perm t [] = Perm.refl (t ∷ [])
insert_tensor-perm t (u ∷ ts) =
    if_intro (λ (l : List Tensor). Perm l (t ∷ u ∷ ts)) (leb t.off u.off) _ _
      (λ q. Perm.refl (t ∷ u ∷ ts))
      (λ q. Perm.trans (Perm.cons u (insert_tensor-perm t ts)) (Perm.swap t u ts))

by_offset-perm : (ts : List Tensor) → Perm (by_offset ts) ts
by_offset-perm [] = Perm.refl []
by_offset-perm (t ∷ ts) =
    Perm.trans (insert_tensor-perm t (by_offset ts)) (Perm.cons t (by_offset-perm ts))

insert_below :
    (u t : Tensor) (ts : List Tensor)
    → u.off ≤ t.off
    → Ascending (u ∷ ts)
    → Ascending (u ∷ insert_tensor t ts)
insert_below u t [] h asc = (h, tt)
insert_below u t (v ∷ ts) h (le, asc) =
    if_intro (λ (l : List Tensor). Ascending (u ∷ l)) (leb t.off v.off) _ _
      (λ q. (h, (ground (arith, q), asc))) (λ q. (le, insert_below v t ts (ground (arith, q)) asc))

insert_tensor-Ascending :
    (t : Tensor) (ts : List Tensor) → Ascending ts → Ascending (insert_tensor t ts)
insert_tensor-Ascending t [] asc = tt
insert_tensor-Ascending t (u ∷ ts) asc =
    if_intro Ascending (leb t.off u.off) _ _ (λ q. (ground (arith, q), asc))
      (λ q. insert_below u t ts (ground (arith, q)) asc)

by_offset-SortsByOffset : SortsByOffset 0 by_offset
by_offset-SortsByOffset [] = (Perm.refl [], tt)
by_offset-SortsByOffset (t ∷ ts) = (
  by_offset-perm (t ∷ ts),
  insert_tensor-Ascending t (by_offset ts) (by_offset-SortsByOffset ts).1,
)

two_tensors-Inside : Inside shard_file.size two_tensors
two_tensors-Inside t m = ∥∥₁_elim (eq-or-mem_of_mem-cons m) le_prop (first_or t)
  where
    is_first : (t u : Tensor) → u.off ≤ shard_file.size → t ≡ u → t.off ≤ shard_file.size
    is_first t u h q = subst (λ (v : Tensor). v.off ≤ shard_file.size) (sym q) h

    second_or : (t : Tensor) → (t ≡ gate_7) ⊎ Mem t [] → t.off ≤ shard_file.size
    second_or t (inl q) = is_first t gate_7 (omega arith) q
    second_or t (inr n) = absurd (not-mem-nil n)

    first_or : (t : Tensor) → (t ≡ gate_exps_7) ⊎ Mem t (gate_7 ∷ []) → t.off ≤ shard_file.size
    first_or t (inl q) = is_first t gate_exps_7 (omega arith) q
    first_or t (inr n) = ∥∥₁_elim (eq-or-mem_of_mem-cons n) le_prop (second_or t)

gguf_scan_streamable-Sums_example :
    Sums 0 by_offset
      (shard_file ∷ [])
      ((pos 7, 64) ∷ [])
      (gguf_scan_streamable 0 by_offset (with_stat (shard_file ∷ [])))
unfolding parse_dense_any strtol
gguf_scan_streamable-Sums_example =
    gguf_scan_streamable-Sums 0 by_offset (shard_file ∷ []) (one_shard ∷ []) by_offset-SortsByOffset
      (shard_file-IsShard, tt) (two_tensors-Inside, tt) (omega arith)
