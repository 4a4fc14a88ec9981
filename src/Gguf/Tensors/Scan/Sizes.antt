-- ===== src/Gguf/Tensors/Scan/Sizes.antt =====
-- What the dense path would claim of shards that were written by the format.
use mathlib.Core.List.{Mem, mem-cons_self, mem-cons_of_mem, Perm}
use mathlib.Core.List.Perm
use moestream.Prelude.{
  ℕ, ◌+◌, ◌-◌, ◌^◌, ◌≤◌, ◌<◌, ◌≡◌, refl, sym, ap, ◌∙◌, subst, Bool, true, Option, none, some, List,
  [], ◌∷◌, ◌++◌, length, leb, ◌==◌, if_intro, arith,
}
use moestream.Prelude.Int.{ℤ}
use moestream.Loader.Names.{parse_dense_any}
use moestream.Gguf.Stream.{File}
use moestream.Gguf.Stream.Laws.{Holds, Holds-front, Holds-back}
use moestream.Gguf.Tensors.{Tensor, c_str}
use moestream.Gguf.Tensors.Laws.{
  encode_tensor, encode_tensors, AllWellFormed, rd_tensor-encode_tensor,
}
use moestream.Gguf.Tensors.Table.{Contents, IsShard, table_at, tensor_table-encode_shard}
use moestream.Gguf.Tensors.Sizes.{AreShards}
use moestream.Gguf.Tensors.Scan.{
  Scan, with_entry, entry_next, rd_entries, add_sorted, entries_from, scan_shard, scan_shards,
  greatest, no_bytes, total_and_max, gguf_scan_streamable,
}
use moestream.Gguf.Tensors.Scan.PerLayer.{AllBelow, greatest-le, bytes_in_layer-le-greatest}
use moestream.Gguf.Tensors.Scan.Laws.{
  claimed_by, claimed, all_claimed, sum, layer_sum, sum-append, claim_all, claim_all-append,
  claim_all-total, claim_all-layer, claim_all-AllBelow, add_entries-all_claimed,
}

-- Shards whose size is known.
abbrev pub with_stat : List File → List (Option (File × Bool))
with_stat [] = []
with_stat (f ∷ fs) = some (f, true) ∷ with_stat fs

abbrev pub Ascending : List Tensor → Type 0
Ascending [] = Unit {0}
Ascending (t ∷ []) = Unit {0}
Ascending (t ∷ u ∷ ts) = (t.off ≤ u.off) × Ascending (u ∷ ts)

abbrev pub Inside : ℕ → List Tensor → Type 0
Inside size ts = (t : Tensor) → Mem t ts → t.off ≤ size

abbrev pub AllInside : List File → List Contents → Type 0
AllInside (f ∷ fs) (c ∷ cs) = Inside f.size c.tensors × AllInside fs cs
AllInside fs cs = Unit {0}

abbrev pub sizes : List File → ℕ
sizes [] = 0
sizes (f ∷ fs) = f.size + sizes fs

rd_entries-encode_tensors :
    (f : File) (ts : List Tensor) (at : ℕ)
    → AllWellFormed ts
    → Holds f at (encode_tensors ts)
    → rd_entries f (length ts) at ≡ some ts
unfolding rd_entries
rd_entries-encode_tensors f [] at w h = refl
rd_entries-encode_tensors f (t ∷ ts) at (w, ws) h =
    ap (entry_next (λ next. rd_entries f (length ts) next))
      (rd_tensor-encode_tensor f t at w (Holds-front f (encode_tensor t) (encode_tensors ts) at h))
    ∙ ap (with_entry t) (
        rd_entries-encode_tensors f ts (at + length (encode_tensor t)) ws
          (Holds-back f (encode_tensor t) (encode_tensors ts) at h))

claimed-le :
    (least : ℕ) (e : Tensor) (end : ℕ) → e.off ≤ end → sum (claimed least e end) + e.off ≤ end
claimed-le least e end h =
    if_intro P (leb end e.off) _ _ (λ q. omega (arith, h))
      (λ q.
        if_intro P (length e.dims == 2) _ _
          (λ r. one_claimed (parse_dense_any least (c_str e.name) (end - e.off)))
          (λ r. omega (arith, h)))
  where
    P : List (ℤ × ℕ) → Type 0
    P cl = sum cl + e.off ≤ end

    one_claimed : (o : Option (ℤ × ℕ)) → sum (claimed_by o (end - e.off)) + e.off ≤ end
    one_claimed none = omega (arith, h)
    one_claimed (some (il, role)) = omega (arith, h)

all_claimed-le :
    (least fsz : ℕ) (e : Tensor) (es : List Tensor)
    → Ascending (e ∷ es)
    → Inside fsz (e ∷ es)
    → sum (all_claimed least fsz (e ∷ es)) + e.off ≤ fsz
all_claimed-le least fsz e [] asc h =
    let one = claimed-le least e fsz (h e mem-cons_self) in
    omega (arith, one, sum-append (claimed least e fsz) [])
all_claimed-le least fsz e (u ∷ es) (le, asc) h =
    let rest = all_claimed-le least fsz u es asc (λ t m. h t (mem-cons_of_mem e m)) in
    let one = claimed-le least e u.off le in
    omega (arith, rest, one, sum-append (claimed least e u.off) (all_claimed least fsz (u ∷ es)))

module _ (least : ℕ) (sort : List Tensor → List Tensor) where
  -- What would be claimed of every shard.
  abbrev pub streamable : List File → List Contents → List (ℤ × ℕ)
  streamable (f ∷ fs) (c ∷ cs) = all_claimed least f.size (sort c.tensors) ++ streamable fs cs
  streamable fs cs = []

  -- What is documented of `std::sort`.
  abbrev pub SortsByOffset : Type 0
  SortsByOffset = (ts : List Tensor) → Perm (sort ts) ts × Ascending (sort ts)

  shard_le :
      (size : ℕ) (ts : List Tensor)
      → Ascending ts
      → Inside size ts
      → sum (all_claimed least size ts) ≤ size
  shard_le size [] asc h = omega arith
  shard_le size (t ∷ ts) asc h = omega (arith, all_claimed-le least size t ts asc h)

  streamable-le :
      (fs : List File) (cs : List Contents)
      → SortsByOffset
      → AllInside fs cs
      → sum (streamable fs cs) ≤ sizes fs
  streamable-le [] cs by h = omega arith
  streamable-le (f ∷ fs) [] by h = omega arith
  streamable-le (f ∷ fs) (c ∷ cs) by (h, w) =
      let (perm, asc) = by c.tensors in
      let one = shard_le f.size (sort c.tensors) asc (λ t m. h t ((Perm.mem_iff perm).0 m)) in
      omega (
        arith,
        one,
        streamable-le fs cs by w,
        sum-append (all_claimed least f.size (sort c.tensors)) (streamable fs cs),
      )

  scan_shard-lem :
      (f : File) (c : Contents) (s : Scan)
      → IsShard f c
      → scan_shard least sort (some (f, true)) s
        ≡ claim_all (all_claimed least f.size (sort c.tensors)) s
  unfolding scan_shard
  scan_shard-lem f c s (small, v, t, k, w, x, h) =
      let (table, here) = tensor_table-encode_shard true f c (small, v, t, k, w, x, h) in
      ap (λ (o : Option (ℕ × ℕ)). add_sorted least sort f.size (entries_from least sort f o) s)
        table
      ∙ ap (λ (o : Option (List Tensor)). add_sorted least sort f.size o s)
          (rd_entries-encode_tensors f c.tensors (table_at c) x here)
      ∙ add_entries-all_claimed least f.size (sort c.tensors) s

  scan_shards-lem :
      (fs : List File) (cs : List Contents) (s : Scan)
      → AreShards fs cs
      → scan_shards least sort (with_stat fs) s ≡ claim_all (streamable fs cs) s
  unfolding scan_shards
  scan_shards-lem [] [] s w = refl
  scan_shards-lem [] (c ∷ cs) s w = absurd w
  scan_shards-lem (f ∷ fs) [] s w = absurd w
  scan_shards-lem (f ∷ fs) (c ∷ cs) s (h, w) =
      ap (scan_shards least sort (with_stat fs)) (scan_shard-lem f c s h)
      ∙ scan_shards-lem fs cs _ w
      ∙ sym (claim_all-append (all_claimed least f.size (sort c.tensors)) (streamable fs cs) s)

  -- The total is the sum of what would be claimed, and at most the size of the files; the largest
  -- layer has at least the bytes of every layer, and at most the total.
  abbrev pub Sums : List File → List (ℤ × ℕ) → ℕ × ℕ → Type 0
  Sums fs cl (total, layer_max) =
      (total ≡ sum cl)
      × (total ≤ sizes fs)
      × (layer_max ≤ total)
      × ((il : ℤ) → layer_sum il cl ≤ layer_max)

layer_sum-le : (il : ℤ) (cl : List (ℤ × ℕ)) → layer_sum il cl ≤ sum cl
layer_sum-le il [] = omega arith
layer_sum-le il ((k, n) ∷ cl) = ground (arith, layer_sum-le il cl)

-- Shards that were written by the format, each smaller than 2^63 bytes and with a size that is known,
-- fewer than 2^64 bytes together, and with no tensor that begins behind the end of its file; the
-- entries are sorted by their offsets: no sum wraps around. The total is the sum of the bytes that
-- would be claimed and at most the size of the files, and the largest layer has at least as many bytes
-- as every layer and at most the total.
pub gguf_scan_streamable-Sums :
    (least : ℕ) (sort : List Tensor → List Tensor) (fs : List File) (cs : List Contents)
    → SortsByOffset least sort
    → AreShards fs cs
    → AllInside fs cs
    → sizes fs < 2 ^ 64
    → Sums least sort fs
        (streamable least sort fs cs)
        (gguf_scan_streamable least sort (with_stat fs))
unfolding gguf_scan_streamable
gguf_scan_streamable-Sums least sort fs cs by w inside low =
    subst (λ (s : Scan). Sums least sort fs cl (total_and_max s))
      (sym (scan_shards-lem least sort fs cs no_bytes w))
      (total, omega (arith, total, le), omega (arith, total, most), layers)
  where
    cl : List (ℤ × ℕ)
    cl = streamable least sort fs cs

    done : Scan
    done = claim_all cl no_bytes

    le : sum cl ≤ sizes fs
    le = streamable-le least sort fs cs by inside

    total : done.total ≡ sum cl
    total = omega (arith, le, low, claim_all-total cl no_bytes (omega arith))

    most : greatest done.per_layer 0 ≤ sum cl
    most = greatest-le done.per_layer 0 (sum cl) (omega arith) (
        subst (λ (n : ℕ). AllBelow n done.per_layer) (omega arith)
          (claim_all-AllBelow cl no_bytes 0 tt))

    layers : (il : ℤ) → layer_sum il cl ≤ greatest done.per_layer 0
    layers il =
        let sum_il = claim_all-layer cl no_bytes il (omega arith) in
        omega (
          arith,
          sum_il,
          bytes_in_layer-le-greatest il done.per_layer 0,
          layer_sum-le il cl,
          le,
          low,
        )
