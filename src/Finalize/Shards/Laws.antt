-- ===== src/Finalize/Shards/Laws.antt =====
-- After the checks a read of an expert stays inside its shard, and gets the expert's bytes.
use moestream.Prelude.{
  ℕ, zero, suc, ◌+◌, ◌*◌, ◌^◌, ◌≤◌, ◌<◌, ◌≡◌, ◌⊎◌, refl, sym, ap, ◌∙◌, Bool, true, false, not, ◌&&◌,
  ◌||◌, Option, none, some, List, [], ◌∷◌, ltb, if◌then◌else◌, Bool-cases, inl, inr, arith,
}
use mathlib.Core.Option.{some-injective, none-ne-some}
use moestream.Prelude.Int.{ℤ}
use moestream.Cache.Inv.{row-le}
use moestream.Io.Read.{SlabInfo, Pread, do_read}
use moestream.Io.Read.Laws.{AtMost, Readable, do_read-bytes}
use moestream.Loader.Tables.{LayerSlabs}
use moestream.Loader.Map.{same_key, lookup}
use moestream.Finalize.Shards.{
  Fd, open_shards, fd_at, end_in_shard, fits_in, slab_fits, layer_fits, all_fit, checked,
  check_shards, is_open,
}

-- A member of a layer.
abbrev pub IsMember : SlabInfo → LayerSlabs → Type 0
IsMember si l = (si ≡ l.gate) ⊎ ((si ≡ l.up) ⊎ (si ≡ l.down))

and_both : (a b : Bool) → (a && b) ≡ true → (a ≡ true) × (b ≡ true)
and_both true b h = (refl, h)
and_both false b h = ground arith

fits_in_fd :
    (end : ℕ) (fd : Option Fd)
    → fits_in end fd ≡ true
    → (size : ℕ) × (fd ≡ some (some size)) × (end ≤ size)
fits_in_fd end (some (some size)) h = (size, refl, ground (arith, h))
fits_in_fd end (some none) h = absurd (ground arith)
fits_in_fd end none h = absurd (ground arith)

fd_at-is_open : (fds : List Fd) (i : ℕ) (fd : Fd) → fd_at i fds ≡ some fd → is_open fds i ≡ true
fd_at-is_open [] i fd h = absurd (ground arith)
fd_at-is_open (x ∷ fds) zero fd h = refl
fd_at-is_open (x ∷ fds) (suc i) fd h = fd_at-is_open fds i fd h

all_fit-lookup :
    (fds : List Fd) (layers : List (ℤ × LayerSlabs)) (il : ℤ) (l : LayerSlabs)
    → all_fit fds layers ≡ true
    → lookup il layers ≡ some l
    → layer_fits fds l ≡ true
unfolding all_fit lookup
all_fit-lookup fds [] il l h q = absurd (ground arith)
all_fit-lookup fds ((k, x) ∷ layers) il l h q = elim (Bool-cases (same_key k il)) [
  | inl s ↦
      let same =
        some-injective x l
          (sym (ap (λ (b : Bool). if b then some x else lookup il layers) s) ∙ q) in
      ap (layer_fits fds) (sym same) ∙ (and_both (layer_fits fds x) (all_fit fds layers) h).0
  | inr s ↦
      all_fit-lookup fds layers il l (and_both (layer_fits fds x) (all_fit fds layers) h).1
        (sym (ap (λ (b : Bool). if b then some x else lookup il layers) s) ∙ q)
]

checked-all_fit :
    (layers : List (ℤ × LayerSlabs)) (o : Option (List Fd)) (fds : List Fd)
    → checked layers o ≡ some fds
    → all_fit fds layers ≡ true
checked-all_fit layers none fds h = absurd (ground arith)
checked-all_fit layers (some x) fds h = elim (Bool-cases (all_fit x layers)) [
  | inl s ↦
      let same = some-injective x fds (sym (ap (λ (b : Bool). if b then some x else none) s) ∙ h) in
      ap (λ (y : List Fd). all_fit y layers) (sym same) ∙ s
  | inr s ↦ absurd (none-ne-some fds (sym (ap (λ (b : Bool). if b then some x else none) s) ∙ h))
]

check_shards-all_fit :
    (layers : List (ℤ × LayerSlabs)) (shards : List (Option Fd)) (fds : List Fd)
    → check_shards layers shards ≡ some fds
    → all_fit fds layers ≡ true
unfolding check_shards
check_shards-all_fit layers [] fds h = absurd (none-ne-some fds h)
check_shards-all_fit layers (s ∷ shards) fds h =
    checked-all_fit layers (open_shards (s ∷ shards)) fds h

member_fits :
    (fds : List Fd) (si : SlabInfo) (l : LayerSlabs)
    → IsMember si l
    → layer_fits fds l ≡ true
    → slab_fits fds si ≡ true
member_fits fds si l (inl q) h = ap (slab_fits fds) q ∙ (and_both (slab_fits fds l.gate) _ h).0
member_fits fds si l (inr (inl q)) h =
    ap (slab_fits fds) q
    ∙ (and_both (slab_fits fds l.up) _ (and_both (slab_fits fds l.gate) _ h).1).0
member_fits fds si l (inr (inr q)) h =
    ap (slab_fits fds) q
    ∙ (and_both (slab_fits fds l.up) (slab_fits fds l.down)
        (and_both (slab_fits fds l.gate) _ h).1).1

present_fits :
    (si : SlabInfo) (b : Bool) → si.present ≡ true → (not si.present || b) ≡ true → b ≡ true
present_fits si b p h = sym (ap (λ (q : Bool). not q || b) p) ∙ h

row_inside : (off b n e size : ℕ) → e < n → off + b * n ≤ size → off + e * b + b ≤ size
row_inside off b n e size below h = omega (arith, h, row-le e n b below)

-- The shards passed the checks, and a member of a layer is registered, with a region that does not
-- wrap around 64 bits: for each of its experts the shard is open, the bytes of the expert lie inside
-- the shard, and if the shard reads without error up to the size that `fstat` gave, where `pread` returns
-- at most what was asked for, a read puts exactly these bytes into the buffer.
pub check_shards-do_read :
    (layers : List (ℤ × LayerSlabs)) (shards : List (Option Fd)) (fds : List Fd) (il : ℤ)
    (l : LayerSlabs) (si : SlabInfo) (e : ℕ) (files : ℕ → ℕ → ℕ) (pread : Pread) (buf : ℕ → ℕ)
    → check_shards layers shards ≡ some fds
    → lookup il layers ≡ some l
    → IsMember si l
    → si.present ≡ true
    → si.file_offset + si.expert_bytes * si.n_expert < 2 ^ 64
    → e < si.n_expert
    → AtMost pread
    → ((size : ℕ) → fd_at si.file_idx fds ≡ some (some size) → Readable size pread)
    → ((size : ℕ) × (fd_at si.file_idx fds ≡ some (some size))
        × (si.file_offset + e * si.expert_bytes + si.expert_bytes ≤ size))
      × ((i : ℕ)
          → do_read files pread (is_open fds) si e buf i ≡ (
              if ltb i si.expert_bytes
              then files si.file_idx (si.file_offset + e * si.expert_bytes + i)
              else buf i))
check_shards-do_read layers shards fds il l si e files pread buf passed here member present whole
      below most go =
    let fits =
      all_fit-lookup fds layers il l (check_shards-all_fit layers shards fds passed) here in
    let one = present_fits si _ present (member_fits fds si l member fits) in
    let (size, opened, inside) = fits_in_fd (end_in_shard si) (fd_at si.file_idx fds) one in
    let row =
      row_inside si.file_offset si.expert_bytes si.n_expert e
        (si.file_offset + si.expert_bytes * si.n_expert) below (omega arith) in
    (
      (size, opened, omega (arith, row, inside, whole)),
      λ i.
          do_read-bytes files pread (is_open fds) si e size buf most (go size opened)
            (fd_at-is_open fds si.file_idx (some size) opened) (omega (arith, row, inside, whole)) i
          ∙ ap (λ (off : ℕ). if ltb i si.expert_bytes then files si.file_idx (off + i) else buf i)
              (omega (arith, row, whole)),
    )
