-- ===== src/Finalize/Shards.antt =====
-- src/llama-moestream.cpp, `finalize`: every shard is opened, and every weight of the experts must
-- lie in the shard it names. An open shard is what `fstat` says of it.
pub mod Laws
use moestream.Prelude.{
  ℕ, zero, suc, ◌+◌, ◌*◌, ◌%◌, ◌^◌, Bool, true, false, not, ◌&&◌, ◌||◌, Option, none, some, List,
  [], ◌∷◌, ltb, leb, if◌then◌else◌,
}
use moestream.Prelude.Int.{ℤ}
use moestream.Io.Read.{SlabInfo}
use moestream.Loader.Tables.{LayerSlabs}

-- The size by `fstat`, if that succeeds.
abbrev pub Fd : Type 0
Fd = Option ℕ

-- `g_fds`.
abbrev pub and_fd : Fd → Option (List Fd) → Option (List Fd)
and_fd fd (some fds) = some (fd ∷ fds)
and_fd fd none = none

-- Nothing if a shard cannot be opened; the others are then closed.
unfoldable pub open_shards : List (Option Fd) → Option (List Fd)
open_shards [] = some []
open_shards (none ∷ shards) = none
open_shards (some fd ∷ shards) = and_fd fd (open_shards shards)

abbrev pub fd_at : ℕ → List Fd → Option Fd
fd_at i [] = none
fd_at zero (fd ∷ fds) = some fd
fd_at (suc i) (fd ∷ fds) = fd_at i fds

-- `file_offset + expert_bytes * n_expert`.
abbrev pub end_in_shard : SlabInfo → ℕ
end_in_shard si = (si.file_offset + si.expert_bytes * si.n_expert) % 2 ^ 64

abbrev pub fits_in : ℕ → Option Fd → Bool
fits_in end (some (some size)) = leb end size
fits_in end (some none) = false
fits_in end none = false

abbrev pub slab_fits : List Fd → SlabInfo → Bool
slab_fits fds si = not si.present || fits_in (end_in_shard si) (fd_at si.file_idx fds)

abbrev pub layer_fits : List Fd → LayerSlabs → Bool
layer_fits fds l = slab_fits fds l.gate && (slab_fits fds l.up && slab_fits fds l.down)

unfoldable pub all_fit : List Fd → List (ℤ × LayerSlabs) → Bool
all_fit fds [] = true
all_fit fds ((il, l) ∷ layers) = layer_fits fds l && all_fit fds layers

abbrev pub checked : List (ℤ × LayerSlabs) → Option (List Fd) → Option (List Fd)
checked layers (some fds) = if all_fit fds layers then some fds else none
checked layers none = none

-- `g_fds` after the checks; nothing if the path of the experts is turned off.
unfoldable pub check_shards : List (ℤ × LayerSlabs) → List (Option Fd) → Option (List Fd)
unfolding open_shards all_fit
check_shards layers [] = none
check_shards layers (s ∷ shards) = checked layers (open_shards (s ∷ shards))

-- `fd_open` of a read.
abbrev pub is_open : List Fd → ℕ → Bool
is_open [] i = false
is_open (fd ∷ fds) zero = true
is_open (fd ∷ fds) (suc i) = is_open fds i
