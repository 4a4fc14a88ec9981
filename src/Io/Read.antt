-- ===== src/Io/Read.antt =====
-- src/llama-moestream.cpp, `do_read` and the loop over `pread` that the readers share.
pub mod Laws
use moestream.Prelude.{
  ℕ, zero, suc, ◌+◌, ◌-◌, ◌*◌, ◌%◌, ◌^◌, Bool, true, false, not, ◌&&◌, ◌||◌, leb, ltb, ◌==◌,
  if◌then◌else◌,
}
use moestream.Prelude.Int.{ℤ, pos_part}

-- What the `k`-th call of `pread` returns for `left` bytes at `off`. The bytes that a positive
-- number announces are then in the buffer.
abbrev pub Pread : Type 0
Pread = ℕ → ℕ → ℕ → ℤ

-- Where a member's experts are in the model's files.
pub record SlabInfo : Type 0 where
  -- `t` is not null.
  pub present : Bool
  pub file_offset : ℕ
  pub expert_bytes : ℕ
  pub n_expert : ℕ
  pub file_idx : ℕ

-- The buffer with the bytes of the file from `off + o` on, `n` of them, at `dst + o`.
abbrev pub received : (ℕ → ℕ) → ℕ → ℕ → ℕ → ℕ → (ℕ → ℕ) → ℕ → ℕ
received file dst off o n buf i =
    if leb (dst + o) i && ltb i (dst + (o + n)) then file (off + (i - dst)) else buf i

-- `while (left) { r = pread(…); if (r <= 0) break; o += r; left -= r; }`: the buffer and `o`.
unfoldable pub read_loop : (ℕ → ℕ) → Pread → ℕ → ℕ → ℕ → ℕ → ℕ → ℕ → (ℕ → ℕ) → (ℕ → ℕ) × ℕ
read_loop file pread dst off zero k left o buf = (buf, o)
read_loop file pread dst off (suc fuel) k left o buf =
    let n = pos_part (pread k (off + o) left) in
    let rest =
      read_loop file pread dst off fuel (k + 1) (left - n) (o + n)
        (received file dst off o n buf) in
    if left == 0 || n == 0 then (buf, o) else rest

-- `bytes` bytes from `off` to `dst`.
unfoldable pub read_range : (ℕ → ℕ) → Pread → ℕ → ℕ → ℕ → (ℕ → ℕ) → (ℕ → ℕ) × ℕ
unfolding read_loop
read_range file pread dst off bytes buf = read_loop file pread dst off bytes 0 bytes 0 buf

-- `(off_t)(file_offset + uint64_t(expert) * expert_bytes)`.
abbrev pub expert_offset : SlabInfo → ℕ → ℕ
expert_offset si e = (si.file_offset + e * si.expert_bytes) % 2 ^ 64

-- `files i` is shard `i`; `fd_open i` says that `g_fds[i]` exists and is not negative.
unfoldable pub do_read : (ℕ → ℕ → ℕ) → Pread → (ℕ → Bool) → SlabInfo → ℕ → (ℕ → ℕ) → ℕ → ℕ
unfolding read_range
do_read files pread fd_open si e buf =
    if not (fd_open si.file_idx)
    then buf
    else (read_range (files si.file_idx) pread 0 (expert_offset si e) si.expert_bytes buf).0
