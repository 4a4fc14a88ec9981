-- ===== src/Gguf/Stream.antt =====
-- src/llama-moestream.cpp, a file that is read: its bytes, and a position. A chain of reads ends at
-- the first that fails.
pub mod Laws
use moestream.Prelude.{
  ℕ, zero, suc, ◌+◌, ◌-◌, ◌*◌, ◌^◌, Bool, true, false, Option, none, some, List, [], ◌∷◌, ltb, leb,
  ◌==◌, if◌then◌else◌,
}

pub record File : Type 0 where
  pub size : ℕ
  pub byte : ℕ → ℕ

infixl 20 ◌>>=◌
abbrev pub ◌>>=◌ : {A B : Type 0} → Option A → (A → Option B) → Option B
none >>= f = none
some a >>= f = f a

module _ (f : File) where
  -- `n` bytes from `at` on, the first one the lowest.
  unfoldable pub number_at : ℕ → ℕ → ℕ
  number_at zero at = 0
  number_at (suc n) at = f.byte at + 256 * number_at n (at + 1)

  unfoldable pub bytes_at : ℕ → ℕ → List ℕ
  bytes_at zero at = []
  bytes_at (suc n) at = f.byte at ∷ bytes_at n (at + 1)

  -- `rd(p, n)`: what was read, and the position behind it.
  abbrev pub rd : ℕ → ℕ → Option (ℕ × ℕ)
  rd n at = if leb (at + n) f.size then some (number_at n at, at + n) else none

  abbrev pub rd_bytes : ℕ → ℕ → Option (List ℕ × ℕ)
  rd_bytes n at = if leb (at + n) f.size then some (bytes_at n at, at + n) else none

-- `fseek(f, (long) n, SEEK_CUR)`. A number from 2^63 on is a step back; a position before the file
-- or beyond a `long` is refused.
abbrev pub seek : ℕ → ℕ → Option ℕ
seek n at =
    if ltb n (2 ^ 63)
    then if ltb (at + n) (2 ^ 63) then some (at + n) else none
    else if leb (2 ^ 64) (at + n)
    then some (at + n - 2 ^ 64)
    else none

-- "GGUF"
abbrev pub magic : ℕ
magic = 71 + 256 * (71 + 256 * (85 + 256 * 70))

-- The numbers of tensors and of keys, and the position behind the header.
unfoldable pub read_header : File → Option (ℕ × ℕ × ℕ)
unfolding number_at
read_header f = do
  (m, a) ← rd f 4 0
  (version, b) ← rd f 4 a
  (n_tensor, c) ← rd f 8 b
  (n_kv, d) ← rd f 8 c
  if m == magic then some (n_tensor, n_kv, d) else none
