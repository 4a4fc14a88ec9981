-- ===== src/Prelude/Words.antt =====
-- Machine words kept as natural numbers with their wrap-around written out.
use Prim.Native.Nat.{ℕ, ◌+◌, ◌-◌, ◌^◌, ◌%◌}

-- `++` on a `uint64_t`, a `uint32_t` and a `uint16_t`.
abbrev pub inc64 : ℕ → ℕ
inc64 n = (n + 1) % 2 ^ 64

abbrev pub inc32 : ℕ → ℕ
inc32 n = (n + 1) % 2 ^ 32

abbrev pub inc16 : ℕ → ℕ
inc16 n = (n + 1) % 2 ^ 16

-- `--` on a `uint32_t`: below zero it wraps.
abbrev pub dec32 : ℕ → ℕ
dec32 n = (n + (2 ^ 32 - 1)) % 2 ^ 32
