-- ===== src/Prelude/Shares.antt =====
-- Sharing `n` things out over `k`, rounded up.
use Prim.Native.Nat.{ℕ, ◌+◌, ◌-◌, ◌*◌, ◌/◌, ◌≤◌, ◌<◌}
use native.Mathlib.Omega.{arith}
use native.Mathlib.Nat.{lt-mul-div-succ}

-- `k` shares are enough for all `n`.
pub shares_suffice : (n k : ℕ) → 0 < k → n ≤ k * ((n + k - 1) / k)
shares_suffice n k h = omega (arith, lt-mul-div-succ (n + k - 1) h)
