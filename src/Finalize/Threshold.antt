-- ===== src/Finalize/Threshold.antt =====
-- src/llama-moestream.cpp, `finalize`: above how many tokens a batch takes the prefill path, if that
-- is not set.
pub mod Laws
use moestream.Prelude.{ℕ, zero, suc, ◌+◌, ◌-◌, ◌*◌, Bool, true, false, not, ltb, if◌then◌else◌}
use moestream.Prelude.Int.{ℤ, pos, ltb_ℤ}
use moestream.Cache.Doubles.{Doubles}
use moestream.Loader.Slots.{known_topk, percent, union_of}

-- The loop from `n` on, for at most `k` steps; `exceeds n` ends it.
unfoldable pub grow : (ℕ → Bool) → ℕ → ℕ → ℕ
grow exceeds zero n = n
grow exceeds (suc k) n = let rest = grow exceeds k (n + 1) in if exceeds n then n else rest

module _ (D : Doubles) where
  open D use {from_nat, add, mul, lt}

  -- The experts of `n + 1` tokens need more slots than there are.
  abbrev pub exceeds : ℕ → ℕ → ℕ → ℕ → Bool
  exceeds n_expert top_k slots n =
      let u = union_of D n_expert (from_nat top_k) (n + 1) in
      lt (from_nat slots) (add (mul u (percent D 115)) (from_nat top_k))

  -- `g_pf_threshold`.
  unfoldable pub pf_threshold : ℕ → ℤ → ℕ → ℕ → ℤ → ℤ
  pf_threshold n_expert tk_m seen slots threshold =
      if ltb_ℤ threshold (pos 0)
      then pos (grow (exceeds n_expert (known_topk tk_m seen) slots) 4095 1)
      else threshold
