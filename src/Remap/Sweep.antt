-- ===== src/Remap/Sweep.antt =====
-- src/llama-moestream.cpp, the part of `ms_remap_fn` that chooses the experts of one sweep pass.
pub mod Laws
use moestream.Prelude.{
  ℕ, zero, suc, ◌+◌, ◌-◌, ◌*◌, ◌/◌, Bool, true, false, ◌||◌, List, [], ◌∷◌, ◌++◌, ltb, ◌==◌, length,
  elem, if◌then◌else◌,
}
use moestream.Prelude.Int.{ℤ, pos, negsuc}

-- `e` if `0 <= e < n_expert`.
abbrev pub seen : ℕ → List ℤ → Bool
seen e [] = false
seen e (pos k ∷ ids) = if k == e then true else seen e ids
seen e (negsuc k ∷ ids) = seen e ids

-- The experts below `n` that the batch asks for, in ascending order.
unfoldable pub distinct : ℕ → List ℤ → List ℕ
distinct zero ids = []
distinct (suc n) ids = distinct n ids ++ (if seen n ids then n ∷ [] else [])

-- The elements at places `lo` up to `hi`, the list's head being at place `i`.
unfoldable pub window : ℕ → ℕ → ℕ → List ℕ → List ℕ
window i lo hi [] = []
window i lo hi (x ∷ xs) =
    let rest = window (i + 1) lo hi xs in
    if ltb i lo then rest else if ltb i hi then x ∷ rest else rest

abbrev pub smaller : ℕ → ℕ → ℕ
smaller a b = if ltb b a then b else a

-- The experts of pass `pass` out of `np`.
unfoldable pub in_pass : ℕ → ℕ → ℕ → List ℤ → List ℕ
unfolding distinct window
in_pass np pass n_expert ids =
    let ds = distinct n_expert ids in
    let per = (length ds + np - 1) / np in
    let lo = smaller (length ds) (pass * per) in
    let hi = smaller (length ds) (lo + per) in window 0 lo hi ds

-- The same under the diagnostic `MOESTREAM_SWEEP_TEST`, which is 0 when unset.
unfoldable pub owned_experts : ℕ → ℕ → ℕ → ℕ → List ℤ → List ℕ
unfolding in_pass distinct
owned_experts sweep_test np pass n_expert ids =
    if sweep_test == 2 || sweep_test == 4
    then distinct n_expert ids
    else if sweep_test == 1
    then (if pass == 0 then distinct n_expert ids else [])
    else in_pass np pass n_expert ids
