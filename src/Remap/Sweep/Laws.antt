-- ===== src/Remap/Sweep/Laws.antt =====
-- The passes of a sweep share the experts of a batch out among them.
use moestream.Prelude.{
  shares_suffice, ℕ, zero, suc, ◌+◌, ◌-◌, ◌*◌, ◌/◌, ◌≤◌, ◌<◌, ◌≡◌, ◌∙◌, ◌&&◌, List, [], ◌∷◌, ltb,
  length, count, count-append, if◌then◌else◌, sum_below, arith, ap,
}
use native.Mathlib.Decide.{ℕ_discrete}
use moestream.Prelude.Int.{ℤ}
use moestream.Remap.Sweep.{seen, distinct, window, smaller, in_pass}

count-distinct :
    (e n : ℕ) (ids : List ℤ)
    → count e (distinct n ids) ≡ (if ltb e n then if seen e ids then 1 else 0 else 0)
unfolding distinct
count-distinct e zero ids = ground arith
count-distinct e (suc n) ids = elim (ℕ_discrete n e) [
  | yes p ↦ ground (
    arith,
    count-append e (distinct n ids) (if seen n ids then n ∷ [] else []),
    count-distinct e n ids,
    ap (λ (k : ℕ). seen k ids) p,
  )
  | no p ↦ ground (
    arith,
    count-append e (distinct n ids) (if seen n ids then n ∷ [] else []),
    count-distinct e n ids,
  )
]

-- One window ends where the next one starts.
window-split :
    (e i lo mid hi : ℕ) (xs : List ℕ)
    → lo ≤ mid
    → mid ≤ hi
    → count e (window i lo mid xs) + count e (window i mid hi xs) ≡ count e (window i lo hi xs)
unfolding window
window-split e i lo mid hi [] h k = omega arith
window-split e i lo mid hi (x ∷ xs) h k = ground (arith, window-split e (i + 1) lo mid hi xs h k)

window-whole :
    (e i hi : ℕ) (xs : List ℕ) → i + length xs ≤ hi → count e (window i 0 hi xs) ≡ count e xs
unfolding window
window-whole e i hi [] h = omega arith
window-whole e i hi (x ∷ xs) h = ground (arith, window-whole e (i + 1) hi xs (omega arith))

window-empty : (e i : ℕ) (xs : List ℕ) (lo : ℕ) → count e (window i lo lo xs) ≡ 0
unfolding window
window-empty e i [] lo = omega arith
window-empty e i (x ∷ xs) lo = ground (arith, window-empty e (i + 1) xs lo)

smaller-bound : (n a : ℕ) → smaller n a ≤ n
smaller-bound n a = ground arith

smaller-le : (n mid per : ℕ) → mid ≤ n → mid ≤ smaller n (mid + per)
smaller-le n mid per h = ground arith

smaller-step : (n p per : ℕ) → smaller n (smaller n (p * per) + per) ≡ smaller n (suc p * per)
smaller-step n p per = ground arith

-- The passes below `p` together own the first `p` shares.
windows :
    (e n per : ℕ) (xs : List ℕ) (p : ℕ)
    → sum_below p
        (λ q. count e (window 0 (smaller n (q * per)) (smaller n (smaller n (q * per) + per)) xs))
      ≡ count e (window 0 0 (smaller n (p * per)) xs)
unfolding sum_below
windows e n per xs zero = ground (arith, window-empty e 0 xs 0)
windows e n per xs (suc p) =
    let mid = smaller n (p * per) in
    ground (
      arith,
      windows e n per xs p,
      window-split e 0 0 mid (smaller n (mid + per)) xs (omega arith)
          (smaller-le n mid per (smaller-bound n (p * per))),
      smaller-step n p per,
    )

-- Every expert of the batch is owned by exactly one of the passes, and no pass owns another
-- number, for any number of passes but 0.
pub in_pass-partition :
    (np n_expert : ℕ) (ids : List ℤ) (e : ℕ)
    → 0 < np
    → sum_below np (λ p. count e (in_pass np p n_expert ids))
      ≡ (if ltb e n_expert && seen e ids then 1 else 0)
unfolding in_pass
in_pass-partition np n_expert ids e h =
    let ds = distinct n_expert ids in
    let n = length ds in
    let per = (n + np - 1) / np in
    let all : smaller n (np * per) ≡ n = ground (arith, shares_suffice n np h) in
    windows e n per ds np
    ∙ ap (λ (hi : ℕ). count e (window 0 0 hi ds)) all
    ∙ window-whole e 0 n ds (omega arith)
    ∙ count-distinct e n_expert ids
    ∙ ground arith
