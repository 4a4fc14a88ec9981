-- ===== src/Prefill/Request/Laws.antt =====
-- The tokens of the first request are within the total, and a request is counted once.
use moestream.Prelude.{
  ℕ, ◌+◌, ◌-◌, ◌%◌, ◌^◌, ◌<◌, ◌≤◌, ◌≡◌, ap, ◌∙◌, not, ◌&&◌, ◌||◌, leb, ◌==◌, if◌then◌else◌,
  if_intro, arith,
}
use native.Mathlib.Nat.{mod-eq_of_lt, add-mod_right}
use moestream.Cache.Doubles.{Doubles}
use moestream.Prefill.State.{PassTimes}
use moestream.Prefill.Request.{Requests, sub64, add_request, pf_req_close, counted_tok}

sub64_small : (a b : ℕ) → b ≤ a → a < 2 ^ 64 → sub64 a b ≡ a - b
sub64_small a b h q =
    ap (λ (x : ℕ). x % 2 ^ 64) (omega arith)
    ∙ add-mod_right (a - b) (2 ^ 64)
    ∙ mod-eq_of_lt {n = a - b} {m = 2 ^ 64} (omega arith)

module _ (D : Doubles) where
  open D use {Double, from_nat, sub, le, lt}

  -- The first request's tokens are among the counted ones.
  abbrev pub FirstWithin : Requests Double → Type 0
  FirstWithin r = (0 < r.intervals → r.first_tok ≤ r.tok_total) × (r.tok_total < 2 ^ 64)

  -- While the tokens fit in 64 bits, a closed request keeps the tokens of the first one within the
  -- total, and the tokens that the rate is taken of are the total, without those of the first
  -- request once there are two.
  pub pf_req_close-FirstWithin :
      (now : Double) (p : PassTimes Double) (r : Requests Double)
      → FirstWithin r
      → r.tok_total + p.req_tok < 2 ^ 64
      → r.intervals + 1 < 2 ^ 64
      → let after = (pf_req_close D now (p, r)).1 in
        FirstWithin after
        × (counted_tok D after ≡ (
            if leb 2 after.intervals then after.tok_total - after.first_tok else after.tok_total))
  unfolding pf_req_close
  pf_req_close-FirstWithin now p r w fits few =
      if_intro P (le p.req_t0 (from_nat 0) || p.req_tok == 0) _ _ (λ a. whole r w)
        (λ a.
          if_intro P (not (lt (from_nat 0) dt && lt dt (from_nat 3600))) _ _ (λ b. whole r w)
            (λ b. whole (add_request D dt p.req_tok r) added))
    where
      dt : Double
      dt = sub now p.req_t0

      P : PassTimes Double × Requests Double → Type 0
      P x =
          FirstWithin x.1
          × (counted_tok D x.1
              ≡ (if leb 2 x.1.intervals then x.1.tok_total - x.1.first_tok else x.1.tok_total))

      whole : (q : Requests Double) → FirstWithin q → P (p, q)
      whole q (first, small) = (
        (first, small),
        if_intro
            (λ (x : ℕ). x ≡ (if leb 2 q.intervals then q.tok_total - q.first_tok else q.tok_total))
            (leb 2 q.intervals) _ _
            (λ b. sub64_small q.tok_total q.first_tok (first (ground arith)) small ∙ ground arith)
            (λ b. ground arith),
      )

      added : FirstWithin (add_request D dt p.req_tok r)
      added =
          let exact = mod-eq_of_lt {n = r.tok_total + p.req_tok} {m = 2 ^ 64} fits in
          (λ h. ground (arith, exact, w), omega (arith, exact))
