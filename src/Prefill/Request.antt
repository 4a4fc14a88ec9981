-- ===== src/Prefill/Request.antt =====
-- src/llama-moestream.cpp, `pf_req_close` and `prefill_rate`: the time and the tokens of the requests
-- whose prefill has ended.
pub mod Laws
use moestream.Prelude.{
  ℕ, ◌+◌, ◌-◌, ◌%◌, ◌^◌, ◌≤◌, Bool, true, false, not, ◌&&◌, ◌||◌, leb, ltb, ◌==◌, if◌then◌else◌,
  inc64,
}
use moestream.Cache.Doubles.{Doubles}
use moestream.Prefill.State.{PassTimes}

pub record Requests (F : Type 0) : Type 0 where
  pub time_total : F
  pub tok_total : ℕ
  pub intervals : ℕ
  pub first_time : F
  pub first_tok : ℕ

-- `a - b` in 64 bits.
abbrev pub sub64 : ℕ → ℕ → ℕ
sub64 a b = (a + (2 ^ 64 - b)) % 2 ^ 64

module _ (D : Doubles) where
  open D use {Double, from_nat, add, sub, div, le, lt}

  abbrev pub add_request : Double → ℕ → Requests Double → Requests Double
  add_request dt tok r = record r {
    first_time = if r.intervals == 0 then dt else r.first_time;
    first_tok = if r.intervals == 0 then tok else r.first_tok;
    time_total = add r.time_total dt;
    tok_total = (r.tok_total + tok) % 2 ^ 64;
    intervals = inc64 r.intervals;
  }

  -- `now` is the clock's reading.
  unfoldable pub pf_req_close :
      Double → PassTimes Double × Requests Double → PassTimes Double × Requests Double
  pf_req_close now (p, r) =
      let dt = sub now p.req_t0 in
      let closed = record p { req_t0 = from_nat 0; req_tok = 0 } in
      if le p.req_t0 (from_nat 0) || p.req_tok == 0
      then (p, r)
      else if not (lt (from_nat 0) dt && lt dt (from_nat 3600))
      then (closed, r)
      else (closed, add_request dt p.req_tok r)

  -- The time and the tokens that count.
  abbrev pub counted_time : Requests Double → Double
  counted_time r = if leb 2 r.intervals then sub r.time_total r.first_time else r.time_total

  abbrev pub counted_tok : Requests Double → ℕ
  counted_tok r = if leb 2 r.intervals then sub64 r.tok_total r.first_tok else r.tok_total

  unfoldable pub prefill_rate : Requests Double → Double
  prefill_rate r =
      if lt (from_nat 0) (counted_time r) && ltb 0 (counted_tok r)
      then div (from_nat (counted_tok r)) (counted_time r)
      else from_nat 0
