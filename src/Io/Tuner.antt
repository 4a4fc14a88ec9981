-- ===== src/Io/Tuner.antt =====
-- src/llama-moestream.cpp, `io_threads_for_this_call` and `io_threads_record`: the number of reader
-- threads is chosen by measuring. The clock's readings are arguments.
pub mod Laws
use moestream.Prelude.{
  ℕ, zero, suc, ◌+◌, ◌*◌, ◌%◌, ◌^◌, Bool, true, false, not, ◌||◌, update, leb, ltb, ◌==◌,
  if◌then◌else◌, inc64,
}
use moestream.Cache.Doubles.{Doubles}

-- `TH_CAND` and `TH_N`.
abbrev pub th_n : ℕ
th_n = 6

abbrev pub th_cand : ℕ → ℕ
th_cand zero = 2
th_cand (suc zero) = 4
th_cand (suc (suc zero)) = 6
th_cand (suc (suc (suc zero))) = 8
th_cand (suc (suc (suc (suc zero)))) = 12
th_cand (suc (suc (suc (suc (suc i))))) = 16

pub record Tuner (F : Type 0) : Type 0 where
  pub io_auto : Bool
  pub nthreads : ℕ
  pub th_bytes : ℕ → F
  pub th_time : ℕ → F
  pub th_cur : ℕ
  pub th_calls : ℕ
  pub th_settled : Bool

unfoldable pub io_threads_for_this_call : {F : Type 0} → Tuner F → ℕ
io_threads_for_this_call t = if not t.io_auto || t.th_settled then t.nthreads else th_cand t.th_cur

module _ (D : Doubles) where
  open D use {Double, from_nat, add, sub, div, le}

  -- `a > b`.
  abbrev pub gt : Double → Double → Bool
  gt a b = D.lt b a

  -- The bandwidth of candidate `i`.
  unfoldable pub bandwidth : Tuner Double → ℕ → Double
  bandwidth t i =
      if gt (t.th_time i) (from_nat 0) then div (t.th_bytes i) (t.th_time i) else from_nat 0

  -- The loop over the candidates below `n`: the best one and its bandwidth.
  unfoldable pub best_candidate : ℕ → Tuner Double → ℕ × Double
  unfolding bandwidth
  best_candidate zero t = (0, from_nat 0)
  best_candidate (suc i) t =
      let found = best_candidate i t in
      if gt (bandwidth t i) found.1 then (i, bandwidth t i) else found

  -- `dt` is the time since `t0`.
  unfoldable pub measured : ℕ → Double → Tuner Double → Tuner Double
  measured bytes dt t =
      if gt dt (from_nat 0)
      then record t {
        th_bytes = update t.th_bytes t.th_cur (add (t.th_bytes t.th_cur) (from_nat bytes));
        th_time = update t.th_time t.th_cur (add (t.th_time t.th_cur) dt);
      }
      else t

  -- `++g_th_calls % 40 == 0` moves on to the next candidate.
  unfoldable pub advance : Tuner Double → Tuner Double
  advance t =
      let calls = inc64 t.th_calls in
      record t {
        th_calls = calls;
        th_cur = if calls % 40 == 0 then (t.th_cur + 1) % th_n else t.th_cur;
      }

  unfoldable pub settle_threads : Tuner Double → Tuner Double
  unfolding best_candidate
  settle_threads t =
      if leb (40 * th_n * 20) t.th_calls
      then record t { nthreads = th_cand (best_candidate th_n t).0; th_settled = true }
      else t

  unfoldable pub io_threads_record : ℕ → Double → Double → Tuner Double → Tuner Double
  unfolding measured advance settle_threads
  io_threads_record bytes t0 now t =
      if not t.io_auto || t.th_settled || le t0 (from_nat 0)
      then t
      else settle_threads (advance (measured bytes (sub now t0) t))
