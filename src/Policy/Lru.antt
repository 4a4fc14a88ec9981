-- ===== src/Policy/Lru.antt =====
-- research/spikes/s16_policy_compare/main.cpp, `sim_lru`: one cache for each layer, from which the
-- expert that was used least recently is evicted. A trace is the layers and experts in the order in
-- which the loops visit them.
pub mod Distances
pub mod Laws
pub mod Steps
pub mod Evict
pub mod Curve
pub mod Hits
pub mod Stack
use moestream.Prelude.{
  ℕ, zero, suc, ◌+◌, ◌-◌, ◌^◌, ◌%◌, Bool, true, false, not, ◌&&◌, List, [], ◌∷◌, update, ltb, leb,
  ◌==◌, if◌then◌else◌, inc64, inc32,
}

pub record Lru : Type 0 where
  pub last : ℕ → ℕ → ℕ
  pub resident : ℕ → ℕ
  pub clock : ℕ
  pub hit : ℕ
  pub miss : ℕ

abbrev pub no_access : Lru
no_access = record { last = λ l e. 0; resident = λ l. 0; clock = 0; hit = 0; miss = 0 }

-- The loop over the experts from `x` on, with `k` to go: `victim`.
unfoldable pub oldest : (ℕ → ℕ) → ℕ → ℕ → ℕ → ℕ → ℕ
oldest row zero x victim best = victim
oldest row (suc k) x victim best =
    let older = not (row x == 0) && ltb (row x) best in
    oldest row k (x + 1) (if older then x else victim) (if older then row x else best)

-- `row[i] = t`.
abbrev pub set_time : ℕ → ℕ → ℕ → Lru → Lru
set_time l i t s = record s { last = update s.last l (update (s.last l) i t) }

-- `resident[l]--`, in 32 bits.
abbrev pub make_room : ℕ → ℕ → ℕ → Lru → Lru
make_room experts slots l s =
    if leb slots (s.resident l)
    then record (set_time l (oldest (s.last l) experts 0 0 (2 ^ 64 - 1)) 0 s) {
      resident = update s.resident l ((s.resident l + (2 ^ 32 - 1)) % 2 ^ 32);
    }
    else s

abbrev pub lru_hit : ℕ → ℕ → Lru → Lru
lru_hit l e s = set_time l e s.clock (record s { hit = inc64 s.hit })

abbrev pub seat : ℕ → ℕ → Lru → Lru
seat l e s = record (set_time l e s.clock s) {
  resident = update s.resident l (inc32 (s.resident l));
}

unfoldable pub lru_access : ℕ → ℕ → ℕ → ℕ → Lru → Lru
unfolding oldest
lru_access experts slots l e s =
    let now = record s { clock = inc64 s.clock } in
    if leb experts e
    then s
    else if not (s.last l e == 0)
    then lru_hit l e now
    else seat l e (make_room experts slots l (record now { miss = inc64 s.miss }))

unfoldable pub sim_lru : ℕ → ℕ → List (ℕ × ℕ) → Lru → Lru
unfolding lru_access
sim_lru experts slots [] s = s
sim_lru experts slots ((l, e) ∷ trace) s =
    sim_lru experts slots trace (lru_access experts slots l e s)
