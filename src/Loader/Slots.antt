-- ===== src/Loader/Slots.antt =====
-- src/llama-moestream.cpp, `slab_slots`, which decides how many experts a slab has room for, and
-- `n_passes`. What the model's metadata says (`gguf_topk`, `gguf_bytes_per_slot`), the learned share
-- and the environment are arguments.
pub mod Laws
use moestream.Prelude.{
  ℕ, ◌+◌, ◌-◌, ◌*◌, ◌/◌, ◌%◌, ◌^◌, Bool, true, false, not, ◌&&◌, ◌||◌, Option, none, some, List, [],
  ◌∷◌, ltb, leb, ◌==◌, if◌then◌else◌,
}
use moestream.Prelude.Int.{ℤ, pos, negsuc, pos_part, ltb_ℤ, ◌+ℤ◌}
use moestream.Cache.Doubles.{Doubles}
use moestream.Loader.Names.{Name, parse_name}
use moestream.Loader.Tables.{is_some}

abbrev pub min : ℕ → ℕ → ℕ
min a b = if ltb b a then b else a

abbrev pub max : ℕ → ℕ → ℕ
max a b = if ltb a b then b else a

-- `(uint32_t) v`.
abbrev pub to_word : ℤ → ℕ
to_word (pos n) = n % 2 ^ 32
to_word (negsuc n) = 2 ^ 32 - 1 - n % 2 ^ 32

-- `tk_meta > 0 ? tk_meta : 8`.
abbrev pub top_k : ℤ → ℕ
top_k tk_meta = if ltb_ℤ (pos 0) tk_meta then pos_part tk_meta else 8

abbrev pub fit_slots : ℕ → ℕ → ℕ → ℕ
fit_slots s need n = max 8 (min (max s need) n)

-- `tk_m > 0 ? tk_m : (g_seen_topk > 0 ? g_seen_topk : 8)`.
abbrev pub known_topk : ℤ → ℕ → ℕ
known_topk tk_m seen = if ltb_ℤ (pos 0) tk_m then pos_part tk_m else if ltb 0 seen then seen else 8

-- How the number of slots is asked for: `g_frac_learn`, with the share that `learned_frac` found (0
-- if none), `g_frac_auto`, with the slots that the budget of memory pays for, or a share.
pub data Sizing (F : Type 0) : Type 0 where
  learn : F → Sizing F
  auto : (budget_bytes per_slot : ℕ) → Sizing F
  share : F → Sizing F

pub record Sizes : Type 0 where
  pub slots : ℕ
  pub zero_slot : ℕ
  -- `g_n_expert`.
  pub experts : ℕ

module _ (D : Doubles) where
  open D use {Double, from_nat, half, add, sub, mul, div, lt, pow, ceil, to_uint32, to_int64}

  -- `(uint32_t)(double(n) * v + 0.5)`.
  abbrev pub share_of : ℕ → Double → ℕ
  share_of n v = to_uint32 (add (mul (from_nat n) v) half) % 2 ^ 32

  -- 0.15, 0.38, 1.15 and 1.10, as quotients.
  abbrev pub percent : ℕ → Double
  percent n = div (from_nat n) (from_nat 100)

  unfoldable pub wanted_slots : Sizing Double → ℕ → ℕ
  wanted_slots (learn v) n = share_of n (if lt (from_nat 0) v then v else percent 15)
  wanted_slots (auto budget per) n =
      if ltb 0 per then min (max 1 (budget / per) % 2 ^ 32) n % 2 ^ 32 else share_of n (percent 38)
  wanted_slots (share v) n = share_of n v

  -- `n * (1 - (1 - tk / n)^ub)`, the experts that `ub` tokens name together.
  abbrev pub union_of : ℕ → Double → ℕ → Double
  union_of n tk ub =
      mul (from_nat n)
        (sub (from_nat 1) (pow (sub (from_nat 1) (div tk (from_nat n))) (from_nat ub)))

  -- `(uint32_t) std::min<int64_t>(n_expert, (int64_t)(u * 1.15) + (int64_t) tk)`.
  abbrev pub needed_slots : ℕ → ℕ → ℕ → ℕ
  needed_slots n tk max_ubatch =
      let want = to_int64 (mul (union_of n (from_nat tk) max_ubatch) (percent 115)) +ℤ pos tk in
      to_word (if ltb_ℤ want (pos n) then want else pos n)

  -- The rows to allocate, 0 for a tensor that is left alone.
  unfoldable pub slab_slots : Bool → Sizing Double → ℤ → ℕ → Name → ℕ → Sizes → Sizes × ℕ
  unfolding wanted_slots
  slab_slots enabled sizing tk_meta max_ubatch name n st =
      let s =
        fit_slots (wanted_slots sizing n) (needed_slots n (top_k tk_meta) max_ubatch)
          (n % 2 ^ 32) in
      if not enabled
      then (st, 0)
      else if not (is_some (parse_name name)) || leb n 1
      then (st, 0)
      else (record { slots = s; zero_slot = s; experts = n }, (s + 1) % 2 ^ 32)

  -- `(int) std::ceil((u * 1.10 + tk) / slots)`, between 1 and 8.
  abbrev pub spread : ℕ → ℕ → ℕ → ℕ → ℤ
  spread n tk slots n_tokens =
      let want = to_int64 (
        ceil (
          div (add (mul (union_of n (from_nat tk) n_tokens) (percent 110)) (from_nat tk))
            (from_nat slots))) in
      let most = if ltb_ℤ (pos 8) want then pos 8 else want in
      if ltb_ℤ (pos 1) most then most else pos 1

  -- `allow` if MOESTREAM_FORCE_PASSES is set, to `force`; `n_expert` is that of the first layer, if
  -- there is a layer.
  unfoldable pub n_passes : Bool → ℤ → Bool → ℕ → Option ℕ → ℤ → ℕ → ℕ → ℤ
  n_passes allow force enabled slots none tk_m seen n_tokens = pos 1
  n_passes allow force enabled slots (some n) tk_m seen n_tokens =
      if not allow
      then pos 1
      else if not enabled || slots == 0 || n == 0
      then pos 1
      else if ltb_ℤ (pos 0) force && ltb 8 n_tokens
      then force
      else if leb n slots
      then pos 1
      else spread n (known_topk tk_m seen) slots n_tokens
