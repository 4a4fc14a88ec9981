-- ===== src/Gguf/Value.antt =====
-- src/llama-moestream.cpp, `skip` of the scanners: one value of the metadata is passed over, an array
-- item by item. `fuel` bounds how deep arrays may be nested in arrays.
pub mod Laws
use moestream.Prelude.{
  ℕ, zero, suc, ◌+◌, ◌-◌, ◌*◌, ◌^◌, Bool, true, false, ◌||◌, Option, none, some, ltb, leb, ◌==◌,
  if◌then◌else◌,
}
use moestream.Prelude.Int.{ℤ, pos, negsuc}
use moestream.Gguf.Stream.{File, ◌>>=◌, number_at, rd, seek}

-- `fixed[t]`.
abbrev pub fixed : ℕ → ℕ
fixed t =
    if ltb t 2
    then 1
    else if ltb t 4
    then 2
    else if ltb t 7
    then 4
    else if t == 7
    then 1
    else if ltb t 10
    then 0
    else 8

-- A number of `2 * half` values as a signed one.
abbrev pub signed : ℕ → ℕ → ℤ
signed half n = if ltb n half then pos n else negsuc (half + half - n - 1)

-- What `skip` stores in `*out`.
abbrev pub int_value : ℕ → ℕ → ℤ
int_value t n =
    if t == 0 || t == 2 || t == 4
    then pos n
    else if t == 1
    then signed (2 ^ 7) n
    else if t == 3
    then signed (2 ^ 15) n
    else if t == 5
    then signed (2 ^ 31) n
    else if t == 10 || t == 11
    then signed (2 ^ 63) n
    else pos 0

-- The position behind `n` items.
abbrev pub skip_items : (ℕ → Option (ℕ × ℤ)) → ℕ → ℕ → Option ℕ
skip_items one zero at = some at
skip_items one (suc n) at = one at >>= λ (next, v). skip_items one n next

module _ (f : File) where
  abbrev pub skip_text : ℕ → Option (ℕ × ℤ)
  skip_text at = do (n, a) ← rd f 8 at; b ← seek n a; some (b, pos 0)

  -- By `fseek` in `gguf_scan_streamable`, by reading elsewhere.
  abbrev pub skip_fixed : Bool → ℕ → ℕ → Option (ℕ × ℤ)
  skip_fixed true t at = do b ← seek (fixed t) at; some (b, pos 0)
  skip_fixed false t at = do (n, b) ← rd f (fixed t) at; some (b, int_value t n)

  -- `one` passes over an item of a type.
  abbrev pub skip_array : (ℕ → ℕ → Option (ℕ × ℤ)) → ℕ → Option (ℕ × ℤ)
  skip_array one at = do
    (et, a) ← rd f 4 at
    (n, b) ← rd f 8 a
    c ← skip_items (one et) n b
    some (c, pos 0)

  -- A value of type `t`: the position behind it, and its number if it is an integer.
  unfoldable pub skip : Bool → ℕ → ℕ → ℕ → Option (ℕ × ℤ)
  unfolding number_at
  skip by_seek zero t at = none
  skip by_seek (suc fuel) t at =
      if t == 8
      then skip_text at
      else if t == 9
      then skip_array (λ et. skip by_seek fuel et) at
      else if ltb 12 t
      then none
      else skip_fixed by_seek t at
