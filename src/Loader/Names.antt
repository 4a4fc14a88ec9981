-- ===== src/Loader/Names.antt =====
-- src/llama-moestream.cpp, `parse_name` and `parse_dense_any`: the names of the tensors that are
-- streamed. A name is the list of its characters, without the zero at the end.
pub mod Laws
use moestream.Prelude.{
  ℕ, suc, ◌+◌, ◌-◌, ◌*◌, ◌%◌, ◌^◌, Bool, true, false, not, ◌&&◌, ◌||◌, Option, none, some, List, [],
  ◌∷◌, ltb, leb, ◌==◌, if◌then◌else◌,
}
use moestream.Prelude.Int.{ℤ, pos, negsuc, to_int32}

abbrev pub Name : Type 0
Name = List ℕ

-- `strcmp(a, b) == 0`, and `strncmp` at the length of `a`.
abbrev pub same_text : Name → Name → Bool
same_text [] [] = true
same_text [] (y ∷ ys) = false
same_text (x ∷ xs) [] = false
same_text (x ∷ xs) (y ∷ ys) = if x == y then same_text xs ys else false

abbrev pub starts_with : Name → Name → Bool
starts_with [] ys = true
starts_with (x ∷ xs) [] = false
starts_with (x ∷ xs) (y ∷ ys) = if x == y then starts_with xs ys else false

-- `strstr(s, p) != nullptr`.
abbrev pub contains : Name → Name → Bool
contains p [] = starts_with p []
contains p (x ∷ xs) = if starts_with p (x ∷ xs) then true else contains p xs

abbrev pub drop4 : Name → Name
drop4 (a ∷ b ∷ c ∷ d ∷ rest) = rest
drop4 rest = []

abbrev pub is_space : ℕ → Bool
is_space c = c == 32 || leb 9 c && leb c 13

abbrev pub is_digit : ℕ → Bool
is_digit c = leb 48 c && leb c 57

abbrev pub skip_space : Name → Name
skip_space [] = []
skip_space (c ∷ s) = if is_space c then skip_space s else c ∷ s

-- The number that begins with `n` and goes on with the digits of the text, and the rest.
abbrev pub digits : ℕ → Name → ℕ × Name
digits n [] = (n, [])
digits n (c ∷ s) = if is_digit c then digits (n * 10 + (c - 48)) s else (n, c ∷ s)

abbrev pub starts_digit : Name → Bool
starts_digit [] = false
starts_digit (c ∷ s) = is_digit c

-- A `long` has 64 bits, and `strtol` stops at its ends.
abbrev pub clamp_pos : ℕ → ℤ
clamp_pos n = if ltb n (2 ^ 63) then pos n else pos (2 ^ 63 - 1)

abbrev pub clamp_neg : ℕ → ℤ
clamp_neg n =
    if n == 0 then pos 0 else if leb n (2 ^ 63) then negsuc (n - 1) else negsuc (2 ^ 63 - 1)

-- Without a digit there is no number, and the end is where it would begin.
abbrev pub signed_digits : Bool → Name → Name → ℤ × Name
signed_digits minus all s =
    let (n, rest) = digits 0 s in
    if not (starts_digit s)
    then (pos 0, all)
    else ((if minus then clamp_neg n else clamp_pos n), rest)

abbrev pub after_sign : Name → Name → ℤ × Name
after_sign all [] = (pos 0, all)
after_sign all (c ∷ s) =
    if c == 45
    then signed_digits true all s
    else if c == 43
    then signed_digits false all s
    else signed_digits false all (c ∷ s)

-- `strtol(s, &end, 10)`.
unfoldable pub strtol : Name → ℤ × Name
strtol s = after_sign s (skip_space s)

-- `(int) v`.
abbrev pub to_int : ℤ → ℤ
to_int (pos n) = to_int32 (n % 2 ^ 32)
to_int (negsuc n) = to_int32 (2 ^ 32 - 1 - n % 2 ^ 32)

-- "blk."
abbrev pub blk : Name
blk = 98 ∷ 108 ∷ 107 ∷ 46 ∷ []

-- ".ffn_", "gate", "up", "down", "_exps", ".weight"
abbrev pub ffn : Name → Name
ffn s = 46 ∷ 102 ∷ 102 ∷ 110 ∷ 95 ∷ s

abbrev pub gate : Name → Name
gate s = 103 ∷ 97 ∷ 116 ∷ 101 ∷ s

abbrev pub up : Name → Name
up s = 117 ∷ 112 ∷ s

abbrev pub down : Name → Name
down s = 100 ∷ 111 ∷ 119 ∷ 110 ∷ s

abbrev pub weight : Name
weight = 46 ∷ 119 ∷ 101 ∷ 105 ∷ 103 ∷ 104 ∷ 116 ∷ []

abbrev pub exps : Name
exps = 95 ∷ 101 ∷ 120 ∷ 112 ∷ 115 ∷ weight

abbrev pub starts_dot : Name → Bool
starts_dot [] = false
starts_dot (c ∷ s) = c == 46

abbrev pub expert_role : Name → Option ℕ
expert_role end =
    if contains (ffn (gate exps)) end
    then some 0
    else if contains (ffn (up exps)) end
    then some 1
    else if contains (ffn (down exps)) end
    then some 2
    else none

abbrev pub dense_role : Name → Option ℕ
dense_role end =
    if same_text end (ffn (gate weight))
    then some 0
    else if same_text end (ffn (up weight))
    then some 1
    else if same_text end (ffn (down weight))
    then some 2
    else none

abbrev pub with_layer : ℤ → Option ℕ → Option (ℤ × ℕ)
with_layer v (some role) = some (to_int v, role)
with_layer v none = none

-- The layer and the role.
unfoldable pub parse_name : Name → Option (ℤ × ℕ)
unfolding strtol
parse_name name =
    let (v, end) = strtol (drop4 name) in
    if not (starts_with blk name)
    then none
    else if not (starts_dot end)
    then none
    else with_layer v (expert_role end)

-- `least` is `g_dn_min_bytes`.
unfoldable pub parse_dense_any : ℕ → Name → ℕ → Option (ℤ × ℕ)
unfolding strtol
parse_dense_any least name nbytes =
    let (v, end) = strtol (drop4 name) in
    if not (starts_with blk name)
    then none
    else if not (starts_dot end)
    then none
    else if ltb nbytes least
    then none
    else with_layer v (dense_role end)
