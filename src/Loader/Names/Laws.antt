-- ===== src/Loader/Names/Laws.antt =====
-- The names of the streamed tensors are read back as they are written, and no name is both of an
-- expert's weights and of a dense layer's.
use moestream.Prelude.{
  ℕ, zero, suc, ◌+◌, ◌*◌, ◌/◌, ◌%◌, ◌^◌, ◌<◌, ◌≡◌, refl, sym, ap, ◌∙◌, inl, inr, Bool, true, false,
  not, Option, none, some, [], ◌∷◌, ◌++◌, ltb, ◌==◌, if◌then◌else◌, if_intro, if_both, Bool-cases,
  Option-cases, arith,
}
use native.Mathlib.Nat.{mod-eq_of_lt}
use moestream.Prelude.Int.{ℤ, pos, to_int32}
use moestream.Loader.Names.{
  Name, same_text, starts_with, is_digit, is_space, digits, after_sign, strtol, clamp_pos, drop4,
  to_int, blk, ffn, gate, up, down, exps, weight, starts_dot, expert_role, dense_role, with_layer,
  parse_name, parse_dense_any,
}

-- `%d` of a number that is not negative: its decimal digits, the last one last.
unfoldable pub decimal : ℕ → ℕ → Name
decimal zero n = []
decimal (suc fuel) n =
    let before = decimal fuel (n / 10) in
    if ltb n 10 then (48 + n) ∷ [] else before ++ ((48 + n % 10) ∷ [])

abbrev pub print_layer : ℕ → Name
print_layer n = decimal (suc n) n

-- The end of a role's name.
abbrev pub role_end : ℕ → Name → Name
role_end zero s = ffn (gate s)
role_end (suc zero) s = ffn (up s)
role_end (suc (suc r)) s = ffn (down s)

pub same_text-eq : (a b : Name) → same_text a b ≡ true → a ≡ b
same_text-eq [] [] h = refl
same_text-eq [] (y ∷ ys) h = ground arith
same_text-eq (x ∷ xs) [] h = ground arith
same_text-eq (x ∷ xs) (y ∷ ys) h =
    let (first, rest) = if_both (x == y) (same_text xs ys) h in
    ap (x ∷◌) (same_text-eq xs ys rest) ∙ ap (◌∷ ys) (ground arith)

-- A dense layer's end is no expert's end.
dense_role-expert : (end : Name) (r : ℕ) → dense_role end ≡ some r → expert_role end ≡ none
dense_role-expert end r h = elim (Bool-cases (same_text end (ffn (gate weight)))) [
  | inl t ↦ ap expert_role (same_text-eq end (ffn (gate weight)) t)
  | inr no_gate ↦ elim (Bool-cases (same_text end (ffn (up weight)))) [
    | inl t ↦ ap expert_role (same_text-eq end (ffn (up weight)) t)
    | inr no_up ↦ elim (Bool-cases (same_text end (ffn (down weight)))) [
      | inl t ↦ ap expert_role (same_text-eq end (ffn (down weight)) t)
      | inr no_down ↦ absurd (ground arith)
    ]
  ]
]

guards_apart :
    (a b c : Bool) (v : ℤ) (end : Name) (x : ℤ × ℕ)
    → (if not a
        then none
        else if not b
        then none
        else if c
        then none
        else with_layer v (dense_role end))
      ≡ some x
    → (if not a then none else if not b then none else with_layer v (expert_role end)) ≡ none
guards_apart false b c v end x h = refl
guards_apart true false c v end x h = refl
guards_apart true true true v end x h = absurd (ground arith)
guards_apart true true false v end x h = elim (Option-cases (dense_role end)) [
  | inl q ↦ absurd (ground (arith, ap (with_layer v) q))
  | inr (r, q) ↦ ap (with_layer v) (dense_role-expert end r q)
]

-- A name that is parsed as a streamed dense weight is not parsed as an expert tensor.
pub parse_name-parse_dense_any :
    (least nbytes : ℕ) (name : Name) (x : ℤ × ℕ)
    → parse_dense_any least name nbytes ≡ some x
    → parse_name name ≡ none
unfolding parse_name parse_dense_any
parse_name-parse_dense_any least nbytes name x h =
    guards_apart (starts_with blk name) (starts_dot (strtol (drop4 name)).1) (ltb nbytes least)
      (strtol (drop4 name)).0 (strtol (drop4 name)).1 x h

append_assoc : (a b c : Name) → (a ++ b) ++ c ≡ a ++ (b ++ c)
append_assoc [] b c = refl
append_assoc (x ∷ a) b c = ap (x ∷◌) (append_assoc a b c)

one_digit : (n d : ℕ) (t : Name) → d < 10 → digits n ((48 + d) ∷ t) ≡ digits (n * 10 + d) t
one_digit n d t h =
    if_intro (λ (x : ℕ × Name). x ≡ digits (n * 10 + d) t) (is_digit (48 + d)) _ _
      (λ b. ap (λ (k : ℕ). digits k t) (omega arith)) (λ b. absurd (ground arith))

digits-decimal : (fuel n : ℕ) (t : Name) → n < fuel → digits 0 (decimal fuel n ++ t) ≡ digits n t
unfolding decimal
digits-decimal zero n t h = absurd (omega arith)
digits-decimal (suc fuel) n t h =
    if_intro (λ (x : Name). digits 0 (x ++ t) ≡ digits n t) (ltb n 10) _ _
      (λ b. one_digit 0 n t (ground arith) ∙ ap (λ (k : ℕ). digits k t) (omega arith))
      (λ b.
        ap (digits 0) (append_assoc (decimal fuel (n / 10)) _ t)
        ∙ digits-decimal fuel (n / 10) _ (ground arith)
        ∙ one_digit (n / 10) (n % 10) t (omega arith)
        ∙ ap (λ (k : ℕ). digits k t) (omega arith))

decimal-first :
    (fuel n : ℕ) (t : Name)
    → n < fuel
    → (c : ℕ) × (s : Name) × (decimal fuel n ++ t ≡ c ∷ s) × (is_digit c ≡ true)
unfolding decimal
decimal-first zero n t h = absurd (omega arith)
decimal-first (suc fuel) n t h =
    if_intro (λ (x : Name). (c : ℕ) × (s : Name) × (x ++ t ≡ c ∷ s) × (is_digit c ≡ true))
      (ltb n 10) _ _ (λ b. (48 + n, t, refl, ground arith))
      (λ b.
        let (c, s, q, d) = decimal-first fuel (n / 10) ((48 + n % 10) ∷ t) (ground arith) in
        (c, s, append_assoc (decimal fuel (n / 10)) _ t ∙ q, d))

strtol_digit :
    (c : ℕ) (s : Name)
    → is_digit c ≡ true
    → strtol (c ∷ s) ≡ (clamp_pos (digits 0 (c ∷ s)).0, (digits 0 (c ∷ s)).1)
unfolding strtol
strtol_digit c s h =
    ap (after_sign (c ∷ s))
      (if_intro (λ (x : Name). x ≡ c ∷ s) (is_space c) _ _ (λ b. absurd (ground arith)) (λ b. refl))
    ∙ if_intro P (c == 45) _ _ (λ b. absurd (ground arith))
        (λ b.
          if_intro P (c == 43) _ _ (λ d. absurd (ground arith))
            (λ d. if_intro P (not (is_digit c)) _ _ (λ e. absurd (ground arith)) (λ e. refl)))
  where
    P : ℤ × Name → Type 0
    P x = x ≡ (clamp_pos (digits 0 (c ∷ s)).0, (digits 0 (c ∷ s)).1)

clamp_small : (n : ℕ) → n < 2 ^ 63 → clamp_pos n ≡ pos n
clamp_small n h = ground arith

strtol-print_layer :
    (n : ℕ) (t : Name) → n < 2 ^ 63 → strtol (print_layer n ++ (46 ∷ t)) ≡ (pos n, 46 ∷ t)
strtol-print_layer n t h =
    let (c, s, q, d) = decimal-first (suc n) n (46 ∷ t) (omega arith) in
    ap strtol q
    ∙ strtol_digit c s d
    ∙ ap (λ (x : ℕ × Name). (clamp_pos x.0, x.1))
        (ap (digits 0) (sym q) ∙ digits-decimal (suc n) n (46 ∷ t) (omega arith))
    ∙ ap (λ (v : ℤ). (v, 46 ∷ t)) (clamp_small n h)

to_int_small : (n : ℕ) → n < 2 ^ 31 → to_int (pos n) ≡ pos n
to_int_small n h = ap to_int32 (mod-eq_of_lt {n = n} {m = 2 ^ 32} (omega arith)) ∙ ground arith

-- What `parse_name` does after the number.
abbrev parse_rest : ℤ × Name → Option (ℤ × ℕ)
parse_rest p = if not (starts_dot p.1) then none else with_layer p.0 (expert_role p.1)

-- For a layer below 2^31 and each of the three roles, the name with the layer in decimal digits is
-- parsed to that layer and role.
pub parse_name-round :
    (n r : ℕ)
    → n < 2 ^ 31
    → r < 3
    → parse_name (blk ++ (print_layer n ++ role_end r exps)) ≡ some (pos n, r)
unfolding parse_name
parse_name-round n zero h q =
    ap parse_rest (strtol-print_layer n _ (omega arith))
    ∙ ap (λ (v : ℤ). some (v, 0)) (to_int_small n h)
parse_name-round n (suc zero) h q =
    ap parse_rest (strtol-print_layer n _ (omega arith))
    ∙ ap (λ (v : ℤ). some (v, 1)) (to_int_small n h)
parse_name-round n (suc (suc zero)) h q =
    ap parse_rest (strtol-print_layer n _ (omega arith))
    ∙ ap (λ (v : ℤ). some (v, 2)) (to_int_small n h)
parse_name-round n (suc (suc (suc r))) h q = absurd (omega arith)
