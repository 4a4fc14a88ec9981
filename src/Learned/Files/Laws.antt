-- ===== src/Learned/Files/Laws.antt =====
-- What a file has after a row was put is read back row by row.
use moestream.Prelude.{
  ℕ, zero, suc, ◌≤◌, ◌<◌, ◌≡◌, refl, sym, ap, ◌∙◌, subst, Bool, true, false, some, List, [], ◌∷◌,
  ◌++◌, length, length-append, ◌==◌, if◌then◌else◌, if_intro, Bool-cases, inl, inr, arith,
}
use moestream.Loader.Names.{Name, starts_with}
use moestream.Learned.Files.{one_row, rows, rows_of, others, written, read_rows, state_put}

-- A row of at most `room` bytes, with its newline at the end and no other.
abbrev pub IsRow : ℕ → Name → Type 0
IsRow zero l = ⊥
IsRow (suc room) [] = ⊥
IsRow (suc room) (c ∷ l) = if c == 10 then l ≡ [] else IsRow room l

abbrev pub AllRows : List Name → Type 0
AllRows [] = Unit {0}
AllRows (l ∷ ls) = IsRow 1023 l × AllRows ls

one_row-IsRow : (room : ℕ) (l s : Name) → IsRow room l → one_row room (l ++ s) ≡ (l, s)
one_row-IsRow zero l s h = absurd h
one_row-IsRow (suc room) [] s h = absurd h
one_row-IsRow (suc room) (c ∷ l) s h = elim (Bool-cases (c == 10)) [
  | inl t ↦
      let last : l ≡ [] = subst (λ (b : Bool). if b then l ≡ [] else IsRow room l) t h in
      ap (λ (b : Bool). if b then (c ∷ [], l ++ s) else later) t
      ∙ ap (λ (m : Name). (c ∷ [], m ++ s)) last
      ∙ sym (ap (λ (m : Name). (c ∷ m, s)) last)
  | inr f ↦
      ap (λ (b : Bool). if b then (c ∷ [], l ++ s) else later) f
      ∙ ap (λ (p : Name × Name). (c ∷ p.0, p.1))
          (one_row-IsRow room l s (subst (λ (b : Bool). if b then l ≡ [] else IsRow room l) f h))
]
  where
    later : Name × Name
    later = (c ∷ (one_row room (l ++ s)).0, (one_row room (l ++ s)).1)

rows_first :
    (fuel : ℕ) (l s : Name)
    → IsRow 1023 l
    → 0 < fuel
    → (k : ℕ) × (fuel ≡ suc k) × (rows 1023 fuel (l ++ s) ≡ l ∷ rows 1023 k s)
unfolding rows
rows_first zero l s h p = absurd (omega arith)
rows_first (suc k) [] s h p = absurd h
rows_first (suc k) (c ∷ l) s h p =
    (k, refl, ap (λ (x : Name × Name). x.0 ∷ rows 1023 k x.1) (one_row-IsRow 1023 (c ∷ l) s h))

row_length : (l : Name) → IsRow 1023 l → 0 < length l
row_length [] h = absurd h
row_length (c ∷ l) h = omega arith

-- Rows are read back, and after them what is read of the rest.
rows-written :
    (ls : List Name) (s : Name) (ts : List Name) (fuel : ℕ)
    → AllRows ls
    → length (written ls s) ≤ fuel
    → ((k : ℕ) → length s ≤ k → rows 1023 k s ≡ ts)
    → rows 1023 fuel (written ls s) ≡ ls ++ ts
rows-written [] s ts fuel a h rest = rest fuel h
rows-written (l ∷ ls) s ts fuel (r, a) h rest =
    let long = length-append l (written ls s) in
    let some_byte = row_length l r in
    let (k, q, first) = rows_first fuel l (written ls s) r (omega arith) in
    first ∙ ap (l ∷◌) (rows-written ls s ts k a (omega arith) rest)

append_nil : {A : Type 0} (s : List A) → s ++ [] ≡ s
append_nil [] = refl
append_nil (c ∷ s) = ap (c ∷◌) (append_nil s)

no_rows : (k : ℕ) → length {A = ℕ} [] ≤ k → rows 1023 k [] ≡ []
unfolding rows
no_rows k h = refl

one_row_only : (row : Name) → IsRow 1023 row → (k : ℕ) → length row ≤ k → rows 1023 k row ≡ row ∷ []
one_row_only row r k h =
    ap (rows 1023 k) (sym (append_nil row))
    ∙ rows-written (row ∷ []) [] [] k (r, tt) (omega (arith, ap length (append_nil row))) no_rows

others-AllRows : (match : Name) (ls : List Name) → AllRows ls → AllRows (others match ls)
unfolding others
others-AllRows match [] a = tt
others-AllRows match (l ∷ ls) (r, a) =
    if_intro AllRows (starts_with match l) _ _ (λ b. others-AllRows match ls a)
      (λ b. (r, others-AllRows match ls a))

read_back : (ls : List Name) → AllRows ls → rows_of (written ls []) ≡ ls
read_back ls a =
    rows-written ls [] [] (length (written ls [])) a (omega arith) no_rows ∙ append_nil ls

-- On a file of whole rows, where no write to an opened file fails: they are read back, and if the new
-- file can be opened and renamed, it has the rows that do not begin with `match`, in their order, and
-- then the new row; otherwise the file is as it was. A row has 1023 bytes at most and one newline,
-- at its end.
pub state_put-rows :
    (opens renames : Bool) (stored : Name → Name) (match row : Name) (ls : List Name)
    → ((s : Name) → stored s ≡ s)
    → AllRows ls
    → IsRow 1023 row
    → let file = some (written ls []) in
      (read_rows file ≡ ls)
      × (read_rows (state_put opens stored renames match row file)
          ≡ (if opens then if renames then others match ls ++ (row ∷ []) else ls else ls))
unfolding state_put
state_put-rows true true stored match row ls whole a r = (
  read_back ls a,
  ap rows_of (whole _)
      ∙ (rows-written (others match (rows_of (written ls []))) row (row ∷ []) _
          (subst (λ (x : List Name). AllRows (others match x)) (sym (read_back ls a))
            (others-AllRows match ls a))
          (omega arith) (one_row_only row r))
      ∙ ap (λ (x : List Name). others match x ++ (row ∷ [])) (read_back ls a),
)
state_put-rows true false stored match row ls whole a r = (read_back ls a, read_back ls a)
state_put-rows false renames stored match row ls whole a r = (read_back ls a, read_back ls a)
