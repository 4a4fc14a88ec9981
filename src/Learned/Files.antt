-- ===== src/Learned/Files.antt =====
-- src/llama-moestream.cpp, `state_put`: one row of a file of the state directory is replaced. A file
-- is the list of its bytes, none of them zero.
pub mod Laws
use moestream.Prelude.{
  ℕ, zero, suc, Bool, true, false, Option, none, some, List, [], ◌∷◌, ◌++◌, length, ◌==◌,
  if◌then◌else◌,
}
use moestream.Loader.Names.{Name, starts_with}

-- The bytes up to a newline, `room` at most, and the rest.
abbrev pub one_row : ℕ → Name → Name × Name
one_row zero s = ([], s)
one_row (suc room) [] = ([], [])
one_row (suc room) (c ∷ s) =
    if c == 10 then (c ∷ [], s) else (c ∷ (one_row room s).0, (one_row room s).1)

-- `while (fgets(line, sizeof line, f))`, into a line of `size` bytes.
unfoldable pub rows : ℕ → ℕ → Name → List Name
rows size fuel [] = []
rows size zero (c ∷ s) = []
rows size (suc fuel) (c ∷ s) = let (row, rest) = one_row size (c ∷ s) in row ∷ rows size fuel rest

-- A line has 1024 bytes, of which the last is zero. Every row has a byte at least.
abbrev pub rows_of : Name → List Name
rows_of s = rows 1023 (length s) s

-- The rows that do not begin with `match`.
unfoldable pub others : Name → List Name → List Name
others match [] = []
others match (l ∷ ls) = if starts_with match l then others match ls else l ∷ others match ls

abbrev pub written : List Name → Name → Name
written [] row = row
written (l ∷ ls) row = l ++ written ls row

abbrev pub read_rows : Option Name → List Name
read_rows none = []
read_rows (some s) = rows_of s

-- `file` is what the file has, if it can be read. `opens` says that the new file can be opened,
-- `stored` what it has after `fputs` and `fclose` of some bytes, which may fail half way and whose
-- results are not looked at, and `renames` that it takes the name of the old one.
unfoldable pub state_put : Bool → (Name → Name) → Bool → Name → Name → Option Name → Option Name
unfolding others rows
state_put opens stored renames match row file =
    let new = stored (written (others match (read_rows file)) row) in
    if opens then if renames then some new else file else file
