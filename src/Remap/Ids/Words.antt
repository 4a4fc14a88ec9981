-- ===== src/Remap/Ids/Words.antt =====
-- How the words of a batch answer its ids.
use moestream.Prelude.{ℕ, ◌+◌, ◌≡◌, true, not, ◌&&◌, Option, none, some, List, [], ◌∷◌, ltb}
use moestream.Prelude.Int.{ℤ}
use moestream.Remap.Ids.{Batch, expert_of}

-- Why word `w` stands for the expert `o` that an id names; the index counts the refusals.
pub data Word (P : ℕ → ℕ → Type 0) (b : Batch) (o : Option ℕ) (w : ℕ) : ℕ → Type 0 where
  foreign : o ≡ none → w ≡ b.zero_slot → Word P b o w 0
  unowned :
      (e : ℕ)
      → o ≡ some e
      → (ltb 1 b.np && not (b.owned e)) ≡ true
      → w ≡ b.zero_slot
      → Word P b o w 0
  refused : (e : ℕ) → o ≡ some e → w ≡ b.zero_slot → Word P b o w 1
  served : (e : ℕ) → o ≡ some e → P e w → Word P b o w 0

pub data Words (P : ℕ → ℕ → Type 0) (b : Batch) : List ℤ → List ℕ → ℕ → Type 0 where
  nil : Words P b [] [] 0
  more :
      {i : ℤ} {ids : List ℤ} {w : ℕ} {ws : List ℕ} {k j : ℕ}
      → Word P b (expert_of b.n_expert i) w k
      → Words P b ids ws j
      → Words P b (i ∷ ids) (w ∷ ws) (k + j)

pub Word-map :
    {P Q : ℕ → ℕ → Type 0} {b : Batch} {o : Option ℕ} {w k : ℕ}
    → ((e : ℕ) → P e w → Q e w)
    → Word P b o w k
    → Word Q b o w k
Word-map f (foreign p q) = foreign p q
Word-map f (unowned e p h q) = unowned e p h q
Word-map f (refused e p q) = refused e p q
Word-map f (served e p h) = served e p (f e h)

pub Words-map :
    {P Q : ℕ → ℕ → Type 0} {b : Batch} {ids : List ℤ} {ws : List ℕ} {k : ℕ}
    → ((e w : ℕ) → P e w → Q e w)
    → Words P b ids ws k
    → Words Q b ids ws k
Words-map f nil = nil
Words-map f (more {w = w} h hs) = more (Word-map (λ e. f e w) h) (Words-map f hs)
