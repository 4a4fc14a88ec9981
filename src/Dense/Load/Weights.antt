-- ===== src/Dense/Load/Weights.antt =====
-- A layer's weights after its load: each has its bytes of the file at its place in the arena.
use moestream.Prelude.{
  ℕ, ◌+◌, ◌<◌, ◌≤◌, ◌≡◌, refl, ap, ◌∙◌, true, not, ◌&&◌, ◌||◌, List, [], ◌∷◌, ltb, if◌then◌else◌,
  if_intro, arith,
}
use moestream.Io.Read.Laws.{AtMost, Readable}
use moestream.Io.Range.{dense_read_range}
use moestream.Io.Range.Laws.{dense_read_range-whole}
use moestream.Dense.Info.{DenseInfo}
use moestream.Dense.Layout.Laws.{Laid}
use moestream.Dense.Load.{Tables, behind, put_back, read_weight, read_weights}

put_at : (off i : ℕ) (base buf : ℕ → ℕ) → put_back off base buf (off + i) ≡ buf i
put_at off i base buf =
    if_intro (λ (x : ℕ). x ≡ buf i) (ltb (off + i) off) _ _ (λ b. absurd (ground arith))
      (λ b. ap buf (omega arith))

module _ (T : Tables) where
  -- The shards are regular files that read without error.
  abbrev pub Reads : Type 0
  Reads = ((f : ℕ) → AtMost (T.pread f)) × ((f : ℕ) → Readable (T.file_size f) (T.pread f))

  -- The valid weights lie inside their shards.
  abbrev pub Inside : List DenseInfo → Type 0
  Inside [] = Unit {0}
  Inside (m ∷ ms) = (m.valid ≡ true → m.file_offset + m.bytes ≤ T.file_size m.file_idx) × Inside ms

  -- The weights whose file is open, with a view, have their bytes in `base`.
  abbrev pub Holds : List DenseInfo → List DenseInfo → (ℕ → ℕ) → Type 0
  Holds [] vs base = Unit {0}
  Holds (m ∷ ms) [] base = Unit {0}
  Holds (m ∷ ms) (v ∷ vs) base =
      (m.valid ≡ true
        → T.fd_open m.file_idx ≡ true
        → (i : ℕ) → i < m.bytes
        → base (v.arena_off + i) ≡ T.files m.file_idx (m.file_offset + i))
      × Holds ms vs base

  module _ (reads : Reads) where
    -- What one weight's read leaves in the arena.
    read_weight-get :
        (m v : DenseInfo) (x : (ℕ → ℕ) × ℕ) (i : ℕ)
        → (m.valid && v.present) && T.fd_open m.file_idx ≡ true
        → m.file_offset + m.bytes ≤ T.file_size m.file_idx
        → (read_weight T m v x).0 (v.arena_off + i) ≡ (
            if ltb i m.bytes then T.files m.file_idx (m.file_offset + i) else x.0 (v.arena_off + i))
    unfolding read_weight
    read_weight-get m v (base, n) i h inside =
        let buf =
          (dense_read_range (T.files m.file_idx) (T.pread m.file_idx) m.file_offset m.bytes T.dn_th
            (behind v.arena_off base)).0 in
        let whole =
          (dense_read_range-whole (T.files m.file_idx) (T.pread m.file_idx) (reads.0 m.file_idx)
              (T.file_size m.file_idx) (reads.1 m.file_idx) m.file_offset m.bytes inside
              (behind v.arena_off base) T.dn_th).1
            i in
        let back : put_back v.arena_off base buf (v.arena_off + i) ≡ buf i =
          put_at v.arena_off i base buf in
        if_intro
          (λ (y : (ℕ → ℕ) × ℕ). y.0 (v.arena_off + i) ≡ (
            if ltb i m.bytes
            then T.files m.file_idx (m.file_offset + i)
            else base (v.arena_off + i)))
          (not (m.valid && v.present) || not (T.fd_open m.file_idx)) _ _
          (λ b. absurd (ground arith)) (λ b. back ∙ whole)

    -- Before its place nothing changes.
    read_weight-before :
        (m v : DenseInfo) (x : (ℕ → ℕ) × ℕ) (i : ℕ)
        → (m.valid ≡ true → i < v.arena_off)
        → (read_weight T m v x).0 i ≡ x.0 i
    unfolding read_weight
    read_weight-before m v (base, n) i h =
        if_intro (λ (y : (ℕ → ℕ) × ℕ). y.0 i ≡ base i)
          (not (m.valid && v.present) || not (T.fd_open m.file_idx)) _ _ (λ b. refl)
          (λ b. ground (arith, h))

    read_weights-before :
        (start size : ℕ) (ms vs : List DenseInfo) (x : (ℕ → ℕ) × ℕ) (i : ℕ)
        → Laid start size ms vs
        → i < start
        → (read_weights T ms vs x).0 i ≡ x.0 i
    unfolding read_weights
    read_weights-before start size [] vs x i l h = refl
    read_weights-before start size (m ∷ ms) [] x i l h = refl
    read_weights-before start size (m ∷ ms) (v ∷ vs) x i (p, l) h =
        read_weights-before (if m.valid then v.arena_off + m.bytes else start) size ms vs
          (read_weight T m v x) i l (ground (arith, p))
        ∙ read_weight-before m v x i (λ q. omega (arith, (p q).1))

    pub read_weights-Holds :
        (start size : ℕ) (ms vs : List DenseInfo) (x : (ℕ → ℕ) × ℕ)
        → Laid start size ms vs
        → Inside ms
        → Holds ms vs (read_weights T ms vs x).0
    unfolding read_weights
    read_weights-Holds start size [] vs x l d = tt
    read_weights-Holds start size (m ∷ ms) [] x l d = tt
    read_weights-Holds start size (m ∷ ms) (v ∷ vs) x (p, l) (d, ds) = (
      λ q opened i h.
          read_weights-before (if m.valid then v.arena_off + m.bytes else start) size ms vs
            (read_weight T m v x) (v.arena_off + i) l (ground arith)
          ∙ read_weight-get m v x i (ground (arith, p)) (d q)
          ∙ ground arith,
      read_weights-Holds (if m.valid then v.arena_off + m.bytes else start) size ms vs
          (read_weight T m v x) l ds,
    )
