-- ===== src/Io/Range/Laws.antt =====
-- A range that is read by several threads is read whole.
use moestream.Prelude.{
  ℕ, zero, suc, ◌+◌, ◌-◌, ◌*◌, ◌/◌, ◌≤◌, ◌<◌, ◌≡◌, ap, ◌∙◌, ◌&&◌, leb, ltb, if◌then◌else◌, if_intro,
  shares_suffice, arith,
}
use native.Mathlib.Decide.{dec_lt}
use moestream.Io.Read.{Pread, read_range}
use moestream.Io.Read.Laws.{AtMost, Readable, read_range-prefix, read_range_whole}
use moestream.Io.Range.{min_of, run_chunks, dense_read_range}

next_round : (i rounds : ℕ) → i + suc rounds ≡ i + 1 + rounds
next_round i rounds = omega arith

next_start : (i chunk : ℕ) → (i + 1) * chunk ≡ i * chunk + chunk
next_start i chunk = omega arith

share_inside : (beg chunk bytes : ℕ) → beg < bytes → beg + min_of chunk (bytes - beg) ≤ bytes
share_inside beg chunk bytes h = ground arith

module _ (file : ℕ → ℕ) (pread : Pread) (most : AtMost pread) (size : ℕ) (go : Readable size pread)
    (off bytes : ℕ) (inside : off + bytes ≤ size) (old : ℕ → ℕ) where
  -- The buffer has the first `n` bytes.
  abbrev Upto : ℕ → (ℕ → ℕ) → Type 0
  Upto n buf = (i : ℕ) → buf i ≡ (if ltb i n then file (off + i) else old i)

  chunk_more :
      (beg n : ℕ) (buf : ℕ → ℕ)
      → beg + n ≤ bytes
      → Upto beg buf
      → Upto (beg + n) (read_range file pread beg (off + beg) n buf).0
  chunk_more beg n buf below h i =
      let p = (read_range-prefix file pread most beg (off + beg) n buf).1 i in
      let w =
        read_range_whole file pread most beg (off + beg) size n buf go
          (omega (arith, inside, below)) in
      p
      ∙ ap (λ (t : ℕ). if leb beg i && ltb i (beg + t) then file (off + beg + (i - beg)) else buf i)
          w
      ∙ elim (dec_lt i beg) [
        | yes before ↦ ground (arith, h i)
        | no behind ↦
            let same : file (off + beg + (i - beg)) ≡ file (off + i) = ap file (omega arith) in
            ground (arith, h i, same)
      ]

  all_read :
      (total : ℕ) (buf : ℕ → ℕ) → Upto total buf → total ≡ bytes → (total ≡ bytes) × Upto bytes buf
  all_read total buf u all =
      (all, λ j. u j ∙ ap (λ (t : ℕ). if ltb j t then file (off + j) else old j) all)

  module _ (chunk : ℕ) where
    run_chunks-whole :
        (rounds i total : ℕ) (buf : ℕ → ℕ)
        → bytes ≤ (i + rounds) * chunk
        → total ≡ min_of (i * chunk) bytes
        → Upto total buf
        → let x = run_chunks file pread off bytes chunk rounds i total buf in
          (x.1 ≡ bytes) × Upto bytes x.0
    unfolding run_chunks
    run_chunks-whole zero i total buf h e u = all_read total buf u (ground arith)
    run_chunks-whole (suc rounds) i total buf h e u =
        let beg = i * chunk in
        let m = min_of chunk (bytes - beg) in
        let one = read_range file pread beg (off + beg) m buf in
        if_intro (λ (x : (ℕ → ℕ) × ℕ). (x.1 ≡ bytes) × Upto bytes x.0) (leb bytes beg) _ _
          (λ b. all_read total buf u (ground arith))
          (λ b.
            let here : total ≡ beg = ground arith in
            let within = share_inside beg chunk bytes (ground arith) in
            let w =
              read_range_whole file pread most beg (off + beg) size m buf go
                (omega (arith, inside, within)) in
            run_chunks-whole rounds (i + 1) (total + one.1) one.0
              (omega (arith, ap (λ (t : ℕ). t * chunk) (next_round i rounds)))
              (ground (arith, w, next_start i chunk))
              (λ j.
                chunk_more beg m buf within
                  (λ k. u k ∙ ap (λ (t : ℕ). if ltb k t then file (off + k) else old k) here) j
                ∙ ap (λ (t : ℕ). if ltb j t then file (off + j) else old j) (omega (arith, w))))

  -- Inside a file that reads without error, where `pread` returns at most as many bytes as were
  -- asked for, a range that is read by any number of threads comes whole: the number returned is its length, the buffer has its bytes
  -- of the file, and nothing behind them is written.
  pub dense_read_range-whole :
      (nth : ℕ)
      → let x = dense_read_range file pread off bytes nth old in
        (x.1 ≡ bytes) × ((i : ℕ) → x.0 i ≡ (if ltb i bytes then file (off + i) else old i))
  unfolding dense_read_range
  dense_read_range-whole nth =
      if_intro (λ (x : (ℕ → ℕ) × ℕ). (x.1 ≡ bytes) × Upto bytes x.0) (leb nth 1) _ _
        (λ b.
          let w = read_range_whole file pread most 0 off size bytes old go inside in
          (w, λ i. ground (arith, w, (read_range-prefix file pread most 0 off bytes old).1 i)))
        (λ b.
          run_chunks-whole ((bytes + nth - 1) / nth) nth 0 0 old
            (omega (arith, shares_suffice bytes nth (ground arith))) (ground arith)
            (λ i. ground arith))
