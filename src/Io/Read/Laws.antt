-- ===== src/Io/Read/Laws.antt =====
-- What the loop over `pread` leaves in the buffer.
use moestream.Prelude.{
  ℕ, zero, suc, ◌+◌, ◌-◌, ◌≤◌, ◌<◌, ◌≡◌, ap, ◌∙◌, Bool, true, ◌&&◌, ◌||◌, leb, ltb, ◌==◌,
  if◌then◌else◌, if_intro, arith,
}
use moestream.Prelude.Int.{pos_part}
use moestream.Io.Read.{Pread, SlabInfo, received, read_loop, read_range, expert_offset, do_read}

-- `pread` returns at most as many bytes as were asked for.
abbrev pub AtMost : Pread → Type 0
AtMost pread = (k off left : ℕ) → pos_part (pread k off left) ≤ left

-- A regular file of `size` bytes that reads without error: `pread` of a range inside the file
-- returns at least one byte. Nothing is said of the end of the file, where it returns 0.
abbrev pub Readable : ℕ → Pread → Type 0
Readable size pread =
    (k off left : ℕ) → 0 < left → off + left ≤ size → 0 < pos_part (pread k off left)

-- A range is its two halves.
within-join {ℓ} :
    {A : Type ℓ} (a b c i : ℕ) (x y : A)
    → a ≤ b
    → b ≤ c
    → (if leb b i && ltb i c then x else if leb a i && ltb i b then x else y)
      ≡ (if leb a i && ltb i c then x else y)
within-join a b c i x y h k = ground arith

within-empty {ℓ} : {A : Type ℓ} (a i : ℕ) (x y : A) → y ≡ (if leb a i && ltb i a then x else y)
within-empty a i x y = ground arith

module _ (file : ℕ → ℕ) (pread : Pread) (most : AtMost pread) (dst off : ℕ) where
  -- The bytes before `o'` have been read, those before `o` earlier.
  record Prefix (left o : ℕ) (buf : ℕ → ℕ) (x : (ℕ → ℕ) × ℕ) : Type 0 where
    above : o ≤ x.1
    below : x.1 ≤ o + left
    bytes :
        (i : ℕ)
        → x.0 i ≡ (if leb (dst + o) i && ltb i (dst + x.1) then file (off + (i - dst)) else buf i)

  read_loop-Prefix :
      (fuel k left o : ℕ) (buf : ℕ → ℕ)
      → Prefix left o buf (read_loop file pread dst off fuel k left o buf)
  unfolding read_loop
  read_loop-Prefix zero k left o buf = record {
    above = omega arith;
    below = omega arith;
    bytes = λ i. within-empty (dst + o) i (file (off + (i - dst))) (buf i);
  }
  read_loop-Prefix (suc fuel) k left o buf =
      let n = pos_part (pread k (off + o) left) in
      let rest = read_loop-Prefix fuel (k + 1) (left - n) (o + n) (received file dst off o n buf) in
      let reached =
        (read_loop file pread dst off fuel (k + 1) (left - n) (o + n)
          (received file dst off o n buf)).1 in
      if_intro (Prefix left o buf) (left == 0 || n == 0) _ _
        (λ b. record {
          above = omega arith;
          below = omega arith;
          bytes = λ i. within-empty (dst + o) i (file (off + (i - dst))) (buf i);
        })
        (λ b. record {
          above = omega (arith, rest.above);
          below = omega (arith, rest.below, most k (off + o) left);
          bytes = λ i.
              rest.bytes i
              ∙ within-join (dst + o) (dst + (o + n)) (dst + reached) i (file (off + (i - dst)))
                  (buf i) (omega arith) (omega (arith, rest.above));
        })

  read_loop_whole :
      (size fuel k left o : ℕ) (buf : ℕ → ℕ)
      → Readable size pread
      → off + (o + left) ≤ size
      → left ≤ fuel
      → (read_loop file pread dst off fuel k left o buf).1 ≡ o + left
  unfolding read_loop
  read_loop_whole size zero k left o buf go inside h = omega arith
  read_loop_whole size (suc fuel) k left o buf go inside h =
      let n = pos_part (pread k (off + o) left) in
      ground (
        arith,
        go k (off + o) left,
        most k (off + o) left,
        read_loop_whole size fuel (k + 1) (left - n) (o + n) (received file dst off o n buf) go,
      )

  -- The number that is returned counts the bytes that were read: the range before it has those of
  -- the file, and the rest of the buffer is as it was.
  pub read_range-prefix :
      (bytes : ℕ) (buf : ℕ → ℕ)
      → let x = read_range file pread dst off bytes buf in
        (x.1 ≤ bytes)
        × ((i : ℕ)
            → x.0 i ≡ (if leb dst i && ltb i (dst + x.1) then file (off + (i - dst)) else buf i))
  unfolding read_range
  read_range-prefix bytes buf =
      let p = read_loop-Prefix bytes 0 bytes 0 buf in
      (
        omega (arith, p.below),
        λ i.
            p.bytes i
            ∙ ap
                (λ (t : ℕ).
                  if leb t i && ltb i (dst + (read_loop file pread dst off bytes 0 bytes 0 buf).1)
                  then file (off + (i - dst))
                  else buf i)
                (omega arith),
      )

  pub read_range_whole :
      (size bytes : ℕ) (buf : ℕ → ℕ)
      → Readable size pread
      → off + bytes ≤ size
      → (read_range file pread dst off bytes buf).1 ≡ bytes
  unfolding read_range
  read_range_whole size bytes buf go inside =
      omega (arith, read_loop_whole size bytes 0 bytes 0 buf go (omega (arith, inside)))

-- A read of an expert of an open shard of `size` bytes that reads without error, where `pread`
-- returns at most as many bytes as were asked for and the bytes of the expert lie inside the shard,
-- puts exactly the expert's bytes of the file into the buffer, in however many pieces they come,
-- and nothing behind them.
pub do_read-bytes :
    (files : ℕ → ℕ → ℕ) (pread : Pread) (fd_open : ℕ → Bool) (si : SlabInfo) (e size : ℕ)
    (buf : ℕ → ℕ)
    → AtMost pread
    → Readable size pread
    → fd_open si.file_idx ≡ true
    → expert_offset si e + si.expert_bytes ≤ size
    → (i : ℕ)
    → do_read files pread fd_open si e buf i
      ≡ (if ltb i si.expert_bytes then files si.file_idx (expert_offset si e + i) else buf i)
unfolding do_read
do_read-bytes files pread fd_open si e size buf most go opened inside i =
    let file = files si.file_idx in
    let off = expert_offset si e in
    let whole = read_range_whole file pread most 0 off size si.expert_bytes buf go inside in
    rw opened (ground (arith, (read_range-prefix file pread most 0 off si.expert_bytes buf).1 i))
