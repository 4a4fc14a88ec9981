-- ===== src/Io/Range.antt =====
-- src/llama-moestream.cpp, `dense_read_range`: one contiguous range, split evenly over threads. The
-- threads write to different parts of the buffer; they are taken in the order of their numbers.
pub mod Laws
use moestream.Prelude.{ℕ, zero, suc, ◌+◌, ◌-◌, ◌*◌, ◌/◌, Bool, true, false, leb, ltb, if◌then◌else◌}
use moestream.Io.Read.{Pread, read_range}

abbrev pub min_of : ℕ → ℕ → ℕ
min_of a b = if ltb b a then b else a

-- The threads from number `i` on, `rounds` of them: the buffer and the bytes read in all.
unfoldable pub run_chunks : (ℕ → ℕ) → Pread → ℕ → ℕ → ℕ → ℕ → ℕ → ℕ → (ℕ → ℕ) → (ℕ → ℕ) × ℕ
unfolding read_range
run_chunks file pread off bytes chunk zero i total buf = (buf, total)
run_chunks file pread off bytes chunk (suc rounds) i total buf =
    let beg = i * chunk in
    let one = read_range file pread beg (off + beg) (min_of chunk (bytes - beg)) buf in
    let rest = run_chunks file pread off bytes chunk rounds (i + 1) (total + one.1) one.0 in
    if leb bytes beg then (buf, total) else rest

unfoldable pub dense_read_range : (ℕ → ℕ) → Pread → ℕ → ℕ → ℕ → (ℕ → ℕ) → (ℕ → ℕ) × ℕ
unfolding run_chunks
dense_read_range file pread off bytes nth buf =
    if leb nth 1
    then read_range file pread 0 off bytes buf
    else run_chunks file pread off bytes ((bytes + nth - 1) / nth) nth 0 0 buf
