-- ===== src/Gguf/Keys.antt =====
-- src/llama-moestream.cpp, `gguf_kv_int`: an integer of the metadata, by the end of its key.
pub mod Laws
use moestream.Prelude.{
  ℕ, zero, suc, ◌+◌, ◌-◌, ◌^◌, Bool, true, false, ◌&&◌, Option, none, some, List, [], ◌∷◌, length,
  ltb, leb, if◌then◌else◌,
}
use moestream.Prelude.Int.{ℤ, pos, negsuc}
use moestream.Loader.Names.{Name, same_text}
use moestream.Gguf.Stream.{File, ◌>>=◌, number_at, bytes_at, rd, rd_bytes, read_header}
use moestream.Gguf.Value.{skip}

abbrev pub drop : ℕ → Name → Name
drop zero s = s
drop (suc n) [] = []
drop (suc n) (c ∷ s) = drop n s

-- `key.compare(key.size() - sl, sl, suf) == 0`, for a key that is long enough.
abbrev pub ends_with : Name → Name → Bool
ends_with suf key =
    if leb (length suf) (length key)
    then same_text (drop (length key - length suf) key) suf
    else false

-- `want && v > 0 && v < 4096`.
abbrev pub if_wanted : Bool → ℤ → Option ℕ
if_wanted want (pos n) = if want && (ltb 0 n && ltb n 4096) then some n else none
if_wanted want (negsuc n) = none

abbrev pub or_next : Option ℕ → Option ℕ → Option ℕ
or_next (some n) rest = some n
or_next none rest = rest

-- An array has a byte at least for each array that it is nested in.
abbrev pub deepest : File → ℕ
deepest f = suc f.size

-- The loop over the keys.
unfoldable pub find_int : File → Name → ℕ → ℕ → Option ℕ
unfolding number_at bytes_at skip
find_int f suf zero at = none
find_int f suf (suc n) at = do
  (klen, a) ← rd f 8 at
  (key, b) ← if ltb (2 ^ 20) klen then none else rd_bytes f klen a
  (vt, c) ← rd f 4 b
  (d, v) ← skip f false (deepest f) vt c
  or_next (if_wanted (ends_with suf key) v) (find_int f suf n d)

abbrev pub or_zero : Option ℕ → ℕ
or_zero (some n) = n
or_zero none = 0

-- `shard` is the first shard, if there is one that can be opened.
unfoldable pub gguf_kv_int : Name → Option File → ℕ
unfolding read_header find_int
gguf_kv_int suf shard =
    or_zero do f ← shard; (n_tensor, n_kv, at) ← read_header f; find_int f suf n_kv at

abbrev pub expert_used_count : Name
expert_used_count =
    46 ∷ 101 ∷ 120 ∷ 112 ∷ 101 ∷ 114 ∷ 116 ∷ 95 ∷ 117 ∷ 115 ∷ 101 ∷ 100 ∷ 95 ∷ 99 ∷ 111 ∷ 117 ∷ 110
    ∷ 116 ∷ []

abbrev pub block_count : Name
block_count = 46 ∷ 98 ∷ 108 ∷ 111 ∷ 99 ∷ 107 ∷ 95 ∷ 99 ∷ 111 ∷ 117 ∷ 110 ∷ 116 ∷ []

abbrev pub expert_count : Name
expert_count = 46 ∷ 101 ∷ 120 ∷ 112 ∷ 101 ∷ 114 ∷ 116 ∷ 95 ∷ 99 ∷ 111 ∷ 117 ∷ 110 ∷ 116 ∷ []

-- The file is the first shard, if there is one.
unfoldable pub gguf_topk : Option File → ℕ
unfolding gguf_kv_int
gguf_topk f = gguf_kv_int expert_used_count f

unfoldable pub gguf_nlayer : Option File → ℕ
unfolding gguf_kv_int
gguf_nlayer f = gguf_kv_int block_count f

unfoldable pub gguf_nexpert : Option File → ℕ
unfolding gguf_kv_int
gguf_nexpert f = gguf_kv_int expert_count f
