-- ===== src/Gguf/Tensors/Sizes.antt =====
-- The bytes of a slot are the sum over the tensors of experts in the tables of all shards.
use moestream.Prelude.{
  ℕ, ◌+◌, ◌*◌, ◌%◌, ◌^◌, ◌<◌, ◌≡◌, refl, ap, ◌∙◌, Bool, true, false, not, ◌&&◌, ◌||◌, Option, some,
  List, [], ◌∷◌, length, if◌then◌else◌, arith,
}
use moestream.Prelude.Int.{ℤ, pos, ltb_ℤ}
use moestream.Loader.Names.{parse_name}
use moestream.Gguf.Stream.{File}
use moestream.Gguf.Stream.Laws.{Holds, Holds-front, Holds-back, bind_some}
use moestream.Gguf.Value.{signed}
use moestream.Gguf.Tensors.{
  Tensor, c_str, Slot, dim, is_expert, add_tensor, slot_next, slot_loop, no_slot_bytes, from_table,
  slot_shard, join_slot, slot_shards, per_slot, gguf_bytes_per_slot,
}
use moestream.Gguf.Tensors.Laws.{
  encode_tensor, encode_tensors, AllWellFormed, rd_tensor-encode_tensor,
}
use moestream.Gguf.Tensors.Table.{Contents, IsShard, table_at, tensor_table-encode_shard}

-- The dimension that counts experts.
abbrev pub expert_dim : Tensor → ℤ
expert_dim t = signed (2 ^ 63) (dim 2 t.dims)

abbrev pub counted : Tensor → Bool
counted t = is_expert (parse_name (c_str t.name)) && ltb_ℤ (pos 1) (expert_dim t)

abbrev pub any_counted : List Tensor → Bool
any_counted [] = false
any_counted (t ∷ ts) = counted t || any_counted ts

abbrev pub any_shard : List Contents → Bool
any_shard [] = false
any_shard (c ∷ cs) = any_counted c.tensors || any_shard cs

abbrev pub AreShards : List File → List Contents → Type 0
AreShards [] [] = Unit {0}
AreShards (f ∷ fs) (c ∷ cs) = IsShard f c × AreShards fs cs
AreShards fs cs = ⊥

abbrev pub opened : List File → List (Option File)
opened [] = []
opened (f ∷ fs) = some f ∷ opened fs

abbrev pub is_some_slot : Slot → Bool
is_some_slot s = ltb_ℤ (pos 0) s.experts

or_false : (a : Bool) → (a || false) ≡ a
or_false true = refl
or_false false = refl

module _ (row_size : ℕ → ℕ → ℕ) where
  -- The bytes of one expert.
  abbrev pub expert_size : Tensor → ℕ
  expert_size t = row_size t.type (dim 0 t.dims) * dim 1 t.dims

  abbrev pub slot_sum : List Tensor → ℕ
  slot_sum [] = 0
  slot_sum (t ∷ ts) = (if counted t then expert_size t else 0) + slot_sum ts

  abbrev pub shards_sum : List Contents → ℕ
  shards_sum [] = 0
  shards_sum (c ∷ cs) = slot_sum c.tensors + shards_sum cs

  abbrev add_all : List Tensor → Slot → Slot
  add_all [] s = s
  add_all (t ∷ ts) s = add_all ts (add_tensor row_size t s)

  slot_loop-encode_tensors :
      (f : File) (ts : List Tensor) (at : ℕ) (s : Slot)
      → AllWellFormed ts
      → Holds f at (encode_tensors ts)
      → slot_loop row_size f (length ts) at s ≡ some (add_all ts s)
  unfolding slot_loop
  slot_loop-encode_tensors f [] at s w h = refl
  slot_loop-encode_tensors f (t ∷ ts) at s (w, ws) h =
      ap (slot_next row_size (λ next u. slot_loop row_size f (length ts) next u) s) (
        rd_tensor-encode_tensor f t at w (Holds-front f (encode_tensor t) (encode_tensors ts) at h))
      ∙ slot_loop-encode_tensors f ts (at + length (encode_tensor t)) (add_tensor row_size t s) ws
          (Holds-back f (encode_tensor t) (encode_tensors ts) at h)

  abbrev grown : ℤ → ℕ → Slot → Slot
  grown ne2 size s = record { total = (s.total + size) % 2 ^ 64; experts = ne2 }

  abbrev Added : Slot → Bool → ℕ → Slot → Type 0
  Added s b size u =
      (u.total ≡ (s.total + (if b then size else 0)) % 2 ^ 64)
      × (is_some_slot u ≡ (b || is_some_slot s))

  experts_some : (ne2 : ℤ) → ltb_ℤ (pos 1) ne2 ≡ true → ltb_ℤ (pos 0) ne2 ≡ true
  experts_some ne2 h = ground (arith, h)

  added :
      (a b : Bool) (ne2 : ℤ) (size : ℕ) (s : Slot)
      → s.total < 2 ^ 64
      → ltb_ℤ (pos 1) ne2 ≡ b
      → Added s (a && b) size (if not a then s else if not b then s else grown ne2 size s)
  added false b ne2 size s low q = (omega (arith, low), refl)
  added true false ne2 size s low q = (omega (arith, low), refl)
  added true true ne2 size s low q = (refl, experts_some ne2 q)

  -- What one tensor adds.
  add_tensor-Added :
      (t : Tensor) (s : Slot)
      → s.total < 2 ^ 64
      → Added s (counted t) (expert_size t) (add_tensor row_size t s)
  add_tensor-Added t s low =
      added (is_expert (parse_name (c_str t.name))) (ltb_ℤ (pos 1) (expert_dim t)) (expert_dim t)
        (expert_size t) s low refl

  or_assoc : (a b c : Bool) → (b || (a || c)) ≡ ((a || b) || c)
  or_assoc true true c = refl
  or_assoc true false c = refl
  or_assoc false true c = refl
  or_assoc false false c = refl

  add_all-lem :
      (ts : List Tensor) (s : Slot)
      → s.total < 2 ^ 64
      → ((add_all ts s).total ≡ (s.total + slot_sum ts) % 2 ^ 64)
        × (is_some_slot (add_all ts s) ≡ (any_counted ts || is_some_slot s))
  add_all-lem [] s low = (omega (arith, low), refl)
  add_all-lem (t ∷ ts) s low =
      let (total, some_slot) = add_tensor-Added t s low in
      let u = add_tensor row_size t s in
      let (total_u, some_u) = add_all-lem ts u (omega (arith, total)) in
      (
        omega (arith, total, total_u),
        some_u
            ∙ ap (any_counted ts ||◌) some_slot
            ∙ or_assoc (counted t) (any_counted ts) (is_some_slot s),
      )

  slot_shard-lem :
      (f : File) (c : Contents)
      → IsShard f c
      → slot_shard row_size (some f) ≡ some (add_all c.tensors no_slot_bytes)
  unfolding slot_shard
  slot_shard-lem f c (small, v, t, k, w, x, h) =
      let (table, here) = tensor_table-encode_shard false f c (small, v, t, k, w, x, h) in
      ap (from_table row_size f) table
      ∙ slot_loop-encode_tensors f c.tensors (table_at c) no_slot_bytes x here

  some_if :
      (b : Bool) (x y : ℤ)
      → ltb_ℤ (pos 0) x ≡ b
      → ltb_ℤ (pos 0) (if b then x else y) ≡ (b || ltb_ℤ (pos 0) y)
  some_if true x y q = q
  some_if false x y q = refl

  join_slot-some :
      (all one : Slot) → is_some_slot (join_slot all one) ≡ (is_some_slot one || is_some_slot all)
  join_slot-some all one = some_if (is_some_slot one) one.experts all.experts refl

  slot_shards-lem :
      (fs : List File) (cs : List Contents) (all : Slot)
      → all.total < 2 ^ 64
      → AreShards fs cs
      → (s : Slot) × (slot_shards row_size (opened fs) all ≡ some s)
        × (s.total ≡ (all.total + shards_sum cs) % 2 ^ 64)
        × (is_some_slot s ≡ (any_shard cs || is_some_slot all))
  unfolding slot_shards
  slot_shards-lem [] [] all low w = (all, refl, omega (arith, low), refl)
  slot_shards-lem [] (c ∷ cs) all low w = absurd w
  slot_shards-lem (f ∷ fs) [] all low w = absurd w
  slot_shards-lem (f ∷ fs) (c ∷ cs) all low (h, w) =
      let one = add_all c.tensors no_slot_bytes in
      let next = join_slot all one in
      let (total_one, some_one) = add_all-lem c.tensors no_slot_bytes (omega arith) in
      let (s, run, total, some_s) = slot_shards-lem fs cs next (omega arith) w in
      (
        s,
        bind_some (λ u. slot_shards row_size (opened fs) (join_slot all u)) _ _
              (slot_shard-lem f c h)
            ∙ run,
        omega (arith, total, total_one),
        some_s
            ∙ ap (any_shard cs ||◌)
                (join_slot-some all one ∙ ap (◌|| is_some_slot all) (some_one ∙ or_false _))
            ∙ or_assoc (any_counted c.tensors) (any_shard cs) (is_some_slot all),
      )

-- Shards that were written by the format, each smaller than 2^63 bytes: the bytes of a slot are the
-- sum over all tables of the bytes of one expert of each tensor that has the name of an expert tensor
-- and more than one expert, cut to 64 bits; they are 0 if there is no such tensor.
pub gguf_bytes_per_slot-shards_sum :
    (row_size : ℕ → ℕ → ℕ) (fs : List File) (cs : List Contents)
    → AreShards fs cs
    → gguf_bytes_per_slot row_size (opened fs)
      ≡ (if any_shard cs then shards_sum row_size cs % 2 ^ 64 else 0)
unfolding gguf_bytes_per_slot
gguf_bytes_per_slot-shards_sum row_size fs cs w =
    let (s, run, total, some_s) = slot_shards-lem row_size fs cs no_slot_bytes (omega arith) w in
    ap per_slot run
    ∙ ap (λ (b : Bool). if b then s.total else 0) (some_s ∙ or_false _)
    ∙ ap (λ (n : ℕ). if any_shard cs then n else 0) (omega (arith, total))
