-- ===== src/Finalize/Zero.antt =====
-- src/llama-moestream.cpp, `ensure_zero_slot`: the slot of the null expert is filled with zeros, once.
-- The diagnostics and the bytes that they read back are left out.
pub mod Laws
use moestream.Prelude.{
  ℕ, ◌+◌, ◌*◌, ◌%◌, ◌^◌, Bool, true, false, not, ◌&&◌, List, [], ◌∷◌, ltb, ◌==◌, if◌then◌else◌,
}
use moestream.Prelude.Int.{ℤ}
use moestream.Io.Read.{SlabInfo}
use moestream.Loader.Map.{same_key}
use moestream.Loader.Tables.{LayerSlabs}

-- What a copy out of a vector comes to: it reads more bytes, the first number, than the vector has,
-- the second, which is undefined behaviour.
pub data Outcome {ℓ} (A : Type ℓ) : Type ℓ where
  done : A → Outcome A
  past_end : ℕ → ℕ → Outcome A

infixl 5 ◌>>=◌
abbrev pub ◌>>=◌ {ℓ κ} : {A : Type ℓ} {B : Type κ} → Outcome A → (A → Outcome B) → Outcome B
done a >>= f = f a
past_end n size >>= f = past_end n size

-- The bytes of the slabs, by layer and role.
abbrev pub Slabs : Type 0
Slabs = ℤ → ℕ → ℕ → ℕ

-- `ggml_backend_tensor_set`: the tensor with the data, at an offset, of a size.
abbrev pub TensorSet : Type 0
TensorSet = (ℕ → ℕ) → ℕ → ℕ → (ℕ → ℕ) → ℕ → ℕ

abbrev pub set_slab : Slabs → ℤ → ℕ → (ℕ → ℕ) → Slabs
set_slab slabs il role content k q = if same_key k il && q == role then content else slabs k q

-- `zeros` has `maxb` bytes; `has_buffer` says that `t->buffer` is not null.
module _ (tensor_set : TensorSet) (has_buffer : ℤ → ℕ → Bool) (maxb zero_slot : ℕ) where
  unfoldable pub zero_role : ℤ → ℕ → SlabInfo → Slabs → Outcome Slabs
  zero_role il role si slabs =
      if not (si.present && has_buffer il role)
      then done slabs
      else if ltb maxb si.expert_bytes
      then past_end si.expert_bytes maxb
      else done (
          set_slab slabs il role (
            tensor_set (λ i. 0) (zero_slot * si.expert_bytes % 2 ^ 64) si.expert_bytes
              (slabs il role)))

  unfoldable pub zero_layers : List (ℤ × LayerSlabs) → Slabs → Outcome Slabs
  unfolding zero_role
  zero_layers [] slabs = done slabs
  zero_layers ((il, l) ∷ layers) slabs = do
    gate ← zero_role il 0 l.gate slabs
    up ← zero_role il 1 l.up gate
    down ← zero_role il 2 l.down up
    zero_layers layers down
