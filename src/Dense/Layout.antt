-- ===== src/Dense/Layout.antt =====
-- src/llama-moestream.cpp, `finalize_dense`: the size of an arena, and the places of a layer's
-- weights in it. The allocations are those that succeed.
pub mod Laws
use moestream.Prelude.{
  ℕ, ◌+◌, ◌-◌, ◌*◌, ◌/◌, ◌%◌, ◌^◌, Bool, true, false, List, [], ◌∷◌, ltb, if◌then◌else◌,
}
use moestream.Dense.Info.{DenseInfo, no_info}

pub record DenseLayer : Type 0 where
  pub w : List DenseInfo
  pub ready : Bool

-- The sum over the valid weights, from `t` on.
unfoldable pub layer_bytes : ℕ → List DenseInfo → ℕ
layer_bytes t [] = t
layer_bytes t (m ∷ ms) = layer_bytes (if m.valid then (t + m.bytes) % 2 ^ 64 else t) ms

-- The layers of `g_dn_meta`, in order.
unfoldable pub lay_max : ℕ → List DenseLayer → ℕ
unfolding layer_bytes
lay_max most [] = most
lay_max most (l ∷ ls) =
    let t = layer_bytes 0 l.w in
    lay_max (if l.ready then if ltb most t then t else most else most) ls

-- `(lay_max + 4095) & ~4095`.
abbrev pub page_up : ℕ → ℕ
page_up n = ((n + 4095) % 2 ^ 64) / 4096 * 4096

unfoldable pub bytes_per : List DenseLayer → ℕ
unfolding lay_max
bytes_per ls = page_up (lay_max 0 ls)

-- The views of a layer's weights, from `off` on.
unfoldable pub lay_out : ℕ → List DenseInfo → List DenseInfo
lay_out off [] = []
lay_out off (m ∷ ms) =
    (if m.valid then record m { present = true; arena_off = off } else no_info)
    ∷ lay_out (if m.valid then (off + m.bytes) % 2 ^ 64 else off) ms
