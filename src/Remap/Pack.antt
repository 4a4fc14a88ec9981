-- ===== src/Remap/Pack.antt =====
-- src/llama-moestream.cpp, `pack_ud` and the unpacking at the head of `ms_remap_fn`.
use moestream.Prelude.{ℕ, ◌+◌, ◌*◌, ◌/◌, ◌%◌, ◌^◌, ◌<◌, ◌≡◌, arith}

-- The three fields stand in different bits, so that `|` is a sum.
unfoldable pub pack_ud : ℕ → ℕ → ℕ → ℕ
pack_ud il pass np = il % 2 ^ 16 + pass % 2 ^ 8 * 2 ^ 16 + np % 2 ^ 8 * 2 ^ 24

unfoldable pub unpack_layer : ℕ → ℕ
unpack_layer packed = packed % 2 ^ 16

unfoldable pub unpack_pass : ℕ → ℕ
unpack_pass packed = packed / 2 ^ 16 % 2 ^ 8

unfoldable pub unpack_passes : ℕ → ℕ
unpack_passes packed = packed / 2 ^ 24 % 2 ^ 8

-- A layer below 65536, a pass and a number of passes below 256 come out of the packed word as they
-- went in.
pub unpack-pack_ud :
    (il pass np : ℕ)
    → il < 2 ^ 16
    → pass < 2 ^ 8
    → np < 2 ^ 8
    → (unpack_layer (pack_ud il pass np) ≡ il)
      × (unpack_pass (pack_ud il pass np) ≡ pass)
      × (unpack_passes (pack_ud il pass np) ≡ np)
unfolding pack_ud unpack_layer unpack_pass unpack_passes
unpack-pack_ud il pass np h k l = omega arith
