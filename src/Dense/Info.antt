-- ===== src/Dense/Info.antt =====
-- src/llama-moestream.cpp, `DenseInfo`: where a weight is in the model's files, and in the arena.
use moestream.Prelude.{ℕ, Bool, false}
use moestream.Prelude.Int.{ℤ, negsuc}

pub record DenseInfo : Type 0 where
  -- `t` is not null.
  pub present : Bool
  pub arena_off : ℕ
  pub file_offset : ℕ
  pub bytes : ℕ
  pub file_idx : ℕ
  pub type : ℤ
  pub role : ℤ
  pub ne0 : ℤ
  pub ne1 : ℤ
  pub valid : Bool

-- `DenseInfo{}`.
abbrev pub no_info : DenseInfo
no_info = record {
  present = false;
  arena_off = 0;
  file_offset = 0;
  bytes = 0;
  file_idx = 0;
  type = ℤ.pos 0;
  role = negsuc 0;
  ne0 = ℤ.pos 0;
  ne1 = ℤ.pos 0;
  valid = false;
}
