-- ===== src/Cache/Doubles.antt =====
-- The double arithmetic that the cache uses, which the program takes from the machine: a type and
-- its operations, of which nothing is assumed.
use moestream.Prelude.{ℕ, Bool}
use moestream.Prelude.Int.{ℤ}

pub record Doubles : Type 1 where
  pub Double : Type 0
  pub from_nat : ℕ → Double
  pub half : Double
  pub add : Double → Double → Double
  pub sub : Double → Double → Double
  pub mul : Double → Double → Double
  pub div : Double → Double → Double
  pub le : Double → Double → Bool
  pub lt : Double → Double → Bool
  pub pow : Double → Double → Double
  pub ceil : Double → Double
  pub to_uint32 : Double → ℕ
  pub to_int64 : Double → ℤ
