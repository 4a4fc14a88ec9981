-- ===== src/Cache/History.antt =====
-- Histories of calls on one cache, from its construction on.
pub mod Laws
use moestream.Prelude.{ℕ, suc, List, [], ◌∷◌}
use moestream.Cache.Doubles.{Doubles}
use moestream.Cache.State.{Origin, ExpertCache}
use moestream.Cache.Acquire.{acquire, mark_resident, release}
use moestream.Cache.Quota.{end_step}

pub data Call : Type 0 where
  acquires : ℕ → ℕ → Origin → Call
  marks : ℕ → ℕ → ℕ → Call
  releases : ℕ → ℕ → Call
  ends_step : Call

module _ (D : Doubles) where
  open D use {Double}

  unfoldable pub call : ExpertCache Double → Call → ExpertCache Double
  unfolding acquire mark_resident release end_step
  call c (acquires layer e origin) = (acquire c layer e origin).0
  call c (marks layer e nbytes) = mark_resident c layer e nbytes
  call c (releases layer e) = release c layer e
  call c ends_step = end_step D c

  unfoldable pub run : ExpertCache Double → List Call → ExpertCache Double
  unfolding call
  run c [] = c
  run c (x ∷ xs) = run (call c x) xs

-- How many of the calls ask for an expert.
abbrev pub requests : List Call → ℕ
requests [] = 0
requests (acquires _ _ _ ∷ xs) = suc (requests xs)
requests (marks _ _ _ ∷ xs) = requests xs
requests (releases _ _ ∷ xs) = requests xs
requests (ends_step ∷ xs) = requests xs
