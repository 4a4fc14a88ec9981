-- ===== src/Tests/PolicyRuns.antt =====
-- A short trace with four experts and two slots.
use moestream.Prelude.{ℕ, ◌≡◌, refl, List, [], ◌∷◌, arith}
use moestream.Remap.Mrc.{accumulated}
use moestream.Policy.Lru.{no_access, sim_lru}
use moestream.Policy.Lru.Stack.{touch_all, on_one_layer, AllExperts, Untouched, sim_lru-accumulated}
use moestream.Tests.RemapRuns.{blank_mrc}

abbrev some_experts : List ℕ
some_experts = 0 ∷ 1 ∷ 2 ∷ 1 ∷ 0 ∷ 1 ∷ []

blank_mrc-Untouched : Untouched 4 blank_mrc
blank_mrc-Untouched = (refl, omega arith, refl, refl, (λ x. refl), λ r. refl)

some_experts-AllExperts : AllExperts 4 some_experts
some_experts-AllExperts =
    (omega arith, (omega arith, (omega arith, (omega arith, (omega arith, (omega arith, tt))))))

sim_lru-accumulated_example :
    (sim_lru 4 2 (on_one_layer some_experts) no_access).hit
    ≡ accumulated 2 (touch_all some_experts blank_mrc).hist
sim_lru-accumulated_example =
    sim_lru-accumulated 4 2 blank_mrc some_experts blank_mrc-Untouched some_experts-AllExperts
      (omega arith) (omega arith) (omega arith)

-- The second and the third use of expert 1.
two_hits : (sim_lru 4 2 (on_one_layer some_experts) no_access).hit ≡ 2
unfolding sim_lru
two_hits = refl
