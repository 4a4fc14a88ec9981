-- ===== src/Tests/LoaderRuns.antt =====
-- The names of layer 12, two registrations, a claim, and the slots of a slab.
use moestream.Prelude.{
  ℕ, ◌≡◌, refl, ap, Bool, true, false, ◌&&◌, ◌||◌, Option, none, some, [], ◌∷◌, ◌++◌, ltb, arith,
}
use moestream.Prelude.Int.{ℤ, pos, negsuc}
use moestream.Loader.Names.{
  Name, same_text, blk, ffn, gate, weight, exps, strtol, parse_name, parse_dense_any,
}
use moestream.Loader.Names.Laws.{
  print_layer, role_end, parse_name-round, parse_name-parse_dense_any,
}
use moestream.Loader.Map.{lookup}
use moestream.Loader.Tables.{register_slab, Split, Budget, dense_claim, skip_load, is_some}
use moestream.Loader.Tables.Laws.{member, slabs_at, ReadyIff, register_slab-members}
use moestream.Loader.Tables.Claim.{skip_load-dense_claim}
use moestream.Loader.Slots.{Sizes, share, slab_slots}
use moestream.Loader.Slots.Laws.{Sized, slab_slots-Sized}
use moestream.Learned.Files.{state_put, read_rows, others}
use moestream.Learned.Files.Laws.{state_put-rows}
use moestream.Tests.Inputs.{nat_doubles}
use moestream.Tests.IoRuns.{two_experts}

parse_name-round_example :
    parse_name (blk ++ (print_layer 12 ++ role_end 1 exps)) ≡ some (pos 12, 1)
parse_name-round_example = parse_name-round 12 1 (omega arith) (omega arith)

-- "blk.7.ffn_gate.weight"
abbrev dense_7 : Name
dense_7 = blk ++ (55 ∷ ffn (gate weight))

dense_7-parsed : parse_dense_any 8388608 dense_7 9000000 ≡ some (pos 7, 0)
unfolding parse_dense_any strtol
dense_7-parsed = refl

parse_name-parse_dense_any_example : parse_name dense_7 ≡ none
parse_name-parse_dense_any_example =
    parse_name-parse_dense_any 8388608 9000000 dense_7 (pos 7, 0) dense_7-parsed

-- "blk.7.ffn_gate_exps.weight"
abbrev expert_7 : Name
expert_7 = blk ++ (55 ∷ ffn (gate exps))

expert_7-parsed : parse_name expert_7 ≡ some (pos 7, 0)
unfolding parse_name strtol
expert_7-parsed = refl

empty-ReadyIff : ReadyIff []
unfolding lookup
empty-ReadyIff k = refl

register_slab-members_example :
    member 0 (slabs_at (pos 7) (register_slab true expert_7 two_experts [])) ≡ two_experts
register_slab-members_example =
    (register_slab-members expert_7 two_experts [] (pos 7) 0 expert_7-parsed (omega arith)
        empty-ReadyIff).0
      (pos 7) 0 (omega arith)

abbrev undecided : Split ℕ
undecided = record {
  dn_nlayer = pos 0;
  dn_first = negsuc 0;
  dn_frac = 0;
  dn_seen = false;
  claimed = [];
}

abbrev dense_model : Budget ℕ
dense_model = record {
  nexpert = pos 0;
  nlayer = pos 8;
  dn_auto = false;
  dn_nbuf = 2;
  scan_total = 0;
  file_gib = 8;
  have_mem = false;
  dev_t = 0;
  dev_u = 0;
  reserve = 2;
}

abbrev claimed_7 : Split ℕ × Bool
claimed_7 = dense_claim nat_doubles true 8388608 dense_model dense_7 2 9000000 undecided

skip_load-dense_claim_example :
    skip_load true claimed_7.0.claimed dense_7
    ≡ (skip_load true [] dense_7 || (claimed_7.1 && same_text dense_7 dense_7))
skip_load-dense_claim_example =
    skip_load-dense_claim nat_doubles 8388608 dense_model dense_7 2 9000000 undecided dense_7

abbrev no_sizes : Sizes
no_sizes = record { slots = 0; zero_slot = 0; experts = 0 }

slab_slots-Sized_example :
    Sized nat_doubles true
      (share 0)
      (pos 8)
      4
      expert_7
      128
      no_sizes
      (slab_slots nat_doubles true (share 0) (pos 8) 4 expert_7 128 no_sizes)
slab_slots-Sized_example =
    (slab_slots-Sized nat_doubles true (share 0) (pos 8) 4 expert_7 128 no_sizes (omega arith)).0
      expert_7-sized
  where
    expert_7-sized : (true && (is_some (parse_name expert_7) && ltb 1 128)) ≡ true
    expert_7-sized = ap (λ (o : Option (ℤ × ℕ)). is_some o && ltb 1 128) expert_7-parsed

-- "a1", "b2" and "a3", with their newlines.
abbrev row_a1 : Name
row_a1 = 97 ∷ 49 ∷ 10 ∷ []

abbrev row_b2 : Name
row_b2 = 98 ∷ 50 ∷ 10 ∷ []

abbrev row_a3 : Name
row_a3 = 97 ∷ 51 ∷ 10 ∷ []

state_put-rows_example :
    (read_rows (some (row_a1 ++ (row_b2 ++ []))) ≡ row_a1 ∷ row_b2 ∷ [])
    × (read_rows (state_put true (λ s. s) true (97 ∷ []) row_a3 (some (row_a1 ++ (row_b2 ++ []))))
        ≡ row_b2 ∷ row_a3 ∷ [])
unfolding others
state_put-rows_example =
    state_put-rows true true (λ s. s) (97 ∷ []) row_a3 (row_a1 ∷ row_b2 ∷ []) (λ s. refl)
      (refl, (refl, tt)) refl

-- The disk takes one byte: the old rows are lost, and the file has the truncated row.
full_disk_loses :
    state_put true (λ s. 98 ∷ []) true (97 ∷ []) row_a3 (some (row_a1 ++ (row_b2 ++ [])))
    ≡ some (98 ∷ [])
unfolding state_put
full_disk_loses = refl
