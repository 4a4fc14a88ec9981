-- ===== src/Tests/Inputs.antt =====
-- Numbers for doubles, a cache of one layer with four experts and two slots, and one of two layers.
use moestream.Prelude.{
  ℕ, ◌+◌, ◌-◌, ◌*◌, ◌/◌, ◌%◌, ◌^◌, ◌<◌, ◌≡◌, refl, ap, true, List, [], ◌∷◌, leb, ltb, arith,
}
use moestream.Prelude.Int.{pos}
use moestream.Cache.Doubles.{Doubles}
use moestream.Cache.State.{demand, Config, ExpertCache}
use moestream.Cache.Inv.{Inv, IsConfig}
use moestream.Cache.Create.{create, slot_count, blank_layer}
use moestream.Cache.Create.WellFormed.{create-Inv}
use moestream.Cache.History.{Call, acquires, marks, releases, ends_step, run}
use moestream.Cache.History.Laws.{AllInRange, run-cfg, run-create-Inv}

abbrev pub nat_doubles : Doubles
nat_doubles = record {
  Double = ℕ;
  from_nat = λ n. n;
  half = 0;
  add = λ a b. a + b;
  sub = λ a b. a - b;
  mul = λ a b. a * b;
  div = λ a b. a / b;
  le = leb;
  lt = ltb;
  pow = λ a b. a ^ b;
  ceil = λ a. a;
  to_uint32 = λ a. a % 2 ^ 32;
  to_int64 = pos;
}

abbrev pub config_of : ℕ → ℕ → ℕ → Config ℕ
config_of layers slots least = record {
  n_layer = layers;
  n_expert = 4;
  n_slot = slots;
  cache_frac = 0;
  pin_ratio = 1;
  small_ratio = 0;
  ghost_mult = 2;
  layer_quota_adapt = true;
  quota_period = 2;
  quota_eta = 1;
  quota_min = least;
}

abbrev pub one_layer : Config ℕ
one_layer = config_of 1 2 1

abbrev pub two_layers : Config ℕ
two_layers = config_of 2 4 1

pub one_layer-IsConfig : IsConfig one_layer
one_layer-IsConfig = record { layers = omega arith; table_fits = omega arith }

pub two_layers-IsConfig : IsConfig two_layers
two_layers-IsConfig = record { layers = omega arith; table_fits = omega arith }

-- Expert 1 is loaded and given back, experts 2 and 3 are asked for, the step ends.
abbrev pub some_calls : List Call
some_calls =
    acquires 0 1 demand
    ∷ marks 0 1 100
    ∷ releases 0 1
    ∷ acquires 0 2 demand
    ∷ acquires 0 3 demand
    ∷ ends_step
    ∷ []

abbrev pub new_cache : ExpertCache ℕ
new_cache = create nat_doubles one_layer

pub new_cache-Inv : Inv new_cache
unfolding slot_count
new_cache-Inv = create-Inv nat_doubles one_layer one_layer-IsConfig (omega arith)

abbrev pub used_cache : ExpertCache ℕ
used_cache = run nat_doubles new_cache some_calls

pub some_calls-AllInRange : AllInRange one_layer some_calls
unfolding create slot_count
some_calls-AllInRange = (
  (omega arith, omega arith),
  (
    (omega arith, omega arith),
    (
      (omega arith, omega arith),
      ((omega arith, omega arith), ((omega arith, omega arith), (tt, tt))),
    ),
  ),
)

pub used_cache-Inv : Inv used_cache
unfolding slot_count
used_cache-Inv =
    run-create-Inv nat_doubles one_layer some_calls one_layer-IsConfig (omega arith)
      some_calls-AllInRange

pub used_cache-cfg : used_cache.cfg ≡ one_layer
unfolding create slot_count
used_cache-cfg = run-cfg nat_doubles new_cache some_calls new_cache-Inv some_calls-AllInRange

pub used_cache-layer : 0 < used_cache.cfg.n_layer
used_cache-layer = omega (arith, ap (λ (q : Config ℕ). q.n_layer) used_cache-cfg)

pub used_cache-expert : (e : ℕ) → e < 4 → e < used_cache.cfg.n_expert
used_cache-expert e h = omega (arith, ap (λ (q : Config ℕ). q.n_expert) used_cache-cfg)

-- Two layers with ghost hits, `least` being the minimum quota.
abbrev pub ghosted : ℕ → ExpertCache ℕ
ghosted least = record (create nat_doubles (config_of 2 4 least)) {
  lay = λ l. record blank_layer { ghost_hits = 3 + l };
}

pub ghosted-Inv : (least : ℕ) → Inv (ghosted least)
unfolding slot_count create
ghosted-Inv least =
    let v =
      create-Inv nat_doubles (config_of 2 4 least)
        (record { layers = omega arith; table_fits = omega arith }) (omega arith) in
    record {
      config = v.config;
      slots = v.slots;
      owned = v.owned;
      mirrored = v.mirrored;
      entries = v.entries;
      layers = λ l. record { residents = refl };
      smalls = v.smalls;
      mains = v.mains;
      seats = v.seats;
    }
