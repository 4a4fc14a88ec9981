-- ===== src/Tests/ArenaRuns.antt =====
-- Two arenas, for the experts of three layers and for the weights of two dense layers.
use moestream.Prelude.{
  ℕ, ◌+◌, ◌*◌, ◌%◌, ◌≡◌, refl, subst, true, false, none, some, List, [], ◌∷◌, ltb, if◌then◌else◌,
  arith,
}
use mathlib.Core.List.Memᴰ.{head}
use moestream.Prelude.Int.{ℤ, pos, negsuc}
use moestream.Prefill.State.{PassTimes, Counters, Prefill}
use moestream.Prefill.Pass.{Clock}
use moestream.Prefill.Load.{Model}
use moestream.Prefill.Ids.{Ids}
use moestream.Prefill.Graph.{pf_wait, ms_pfload_fn}
use moestream.Prefill.Graph.Laws.{Good}
use moestream.Prefill.Graph.Loaded.{ms_pfload_fn-Good, ms_pfload_fn-serves}
use moestream.Dense.Info.{DenseInfo, no_info}
use moestream.Dense.Layout.{DenseLayer, bytes_per, lay_out}
use moestream.Dense.Layout.Laws.{Laid, arena_holds_layer}
use moestream.Dense.Load.{Tables, Dense, dn_wait, ms_dnload_fn}
use moestream.Dense.Load.Weights.{Holds, Reads, Inside}
use moestream.Dense.Load.Laws.{AllInside, AllLaid, some-eq}
use moestream.Dense.Load.Graph as Dnload
use moestream.Dense.Load.Graph.{ms_dnload_fn-Holds}
use moestream.Tests.IoRuns.{byte_wise, byte_wise-AtMost, byte_wise-Readable}
use moestream.Tests.Inputs.{nat_doubles}

abbrev pub numbered : Model ℕ
numbered = record {
  weights = λ il role e. 100 * il + 10 * role + e;
  read = λ t il role e w. 100 * il + 10 * role + e;
  layers = λ il. if ltb il 3 then some 4 else none;
  expert_bytes = λ il. 4096;
  in_full = λ il. true;
  full_ready = λ il. true;
}

abbrev no_times : PassTimes ℕ
no_times = record {
  pf_first_il = negsuc 0;
  pass_t0 = 0;
  pass_io = 0;
  pass_ntok = 0;
  ub_io = 0;
  ub_cmp = 0;
  ub_passes = 0;
  ub_ntok = 0;
  req_t0 = 0;
  req_tok = 0;
}

abbrev no_counts : Counters ℕ
no_counts = record {
  experts_asked = 0;
  experts_read = 0;
  pf_hits = 0;
  pf_loads = 0;
  pf_bytes = 0;
  t_pfload = 0;
  async_hit = 0;
  async_miss = 0;
  u_need = 0;
  u_prev = 0;
  u_short = 0;
  u_total = 0;
  u_n = 0;
  pf_used = 0;
  slab_used = 0;
}

abbrev pub empty_arenas : Prefill ℕ ℕ
empty_arenas = record {
  pf_ready = true;
  pf_nbuf = 2;
  pf_async = true;
  pf_threshold = pos 16;
  prefetch = true;
  arena = λ b r e. 0;
  n_arena = 2;
  arena_layer = λ b. negsuc 0;
  arena_have = λ b e. false;
  pf_inflight = negsuc 0;
  pf_thread = none;
  n_union = 3;
  prev_union = λ il. record { size = 0; mark = λ e. false };
  seen_topk = 0;
  pf_ntok_seen = 300;
  times = no_times;
  counters = no_counts;
}

empty_arenas-Good : Good nat_doubles numbered empty_arenas
empty_arenas-Good =
    (λ b e r k at has h ok. absurd (ground arith), (refl, omega arith, omega arith), λ off. refl)

abbrev at_ten : Clock ℕ
at_ten = record { passed = 10; entered = 10; began = 10; ended = 12 }

-- 256 tokens with two experts each: the next layer is read in the background.
abbrev two_each : Ids
two_each = record { ids = λ j k. pos ((j + k) % 4); tk = 2; nt = 256 }

abbrev after_layer_1 : Prefill ℕ ℕ × (ℕ → ℤ)
after_layer_1 =
    ms_pfload_fn nat_doubles numbered 1 true two_each (λ p. pos 0) at_ten at_ten empty_arenas

ms_pfload_fn-serves_example :
    (after_layer_1.1 (1 * 2 + 1) ≡ pos 2)
    × (after_layer_1.0.arena 1 2 2 ≡ 122)
    × ((pf_wait nat_doubles numbered at_ten after_layer_1.0).arena 1 2 2 ≡ 122)
ms_pfload_fn-serves_example =
    ms_pfload_fn-serves nat_doubles numbered 1 two_each (λ p. pos 0) at_ten at_ten empty_arenas 4 2
      2 1 1 at_ten empty_arenas-Good refl refl (omega arith) (omega arith) refl (omega arith)
      (omega arith) (λ t w. refl)

ms_pfload_fn-Good_example : Good nat_doubles numbered after_layer_1.0
ms_pfload_fn-Good_example =
    ms_pfload_fn-Good nat_doubles numbered 1 two_each (λ p. pos 0) at_ten at_ten empty_arenas true
      empty_arenas-Good

abbrev weight_at : ℕ → ℕ → DenseInfo
weight_at off n = record no_info { file_offset = off; bytes = n; valid = true }

abbrev two_weights : List DenseInfo
two_weights = weight_at 32 8 ∷ weight_at 64 4 ∷ []

abbrev one_layer : DenseLayer
one_layer = record { w = two_weights; ready = true }

arena_holds_layer_example : Laid 0 (bytes_per (one_layer ∷ [])) two_weights (lay_out 0 two_weights)
arena_holds_layer_example =
    arena_holds_layer one_layer (one_layer ∷ []) (head refl) (omega arith, tt) refl

abbrev view_at : ℕ → DenseInfo → DenseInfo
view_at off m = record m { present = true; arena_off = off }

abbrev two_views : List DenseInfo
two_views = view_at 0 (weight_at 32 8) ∷ view_at 8 (weight_at 64 4) ∷ []

abbrev dense_tables : Tables
dense_tables = record {
  meta = λ il. some two_weights;
  view = λ il. some two_views;
  files = λ f i. 1000 + i;
  fd_open = λ f. true;
  file_size = λ f. 100;
  pread = λ f. byte_wise;
  dn_th = 4;
  dn_first = pos 1;
  dn_nlayer = pos 4;
}

two_views-Laid : Laid 0 4096 two_weights two_views
two_views-Laid =
    (λ v. (refl, omega arith, omega arith), (λ v. (refl, omega arith, omega arith), tt))

dense_tables-AllLaid : AllLaid 4096 dense_tables
dense_tables-AllLaid k ms vs m v =
    subst (λ (x : List DenseInfo). Laid 0 4096 x vs) (some-eq two_weights ms m)
      (subst (λ (x : List DenseInfo). Laid 0 4096 two_weights x) (some-eq two_views vs v)
        two_views-Laid)

dense_tables-Reads : Reads dense_tables
dense_tables-Reads = (λ f. byte_wise-AtMost, λ f. byte_wise-Readable 100)

dense_tables-AllInside : AllInside dense_tables
dense_tables-AllInside k ms m =
    subst (Inside dense_tables) (some-eq two_weights ms m)
      (λ v. omega arith, (λ v. omega arith, tt))

abbrev empty_dense : Dense ℕ
empty_dense = record {
  dn_ready = true;
  dn_nbuf = 2;
  has_host = λ b. ltb b 2;
  host = λ b i. 0;
  resident = λ b. negsuc 0;
  dn_inflight = negsuc 0;
  dn_thread = none;
  loads = 0;
  hits = 0;
  read_bytes = 0;
  t_read = 0;
  pf_hit = 0;
  pf_miss = 0;
}

empty_dense-Good :
    Dnload.Good nat_doubles dense_tables dense_tables-Reads dense_tables-AllInside 4096
      dense_tables-AllLaid empty_dense
empty_dense-Good = (
  λ b k ms vs at m v. absurd (ground arith),
  (refl, omega arith, λ b h. ground arith),
  λ few. refl,
)

abbrev after_dense_1 : Dense ℕ
after_dense_1 = ms_dnload_fn dense_tables nat_doubles 1 10 10 empty_dense

ms_dnload_fn-Holds_example :
    Holds dense_tables two_weights two_views (after_dense_1.host 1)
    × Holds dense_tables two_weights two_views
        ((dn_wait dense_tables nat_doubles 10 after_dense_1).host 1)
ms_dnload_fn-Holds_example =
    ms_dnload_fn-Holds nat_doubles dense_tables dense_tables-Reads dense_tables-AllInside 4096
      dense_tables-AllLaid 1 10 10 empty_dense two_weights two_views 10 empty_dense-Good refl refl
