-- ===== src/Policy/Lru/Stack.antt =====
-- The reuse distances that the runtime counts give the hits of the simulation for every number of
-- slots at once.
use moestream.Prelude.{
  ℕ, zero, suc, ◌+◌, ◌^◌, ◌<◌, ◌≡◌, refl, sym, ap, ◌∙◌, subst, true, List, [], ◌∷◌, length, ◌==◌,
  if◌then◌else◌, update, inc64, sum_below, sum_below-zero, arith,
}
use moestream.Remap.Mrc.{Mrc, mrc_touch, accumulated}
use moestream.Policy.Lru.{Lru, no_access, lru_access, sim_lru}
use moestream.Policy.Lru.Distances.{dist}
use moestream.Policy.Lru.Laws.{present, Tracks}
use moestream.Policy.Lru.Hits.{Counts, Counts-access}
use moestream.Policy.Lru.Curve.{mrc_touch-Touched, lru_access-Accessed}

-- The accesses of a trace with one layer, in the statistics and as the simulation has them.
abbrev pub touch_all : List ℕ → Mrc → Mrc
touch_all [] m = m
touch_all (e ∷ es) m = touch_all es (mrc_touch 0 e m)

abbrev pub on_one_layer : List ℕ → List (ℕ × ℕ)
on_one_layer [] = []
on_one_layer (e ∷ es) = (0, e) ∷ on_one_layer es

abbrev pub AllExperts : ℕ → List ℕ → Type 0
AllExperts n [] = Unit {0}
AllExperts n (e ∷ es) = (e < n) × AllExperts n es

-- Nothing was accessed, in statistics of `n` experts.
abbrev pub Untouched : ℕ → Mrc → Type 0
Untouched n m =
    (m.on ≡ true)
    × (0 < m.n_layer)
    × (m.n_expert ≡ n)
    × (m.clock 0 ≡ 0)
    × ((x : ℕ) → m.last 0 x ≡ 0)
    × ((r : ℕ) → m.hist r ≡ 0)

abbrev Sync : ℕ → ℕ → Lru → Mrc → Type 0
Sync n c s m =
    (m.on ≡ true)
    × (0 < m.n_layer)
    × (m.n_expert ≡ n)
    × (m.clock 0 ≡ s.clock)
    × Tracks n c s.clock (m.last 0) (s.last 0) (s.resident 0)
    × Counts c s m.hist

module _ {n c : ℕ} (some_room : 0 < c) (slots_fit : c < 2 ^ 32) where
  -- One access keeps the simulation and the statistics together.
  Sync-access :
      (e : ℕ) (s : Lru) (m : Mrc)
      → e < n
      → s.clock + 2 < 2 ^ 64
      → Sync n c s m
      → Sync n c (lru_access n c 0 e s) (mrc_touch 0 e m)
        × ((lru_access n c 0 e s).clock ≡ s.clock + 1)
  Sync-access e s m inside early (on, layers, same_n, clock, v, k) =
      let (t_on, t_layers, t_n, t_last, t_clock, t_hist) =
        mrc_touch-Touched m e on layers (omega (arith, inside, same_n)) in
      let (tracks, tick, hit) =
        lru_access-Accessed n c e s (m.last 0) inside some_room slots_fit early v in
      let now : inc64 (m.clock 0) ≡ s.clock + 1 = omega (arith, clock, early) in
      let counts = Counts-access e inside early v k (lru_access n c 0 e s) tick hit in
      let after = lru_access n c 0 e s in
      let last_is = sym (t_last ∙ ap (update (m.last 0) e) now) in
      let hist_is =
        ap
          (λ (x : ℕ).
            if m.last 0 e == 0
            then m.hist
            else update m.hist (dist x (m.last 0) e) (inc64 (m.hist (dist x (m.last 0) e))))
          (sym same_n)
        ∙ sym t_hist in
      (
        (
          t_on ∙ on,
          omega (arith, t_layers, layers),
          t_n ∙ same_n,
          t_clock ∙ now ∙ sym tick,
          subst
              (λ (k : ℕ). Tracks n c k ((mrc_touch 0 e m).last 0) (after.last 0) (after.resident 0))
              (sym tick)
              (subst (λ (f : ℕ → ℕ). Tracks n c (s.clock + 1) f (after.last 0) (after.resident 0))
                last_is tracks),
          subst (Counts c after) hist_is counts,
        ),
        tick,
      )

  Sync-all :
      (es : List ℕ) (s : Lru) (m : Mrc)
      → AllExperts n es
      → s.clock + length es + 2 < 2 ^ 64
      → Sync n c s m
      → Sync n c (sim_lru n c (on_one_layer es) s) (touch_all es m)
        × ((sim_lru n c (on_one_layer es) s).clock + 2 < 2 ^ 64)
  unfolding sim_lru
  Sync-all [] s m w early h = (h, omega (arith, early))
  Sync-all (e ∷ es) s m (inside, w) early h =
      let (next, tick) = Sync-access e s m inside (omega (arith, early)) h in
      Sync-all es (lru_access n c 0 e s) (mrc_touch 0 e m) w (omega (arith, early, tick)) next

accumulated-sum_below :
    (c : ℕ) (hist : ℕ → ℕ) → sum_below c hist < 2 ^ 64 → accumulated c hist ≡ sum_below c hist
unfolding accumulated sum_below
accumulated-sum_below zero hist low = refl
accumulated-sum_below (suc c) hist low =
    omega (arith, accumulated-sum_below c hist (omega (arith, low)), low)

start-Sync : (n c : ℕ) (m : Mrc) → Untouched n m → Sync n c no_access m
start-Sync n c m (on, layers, same_n, clock, last, hist) = (
  on,
  layers,
  same_n,
  clock,
  record {
    distinct = λ x y p q same used. absurd (used (last x));
    before = λ x. omega (arith, last x);
    known = λ x p used near. absurd (used (last x));
    gone = λ x p far. refl;
    never = λ x p z. refl;
    counted = sym (sum_below-zero n (λ x. present 0) (λ x. refl));
    room = omega arith;
  },
  record {
    hits = sym (sum_below-zero c m.hist hist);
    few = λ r. omega (arith, hist r);
    few_hits = omega arith;
  },
)

-- A trace with one layer and fewer than 2^64 - 2 accesses, all of experts in range, and between one and
-- 2^32 - 1 slots: the hits of the simulation with least-recently-used eviction are what the report
-- accumulates of the reuse distances below the number of slots, counted over the same trace by
-- statistics that were not touched before.
pub sim_lru-accumulated :
    (n c : ℕ) (m : Mrc) (es : List ℕ)
    → Untouched n m
    → AllExperts n es
    → 0 < c
    → c < 2 ^ 32
    → length es + 2 < 2 ^ 64
    → (sim_lru n c (on_one_layer es) no_access).hit ≡ accumulated c (touch_all es m).hist
sim_lru-accumulated n c m es start w some_room slots_fit short =
    let ((a, b, d, f, v, k), late) =
      Sync-all some_room slots_fit es no_access m w (omega (arith, short))
        (start-Sync n c m start) in
    k.hits
    ∙ sym (accumulated-sum_below c (touch_all es m).hist (omega (arith, k.hits, k.few_hits, late)))
