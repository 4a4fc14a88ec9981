-- ===== src/Policy/Lru/Curve.antt =====
-- One access of the simulation, and one of the statistics.
use moestream.Prelude.{
  ℕ, ◌+◌, ◌-◌, ◌^◌, ◌<◌, ◌≡◌, ◌≢◌, refl, sym, ap, subst, Bool, true, false, not, ◌&&◌, ltb, leb,
  ◌==◌, if◌then◌else◌, if_intro, update, inc64, arith,
}
use native.Mathlib.Decide.{ℕ_discrete}
use moestream.Remap.Mrc.{Mrc, count_distance, note_distance, mrc_touch}
use moestream.Remap.Mrc.Laws.{reuse_distance-lt}
use moestream.Policy.Lru.{Lru, make_room, lru_hit, seat, lru_access}
use moestream.Policy.Lru.Distances.{dist, sum_below_some}
use moestream.Policy.Lru.Laws.{present, Tracks, there}
use moestream.Policy.Lru.Steps.{Tracks-hit, Tracks-room}
use moestream.Policy.Lru.Evict.{oldest-Oldest, Tracks-evict}

-- The histogram after an access of expert `e`.
abbrev pub counted_hist : Mrc → ℕ → ℕ → ℕ
counted_hist m e =
    if m.last 0 e == 0
    then m.hist
    else update m.hist (dist m.n_expert (m.last 0) e)
        (inc64 (m.hist (dist m.n_expert (m.last 0) e)))

-- What an access of layer 0 does to the statistics.
abbrev pub Touched : Mrc → ℕ → Mrc → Type 0
Touched m e t =
    (t.on ≡ m.on)
    × (t.n_layer ≡ m.n_layer)
    × (t.n_expert ≡ m.n_expert)
    × (t.last 0 ≡ update (m.last 0) e (inc64 (m.clock 0)))
    × (t.clock 0 ≡ inc64 (m.clock 0))
    × (t.hist ≡ counted_hist m e)

abbrev Noted : Mrc → Bool → ℕ → Mrc → Type 0
Noted m b d t =
    (t.on ≡ m.on)
    × (t.n_layer ≡ m.n_layer)
    × (t.n_expert ≡ m.n_expert)
    × (t.last ≡ m.last)
    × (t.hist ≡ (if b then m.hist else update m.hist d (inc64 (m.hist d))))

Noted-cases :
    (m : Mrc) (b : Bool) (d : ℕ)
    → d < m.n_expert
    → Noted m b d (if b then record m { cold = inc64 m.cold } else count_distance 0 d m)
unfolding count_distance
Noted-cases m true d inside = (refl, refl, refl, refl, refl)
Noted-cases m false d inside =
    if_intro (Noted m false d) (ltb d m.n_expert) _ _ (λ b. (refl, refl, refl, refl, refl))
      (λ b. absurd (ground (arith, inside, b)))

note_distance-Noted :
    (m : Mrc) (e : ℕ)
    → e < m.n_expert
    → Noted m (m.last 0 e == 0) (dist m.n_expert (m.last 0) e) (note_distance 0 e (m.last 0 e) m)
unfolding note_distance
note_distance-Noted m e inside =
    Noted-cases m (m.last 0 e == 0) (dist m.n_expert (m.last 0) e)
      (reuse_distance-lt m.n_expert (m.last 0) e inside)

pub mrc_touch-Touched :
    (m : Mrc) (e : ℕ) → m.on ≡ true → 0 < m.n_layer → e < m.n_expert → Touched m e (mrc_touch 0 e m)
unfolding mrc_touch
mrc_touch-Touched m e on layers inside =
    if_intro (Touched m e) (m.on && ltb 0 m.n_layer && ltb e m.n_expert) _ _
      (λ b.
        let (same_on, same_layers, same_experts, same_last, hist) =
          note_distance-Noted
            (record m { total = inc64 m.total; tot_l = update m.tot_l 0 (inc64 (m.tot_l 0)) }) e
            inside in
        (
          same_on,
          same_layers,
          same_experts,
          ap (λ (f : ℕ → ℕ → ℕ). update (f 0) e (inc64 (m.clock 0))) same_last,
          refl,
          hist,
        ))
      (λ b. absurd (ground (arith, on, layers, inside, b)))

module _ (n c e : ℕ) (s : Lru) (inside : e < n) where
  abbrev now : Lru
  now = record s { clock = inc64 s.clock }

  abbrev missed : Lru
  missed = record s { clock = inc64 s.clock; miss = inc64 s.miss }

  access-hit : s.last 0 e ≢ 0 → lru_access n c 0 e s ≡ lru_hit 0 e now
  unfolding lru_access
  access-hit here =
      if_intro (λ (t : Lru). t ≡ lru_hit 0 e now) (leb n e) _ _
        (λ b. absurd (ground (arith, inside, b)))
        (λ b.
          if_intro (λ (t : Lru). t ≡ lru_hit 0 e now) (not (s.last 0 e == 0)) _ _ (λ d. refl)
            (λ d. absurd (ground (arith, here, d))))

  access-miss : s.last 0 e ≡ 0 → lru_access n c 0 e s ≡ seat 0 e (make_room n c 0 missed)
  unfolding lru_access
  access-miss gone =
      if_intro (λ (t : Lru). t ≡ seat 0 e (make_room n c 0 missed)) (leb n e) _ _
        (λ b. absurd (ground (arith, inside, b)))
        (λ b.
          if_intro (λ (t : Lru). t ≡ seat 0 e (make_room n c 0 missed)) (not (s.last 0 e == 0)) _ _
            (λ d. absurd (ground (arith, gone, d))) (λ d. refl))

-- The experts of the simulation after an access, and its counters.
abbrev pub Accessed : ℕ → ℕ → ℕ → (ℕ → ℕ) → Lru → Lru → Type 0
Accessed n c e last s t =
    Tracks n c (s.clock + 1) (update last e (s.clock + 1)) (t.last 0) (t.resident 0)
    × (t.clock ≡ s.clock + 1)
    × (t.hit ≡ (if s.last 0 e == 0 then s.hit else inc64 s.hit))

module _ (n c e : ℕ) (s : Lru) (last : ℕ → ℕ) (inside : e < n) (some_room : 0 < c)
    (few : c < 2 ^ 32) (early : s.clock + 2 < 2 ^ 64)
    (v : Tracks n c s.clock last (s.last 0) (s.resident 0)) where
  inc_clock : inc64 s.clock ≡ s.clock + 1
  inc_clock = omega (arith, early)

  hit_if :
      (b : Bool) (x y : ℕ)
      → (s.last 0 e == 0) ≡ b
      → (if b then x else y) ≡ (if s.last 0 e == 0 then x else y)
  hit_if b x y q = ap (λ (d : Bool). if d then x else y) (sym q)

  row_now :
      (row : ℕ → ℕ) (resident r : ℕ)
      → r ≡ resident
      → Tracks n c (s.clock + 1) (update last e (s.clock + 1)) (update row e (s.clock + 1)) resident
      → Tracks n c (s.clock + 1) (update last e (s.clock + 1)) (update row e (inc64 s.clock)) r
  row_now row resident r q h =
      subst (λ (k : ℕ). Tracks n c (s.clock + 1) (update last e (s.clock + 1)) (update row e k) r)
        (sym inc_clock)
        (subst
          (λ (k : ℕ).
            Tracks n c (s.clock + 1) (update last e (s.clock + 1)) (update row e (s.clock + 1)) k)
          (sym q) h)

  hit-Accessed : s.last 0 e ≢ 0 → Accessed n c e last s (lru_hit 0 e (now n c e s inside))
  hit-Accessed here = (
    row_now (s.last 0) (s.resident 0) (s.resident 0) refl (Tracks-hit v e inside some_room here),
    inc_clock,
    hit_if false s.hit (inc64 s.hit) (ground (arith, here)),
  )

  miss-Accessed :
      s.last 0 e ≡ 0 → Accessed n c e last s (seat 0 e (make_room n c 0 (missed n c e s inside)))
  miss-Accessed gone =
      if_intro (λ (t : Lru). Accessed n c e last s (seat 0 e t)) (leb c (s.resident 0)) _ _
        (λ b.
          let full : s.resident 0 ≡ c = ground (arith, b, v.room) in
          let (y, p, some_y) =
            sum_below_some n (λ x. present (s.last 0 x))
              (omega (arith, full, v.counted, some_room)) in
          let at_y : s.last 0 y ≢ 0 = ground (arith, some_y) in
          let low : s.last 0 y < 2 ^ 64 - 1 =
            omega (arith, (there v y p at_y).2, v.before y, early) in
          (
            row_now (update (s.last 0) _ 0) c _ (omega (arith, full, few, some_room)) (
                Tracks-evict v e _ inside some_room full gone
                  (oldest-Oldest (s.last 0) n (2 ^ 64 - 1) y p at_y low)),
            inc_clock,
            hit_if true s.hit (inc64 s.hit) (ground (arith, gone)),
          ))
        (λ b.
          let free : s.resident 0 < c = ground (arith, b) in
          (
            row_now (s.last 0) (s.resident 0 + 1) _ (omega (arith, free, few))
                (Tracks-room v e inside some_room gone free),
            inc_clock,
            hit_if true s.hit (inc64 s.hit) (ground (arith, gone)),
          ))

  pub lru_access-Accessed : Accessed n c e last s (lru_access n c 0 e s)
  lru_access-Accessed = elim (ℕ_discrete (s.last 0 e) 0) [
    | yes gone ↦
        subst (Accessed n c e last s) (sym (access-miss n c e s inside gone)) (miss-Accessed gone)
    | no here ↦
        subst (Accessed n c e last s) (sym (access-hit n c e s inside here)) (hit-Accessed here)
  ]
