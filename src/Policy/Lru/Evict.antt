-- ===== src/Policy/Lru/Evict.antt =====
-- The expert that is evicted is the one with the greatest distance.
use native.Mathlib.Decide.{ℕ_discrete, dec_lt}
use moestream.Prelude.{
  ℕ, zero, suc, ◌+◌, ◌≤◌, ◌<◌, ◌≡◌, ◌≢◌, ◌⊎◌, refl, sym, ap, ◌∙◌, subst, inl, inr, Bool, true,
  false, not, ◌&&◌, ltb, ◌==◌, if◌then◌else◌, update, update_at, update_ne, sum_below-update, arith,
}
use moestream.Policy.Lru.{oldest}
use moestream.Policy.Lru.Distances.{newer, reuse_distance-sum_below, sum_below-le, dist, dist-lt}
use moestream.Policy.Lru.Laws.{present, Tracks, there, Tracks-update}
use moestream.Policy.Lru.Steps.{keeps_near, drops_far}

-- The expert that was used least recently of those that are there.
abbrev pub Oldest : (ℕ → ℕ) → ℕ → ℕ → Type 0
Oldest row n w = (w < n) × (row w ≢ 0) × ((x : ℕ) → x < n → row x ≢ 0 → row w ≤ row x)

-- The loop has seen the experts below `x`.
abbrev Best : (ℕ → ℕ) → ℕ → ℕ → ℕ → ℕ → Type 0
Best row most x w best =
    ((best ≡ most) ⊎ ((w < x) × (row w ≡ best) × (best ≢ 0)))
    × ((i : ℕ) → i < x → row i ≢ 0 → best ≤ row i)

Best-next :
    (row : ℕ → ℕ) (most x w best : ℕ) (b : Bool)
    → (not (row x == 0) && ltb (row x) best) ≡ b
    → Best row most x w best
    → Best row most (x + 1) (if b then x else w) (if b then row x else best)
Best-next row most x w best true q (from, least) = (
  inr (omega arith, refl, λ z. absurd (ground (arith, q, z))),
  λ i p here. elim (ℕ_discrete i x) [
    | yes a ↦ omega (arith, ap row a)
    | no a ↦
        let smaller : row x < best = ground (arith, q) in
        omega (arith, smaller, least i (omega arith) here)
  ],
)
Best-next row most x w best false q (from, least) = (
  further from,
  λ i p here. elim (ℕ_discrete i x) [
    | yes a ↦
        let some_x : row x ≢ 0 = λ z. here (ap row a ∙ z) in
        let above : best ≤ row x = ground (arith, q, some_x) in omega (arith, ap row a, above)
    | no a ↦ least i (omega arith) here
  ],
)
  where
    further :
        (best ≡ most) ⊎ ((w < x) × (row w ≡ best) × (best ≢ 0))
        → (best ≡ most) ⊎ ((w < x + 1) × (row w ≡ best) × (best ≢ 0))
    further (inl z) = inl z
    further (inr (a, at_w, some_b)) = inr (omega (arith, a), at_w, some_b)

oldest-Best :
    (row : ℕ → ℕ) (most k x w best : ℕ)
    → Best row most x w best
    → (b : ℕ) × Best row most (x + k) (oldest row k x w best) b
unfolding oldest
oldest-Best row most zero x w best h =
    (best, subst (λ (y : ℕ). Best row most y w best) (omega arith) h)
oldest-Best row most (suc k) x w best h =
    let older = not (row x == 0) && ltb (row x) best in
    let (b, rest) =
      oldest-Best row most k (x + 1) (if older then x else w) (if older then row x else best)
        (Best-next row most x w best older refl h) in
    (b, subst (λ (y : ℕ). Best row most y (oldest row (suc k) x w best) b) (omega arith) rest)

pub oldest-Oldest :
    (row : ℕ → ℕ) (n most y : ℕ)
    → y < n
    → row y ≢ 0
    → row y < most
    → Oldest row n (oldest row n 0 0 most)
oldest-Oldest row n most y inside some_y low =
    let (b, (from, least)) =
      oldest-Best row most n 0 0 most (inl refl, λ i p here. absurd (omega (arith, p))) in
    found b from least
  where
    w : ℕ
    w = oldest row n 0 0 most

    found :
        (b : ℕ)
        → (b ≡ most) ⊎ ((w < 0 + n) × (row w ≡ b) × (b ≢ 0))
        → ((i : ℕ) → i < 0 + n → row i ≢ 0 → b ≤ row i)
        → Oldest row n w
    found b (inl q) least = absurd (omega (arith, q, low, least y (omega (arith, inside)) some_y))
    found b (inr (a, at_w, some_b)) least = (
      omega (arith, a),
      (λ z. some_b (sym at_w ∙ z)),
      λ x p here. omega (arith, at_w, least x (omega (arith, p)) here),
    )

module _ {n c clock : ℕ} {last row : ℕ → ℕ} {resident : ℕ} (v : Tracks n c clock last row resident)
    (e w : ℕ) (inside : e < n) (some_room : 0 < c) (full : resident ≡ c) (gone_e : row e ≡ 0)
    (victim : Oldest row n w) where
  w-other : w ≢ e
  w-other q = victim.1 (ap row q ∙ gone_e)

  -- All that are there but the victim were used after it.
  counts : (i : ℕ) → i < n → present (update row w 0 i) ≤ newer (last w) (last i)
  counts i q = elim (ℕ_discrete i w) [
    | yes a ↦ ground (arith, update_at row w i 0 a)
    | no a ↦ elim (ℕ_discrete (row i) 0) [
      | yes z ↦ ground (arith, update_ne row w i 0 a, z)
      | no here ↦
          let at_i = there v i q here in
          let at_w = there v w victim.0 victim.1 in
          let least = victim.2 i q here in
          elim (ℕ_discrete (last i) (last w)) [
            | yes same ↦ absurd (a (v.distinct i w q victim.0 same at_i.0))
            | no differ ↦
                let later : last w < last i = omega (arith, least, at_i.2, at_w.2, differ) in
                ground (arith, update_ne row w i 0 a, later)
          ]
    ]
  ]

  -- It is the last that fits.
  last_place : c ≤ dist n last w + 1
  last_place =
      let step = sum_below-update n present row w 0 victim.0 in
      let one : present (row w) ≡ 1 = ground (arith, victim.1) in
      omega (
        arith,
        full,
        v.counted,
        step,
        one,
        reuse_distance-sum_below n last (last w),
        sum_below-le n (λ i. present (update row w 0 i)) (λ i. newer (last w) (last i)) counts,
      )

  -- The victim was used after `e`.
  old_e : newer (last w) (last e) ≡ 0
  old_e =
      let at_w = there v w victim.0 victim.1 in
      elim (dec_lt (last w) (last e)) [
        | yes later ↦ absurd (
            omega (
              arith,
              v.known e inside (λ z. absurd (omega (arith, z, later)))
                  (omega (arith, at_w.1, dist-lt n last w e inside later)),
              gone_e,
              later,
            ))
        | no old ↦ ground (arith, old)
      ]

  others_before : (x : ℕ) → x < n → x ≢ w → last x ≢ 0 → dist n last x < c → dist n last x + 1 < c
  others_before x p other used near =
      let at_x = v.known x p used near in
      let at_w = there v w victim.0 victim.1 in
      let least = victim.2 x p (λ z. used (sym at_x ∙ z)) in
      elim (ℕ_discrete (last x) (last w)) [
        | yes same ↦ absurd (other (v.distinct x w p victim.0 same used))
        | no differ ↦
            omega (arith, at_w.1, dist-lt n last w x p (omega (arith, least, at_x, at_w.2, differ)))
      ]

  -- A miss that takes the victim's place.
  pub Tracks-evict :
      Tracks n c (clock + 1) (update last e (clock + 1)) (update (update row w 0) e (clock + 1)) c
  Tracks-evict =
      Tracks-update v e (update (update row w 0) e (clock + 1)) c inside some_room
        (update_at (update row w 0) e e (clock + 1) refl)
        (λ x p other used near.
          update_ne (update row w 0) e x (clock + 1) other ∙ elim (ℕ_discrete x w) [
            | yes a ↦ absurd (
                omega (
                  arith,
                  near,
                  last_place,
                  old_e,
                  ap (dist n last) a,
                  ap (λ (y : ℕ). newer (last y) (last e)) a,
                ))
            | no a ↦ update_ne row w x 0 a ∙ keeps_near v e inside some_room x p used near
          ])
        (λ x p other used far.
          update_ne (update row w 0) e x (clock + 1) other ∙ elim (ℕ_discrete x w) [
            | yes a ↦ update_at row w x 0 a
            | no a ↦
                update_ne row w x 0 a
                ∙ drops_far v e inside some_room x p far (λ old near. others_before x p a used near)
          ])
        (λ x p other z. update_ne (update row w 0) e x (clock + 1) other ∙ elim (ℕ_discrete x w) [
          | yes a ↦ update_at row w x 0 a
          | no a ↦ update_ne row w x 0 a ∙ v.never x p z
        ])
        (let step = sum_below-update n present row w 0 victim.0 in
          let next = sum_below-update n present (update row w 0) e (clock + 1) inside in
          let one : present (row w) ≡ 1 = ground (arith, victim.1) in
          let none_e : present (update row w 0 e) ≡ 0 = ground (arith, gone_e) in
          let now_one : present (clock + 1) ≡ 1 = ground arith in
          omega (arith, step, next, one, none_e, now_one, v.counted, full))
        (omega arith)
