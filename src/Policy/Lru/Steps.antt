-- ===== src/Policy/Lru/Steps.antt =====
-- A use of an expert that is there, of one for which there is room, and of one that takes the place of
-- the expert that was used least recently.
use native.Mathlib.Decide.{ℕ_discrete, dec_lt}
use moestream.Prelude.{
  ℕ, ◌+◌, ◌≤◌, ◌<◌, ◌≡◌, ◌≢◌, refl, ◌∙◌, update, update_at, update_ne, sum_below-update, arith,
}
use moestream.Policy.Lru.Distances.{newer, reuse_distance-sum_below, sum_below-lt, dist, dist-lt}
use moestream.Policy.Lru.Laws.{present, Tracks, there, Tracks-update}

module _ {n c clock : ℕ} {last row : ℕ → ℕ} {resident : ℕ} (v : Tracks n c clock last row resident)
    (e : ℕ) (inside : e < n) (some_room : 0 < c) where
  -- One that was not used after `e` was used before it, or is `e`.
  pub not_newer :
      (x : ℕ) → x < n → x ≢ e → last x ≢ 0 → newer (last x) (last e) ≡ 0 → last e < last x
  not_newer x p other used old = elim (ℕ_discrete (last x) (last e)) [
    | yes q ↦ absurd (other (v.distinct x e p inside q used))
    | no q ↦ ground (arith, old, q)
  ]

  pub keeps_near :
      (x : ℕ)
      → x < n
      → last x ≢ 0
      → dist n last x + 1 < c + newer (last x) (last e)
      → row x ≡ last x
  keeps_near x p used near =
      let small : newer (last x) (last e) ≤ 1 = ground arith in
      v.known x p used (omega (arith, near, small))

  pub drops_far :
      (x : ℕ)
      → x < n
      → c + newer (last x) (last e) ≤ dist n last x + 1
      → (newer (last x) (last e) ≡ 0 → dist n last x < c → dist n last x + 1 < c)
      → row x ≡ 0
  drops_far x p far less = elim (dec_lt (dist n last x) c) [
    | yes near ↦
        let old : newer (last x) (last e) ≡ 0 = omega (arith, far, near) in
        absurd (omega (arith, far, less old near))
    | no far ↦ v.gone x p (omega (arith, far))
  ]

  -- A hit.
  pub Tracks-hit :
      row e ≢ 0
      → Tracks n c (clock + 1) (update last e (clock + 1)) (update row e (clock + 1)) resident
  Tracks-hit here =
      let (used_e, near_e, at_e) = there v e inside here in
      Tracks-update v e (update row e (clock + 1)) resident inside some_room
        (update_at row e e (clock + 1) refl)
        (λ x p other used near. update_ne row e x (clock + 1) other ∙ keeps_near x p used near)
        (λ x p other used far.
          update_ne row e x (clock + 1) other
          ∙ drops_far x p far (λ old near.
            omega (arith, near_e, dist-lt n last e x p (not_newer x p other used old))))
        (λ x p other z. update_ne row e x (clock + 1) other ∙ v.never x p z)
        (let step = sum_below-update n present row e (clock + 1) inside in
          let one : present (row e) ≡ 1 = ground (arith, here) in
          let now_one : present (clock + 1) ≡ 1 = ground arith in
          omega (arith, step, one, now_one, v.counted))
        v.room

  -- A miss, with room.
  pub Tracks-room :
      row e ≡ 0
      → resident < c
      → Tracks n c (clock + 1) (update last e (clock + 1)) (update row e (clock + 1)) (resident + 1)
  Tracks-room gone_e free =
      Tracks-update v e (update row e (clock + 1)) (resident + 1) inside some_room
        (update_at row e e (clock + 1) refl)
        (λ x p other used near. update_ne row e x (clock + 1) other ∙ keeps_near x p used near)
        (λ x p other used far.
          update_ne row e x (clock + 1) other
          ∙ drops_far x p far (λ old near. omega (arith, free, crowd x p used near)))
        (λ x p other z. update_ne row e x (clock + 1) other ∙ v.never x p z)
        (let step = sum_below-update n present row e (clock + 1) inside in
          let none_e : present (row e) ≡ 0 = ground (arith, gone_e) in
          let now_one : present (clock + 1) ≡ 1 = ground arith in
          omega (arith, step, none_e, now_one, v.counted))
        (omega (arith, free))
    where
      counts :
          (x : ℕ)
          → x < n
          → last x ≢ 0
          → dist n last x < c
          → (i : ℕ) → i < n
          → newer (last x) (last i) ≤ present (row i)
      counts x p used near i q = elim (dec_lt (last x) (last i)) [
        | yes later ↦
            let smaller = dist-lt n last x i q later in
            let at_i =
              v.known i q (λ z. absurd (omega (arith, z, later))) (omega (arith, smaller, near)) in
            ground (arith, at_i, later)
        | no old ↦ ground (arith, old)
      ]

      crowd : (x : ℕ) → x < n → last x ≢ 0 → dist n last x < c → dist n last x < resident
      crowd x p used near =
          let here : newer (last x) (last x) < present (row x) =
            ground (arith, v.known x p used near, used) in
          omega (
            arith,
            v.counted,
            reuse_distance-sum_below n last (last x),
            sum_below-lt n (λ i. newer (last x) (last i)) (λ i. present (row i)) x p
                (counts x p used near) here,
          )
