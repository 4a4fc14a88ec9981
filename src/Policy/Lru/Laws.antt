-- ===== src/Policy/Lru/Laws.antt =====
-- The experts that are there are those with the smallest distances.
use native.Mathlib.Decide.{ℕ_discrete, dec_lt}
use moestream.Prelude.{
  ℕ, ◌+◌, ◌≤◌, ◌<◌, ◌≡◌, ◌≢◌, sym, ap, ◌∙◌, ◌==◌, if◌then◌else◌, update, update_at, update_ne,
  sum_below, arith,
}
use moestream.Policy.Lru.Distances.{newer, dist, dist-update, dist-newest}

abbrev pub present : ℕ → ℕ
present v = if v == 0 then 0 else 1

-- `last` has the times of the last uses, `row` those of the experts that are there.
pub record Tracks (n c clock : ℕ) (last row : ℕ → ℕ) (resident : ℕ) : Type 0 where
  pub distinct : (x y : ℕ) → x < n → y < n → last x ≡ last y → last x ≢ 0 → x ≡ y
  pub before : (x : ℕ) → last x ≤ clock
  pub known : (x : ℕ) → x < n → last x ≢ 0 → dist n last x < c → row x ≡ last x
  pub gone : (x : ℕ) → x < n → c ≤ dist n last x → row x ≡ 0
  pub never : (x : ℕ) → x < n → last x ≡ 0 → row x ≡ 0
  pub counted : resident ≡ sum_below n (λ x. present (row x))
  pub room : resident ≤ c

module _ {n c clock : ℕ} {last row : ℕ → ℕ} {resident : ℕ}
    (v : Tracks n c clock last row resident) where
  -- An expert that is there.
  pub there : (x : ℕ) → x < n → row x ≢ 0 → (last x ≢ 0) × (dist n last x < c) × (row x ≡ last x)
  there x inside some_time =
      let used : last x ≢ 0 = λ q. some_time (v.never x inside q) in
      elim (dec_lt (dist n last x) c) [
        | yes near ↦ (used, near, v.known x inside used near)
        | no far ↦ absurd (some_time (v.gone x inside (omega (arith, far))))
      ]

  distinct-update :
      (e : ℕ) (x y : ℕ)
      → x < n
      → y < n
      → update last e (clock + 1) x ≡ update last e (clock + 1) y
      → update last e (clock + 1) x ≢ 0
      → x ≡ y
  distinct-update e x y p q same some_time = elim (ℕ_discrete x e) [
    | yes a ↦ elim (ℕ_discrete y e) [
      | yes b ↦ a ∙ sym b
      | no b ↦ absurd (
          omega (
            arith,
            same,
            update_at last e x (clock + 1) a,
            update_ne last e y (clock + 1) b,
            v.before y,
          ))
    ]
    | no a ↦ elim (ℕ_discrete y e) [
      | yes b ↦ absurd (
          omega (
            arith,
            same,
            update_ne last e x (clock + 1) a,
            update_at last e y (clock + 1) b,
            v.before x,
          ))
      | no b ↦
          let at_x = update_ne last e x (clock + 1) a in
          v.distinct x y p q (sym at_x ∙ same ∙ update_ne last e y (clock + 1) b)
            (λ z. some_time (at_x ∙ z))
    ]
  ]

  before-update : (e x : ℕ) → update last e (clock + 1) x ≤ clock + 1
  before-update e x = elim (ℕ_discrete x e) [
    | yes a ↦ omega (arith, update_at last e x (clock + 1) a)
    | no a ↦ omega (arith, update_ne last e x (clock + 1) a, v.before x)
  ]

  -- What is left to show of a use of expert `e`, of the experts that are there afterwards.
  pub Tracks-update :
      (e : ℕ) (row' : ℕ → ℕ) (resident' : ℕ)
      → e < n
      → 0 < c
      → row' e ≡ clock + 1
      → ((x : ℕ)
          → x < n
          → x ≢ e
          → last x ≢ 0
          → dist n last x + 1 < c + newer (last x) (last e)
          → row' x ≡ last x)
      → ((x : ℕ)
          → x < n
          → x ≢ e
          → last x ≢ 0
          → c + newer (last x) (last e) ≤ dist n last x + 1
          → row' x ≡ 0)
      → ((x : ℕ) → x < n → x ≢ e → last x ≡ 0 → row' x ≡ 0)
      → resident' ≡ sum_below n (λ x. present (row' x))
      → resident' ≤ c
      → Tracks n c (clock + 1) (update last e (clock + 1)) row' resident'
  Tracks-update e row' resident' inside some_room at_e keeps drops blank counted room = record {
    distinct = distinct-update e;
    before = before-update e;
    known = known_after;
    gone = gone_after;
    never = never_after;
    counted = counted;
    room = room;
  }
    where
      later : ℕ
      later = clock + 1

      last' : ℕ → ℕ
      last' = update last e later

      moved : (x : ℕ) → x ≢ e → dist n last' x + newer (last x) (last e) ≡ dist n last x + 1
      moved x other = dist-update n last e x later inside other (λ i. omega (arith, v.before i))

      known_after : (x : ℕ) → x < n → last' x ≢ 0 → dist n last' x < c → row' x ≡ last' x
      known_after x p used near = elim (ℕ_discrete x e) [
        | yes a ↦ ap row' a ∙ at_e ∙ sym (update_at last e x later a)
        | no a ↦
            let at_x = update_ne last e x later a in
            keeps x p a (λ z. used (at_x ∙ z)) (omega (arith, moved x a, near)) ∙ sym at_x
      ]

      gone_after : (x : ℕ) → x < n → c ≤ dist n last' x → row' x ≡ 0
      gone_after x p far = elim (ℕ_discrete x e) [
        | yes a ↦ absurd (
            omega (
              arith,
              far,
              some_room,
              ap (dist n last') a,
              dist-newest n last e later (λ i. omega (arith, v.before i)),
            ))
        | no a ↦ elim (ℕ_discrete (last x) 0) [
          | yes z ↦ blank x p a z
          | no u ↦ drops x p a u (omega (arith, moved x a, far))
        ]
      ]

      never_after : (x : ℕ) → x < n → last' x ≡ 0 → row' x ≡ 0
      never_after x p z = elim (ℕ_discrete x e) [
        | yes a ↦ absurd (omega (arith, z, update_at last e x later a))
        | no a ↦ blank x p a (sym (update_ne last e x later a) ∙ z)
      ]
