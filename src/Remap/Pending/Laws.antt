-- ===== src/Remap/Pending/Laws.antt =====
-- No pending read is discarded, and no batch needs more staging slots than there are.
use moestream.Prelude.{
  ℕ, zero, suc, ◌+◌, ◌*◌, ◌/◌, ◌≤◌, ◌<◌, ◌≡◌, ◌⊎◌, inl, inr, refl, ap, ◌∙◌, Bool, true, false,
  if_intro, ◌&&◌, List, [], ◌∷◌, ◌++◌, length, length-append, ltb, ◌==◌, if◌then◌else◌, Bool-cases,
  arith,
}
use native.Mathlib.Nat.{mul-div_cancel_left}
use moestream.Remap.Pending.{stage_need, need_stage, stage_size, fill_batch, batches, read_pending}

abbrev pub concat : List (List (ℕ × ℕ)) → List (ℕ × ℕ)
concat [] = []
concat (xs ∷ xss) = xs ++ concat xss

module _ (host : ℕ → ℕ → Bool) where
  abbrev pub needs : List (ℕ × ℕ) → ℕ
  needs [] = 0
  needs ((e, slot) ∷ pend) = stage_need host slot + needs pend

  -- Every batch fits the staging slots.
  abbrev pub AllFit : ℕ → List (List (ℕ × ℕ)) → Type 0
  AllFit cap [] = Unit {0}
  AllFit cap (xs ∷ xss) = (needs xs ≤ cap) × AllFit cap xss

  -- Every read alone fits the staging slots.
  abbrev Readable : ℕ → List (ℕ × ℕ) → Type 0
  Readable cap [] = Unit {0}
  Readable cap ((e, slot) ∷ pend) = (stage_need host slot ≤ cap) × Readable cap pend

  record Filled (cap si : ℕ) (pend : List (ℕ × ℕ)) (x : List (ℕ × ℕ) × List (ℕ × ℕ)) : Type 0 where
    all : x.0 ++ x.1 ≡ pend
    fits : si ≤ cap → si + needs x.0 ≤ cap
    rest : Readable cap pend → Readable cap x.1

  fill_batch-Filled :
      (cap si : ℕ) (pend : List (ℕ × ℕ)) → Filled cap si pend (fill_batch host cap si pend)
  unfolding fill_batch
  fill_batch-Filled cap si [] = record { all = refl; fits = λ h. omega arith; rest = λ r. r }
  fill_batch-Filled cap si ((e, slot) ∷ pend) =
      let later = fill_batch-Filled cap (si + stage_need host slot) pend in
      if_intro (Filled cap si ((e, slot) ∷ pend))
        (ltb 0 (stage_need host slot) && ltb cap (si + stage_need host slot)) _ _
        (λ b. record { all = refl; fits = λ h. omega arith; rest = λ r. r })
        (λ b. record {
          all = ap (λ (xs : List (ℕ × ℕ)). (e, slot) ∷ xs) later.all;
          fits = λ h. omega (arith, later.fits (ground arith));
          rest = λ r. later.rest r.1;
        })

  -- A batch takes the first read.
  fill_batch-takes :
      (cap e slot : ℕ) (pend : List (ℕ × ℕ))
      → stage_need host slot ≤ cap
      → 0 < length (fill_batch host cap 0 ((e, slot) ∷ pend)).0
  unfolding fill_batch
  fill_batch-takes cap e slot pend h = ground arith

  record Complete (cap : ℕ) (pend : List (ℕ × ℕ)) (x : List (List (ℕ × ℕ)) × List (ℕ × ℕ))
      : Type 0 where
    all : concat x.0 ≡ pend
    none_left : x.1 ≡ []
    fit : AllFit cap x.0

  batches-Complete :
      (n cap : ℕ) (pend : List (ℕ × ℕ))
      → length pend ≤ n
      → Readable cap pend
      → Complete cap pend (batches host n cap pend)
  unfolding batches fill_batch
  batches-Complete zero cap [] h r = record { all = refl; none_left = refl; fit = tt }
  batches-Complete zero cap (p ∷ pend) h r = absurd (omega arith)
  batches-Complete (suc n) cap [] h r = record { all = refl; none_left = refl; fit = tt }
  batches-Complete (suc n) cap ((e, slot) ∷ pend) h r =
      let whole = (e, slot) ∷ pend in
      let batch = fill_batch host cap 0 whole in
      let f = fill_batch-Filled cap 0 whole in
      let first = fill_batch-takes cap e slot pend r.0 in
      let fewer : length batch.1 ≤ n =
        omega (arith, ap length f.all, length-append batch.0 batch.1) in
      let later = batches-Complete n cap batch.1 fewer (f.rest r) in
      if_intro (Complete cap whole) (length batch.0 == 0) _ _ (λ b. absurd (ground arith))
        (λ b. record {
          all = ap (λ (xs : List (ℕ × ℕ)). batch.0 ++ xs) later.all ∙ f.all;
          none_left = later.none_left;
          fit = (omega (arith, f.fits (omega arith)), later.fit);
        })

  stage_need-le : (slot : ℕ) → stage_need host slot ≤ 3
  unfolding stage_need
  stage_need-le slot = ground arith

  three-Readable : (cap : ℕ) (pend : List (ℕ × ℕ)) → 3 ≤ cap → Readable cap pend
  three-Readable cap [] h = tt
  three-Readable cap ((e, slot) ∷ pend) h =
      (omega (arith, stage_need-le slot), three-Readable cap pend h)

  direct-Readable :
      (cap : ℕ) (pend : List (ℕ × ℕ)) → need_stage host pend ≡ false → Readable cap pend
  unfolding need_stage
  direct-Readable cap [] h = tt
  direct-Readable cap ((e, slot) ∷ pend) h = (ground arith, direct-Readable cap pend (ground arith))

  staging : (maxb : ℕ) → 0 < maxb → maxb * 3 * 32 / maxb ≡ 96
  staging maxb h = ap (λ (t : ℕ). t / maxb) (omega arith) ∙ mul-div_cancel_left 96 h

  enough :
      (maxb size : ℕ) (pend : List (ℕ × ℕ))
      → 0 < maxb
      → (size ≡ 0) ⊎ (size ≡ maxb * 3 * 32)
      → need_stage host pend ≡ true
      → 3 ≤ stage_size host maxb size pend / maxb
  unfolding stage_size
  enough maxb size pend h s wanted =
      let now : stage_size host maxb size pend ≡ maxb * 3 * 32 = ground (arith, s) in
      omega (arith, ap (λ (t : ℕ). t / maxb) now, staging maxb h)

  -- With a largest expert of at least one byte, and a staging buffer that is not there yet or was
  -- allocated by an earlier call, the batches are together exactly the pending reads, in order;
  -- none is discarded, and no batch needs more staging slots than the buffer has.
  pub read_pending-Complete :
      (maxb size : ℕ) (pend : List (ℕ × ℕ))
      → 0 < maxb
      → (size ≡ 0) ⊎ (size ≡ maxb * 3 * 32)
      → let x = read_pending host maxb size pend in
        (concat x.0 ≡ pend) × (x.1 ≡ []) × AllFit (stage_size host maxb size pend / maxb) x.0
  unfolding read_pending
  read_pending-Complete maxb size pend h s =
      let now = stage_size host maxb size pend in
      let cap : (if maxb == 0 then 0 else now / maxb) ≡ now / maxb = ground arith in
      let r : Readable (now / maxb) pend = elim (Bool-cases (need_stage host pend)) [
        | inl wanted ↦ three-Readable (now / maxb) pend (enough maxb size pend h s wanted)
        | inr direct ↦ direct-Readable (now / maxb) pend direct
      ] in
      let done = batches-Complete (length pend) (now / maxb) pend (omega arith) r in
      rw cap (done.all, done.none_left, done.fit)
