-- ===== src/Remap/Pending.antt =====
-- src/llama-moestream.cpp, `ms_remap_fn`: how the pending reads are cut into batches. `host role
-- slot` says whether the slot of the member (0 gate, 1 up, 2 down) has a host pointer, which the
-- backend decides.
pub mod Laws
use moestream.Prelude.{
  ℕ, zero, suc, ◌+◌, ◌*◌, ◌/◌, Bool, true, false, ◌&&◌, List, [], ◌∷◌, length, ltb, ◌==◌,
  if◌then◌else◌,
}

module _ (host : ℕ → ℕ → Bool) where
  -- How many staging slots an expert needs.
  unfoldable pub stage_need : ℕ → ℕ
  stage_need slot =
      (if host 0 slot then 0 else 1)
      + (if host 1 slot then 0 else 1)
      + (if host 2 slot then 0 else 1)

  unfoldable pub need_stage : List (ℕ × ℕ) → Bool
  unfolding stage_need
  need_stage [] = false
  need_stage ((e, slot) ∷ pend) = if ltb 0 (stage_need slot) then true else need_stage pend

  -- `g_stage.size()` once the buffer is allocated, if it has to be.
  unfoldable pub stage_size : ℕ → ℕ → List (ℕ × ℕ) → ℕ
  unfolding need_stage
  stage_size maxb size pend =
      if size == 0 && ltb 0 maxb && need_stage pend then maxb * 3 * 32 else size

  -- The reads that go into one batch, of which `si` staging slots are taken, and those that do not.
  unfoldable pub fill_batch : ℕ → ℕ → List (ℕ × ℕ) → List (ℕ × ℕ) × List (ℕ × ℕ)
  unfolding stage_need
  fill_batch cap si [] = ([], [])
  fill_batch cap si ((e, slot) ∷ pend) =
      let rest = fill_batch cap (si + stage_need slot) pend in
      if ltb 0 (stage_need slot) && ltb cap (si + stage_need slot)
      then ([], (e, slot) ∷ pend)
      else ((e, slot) ∷ rest.0, rest.1)

  -- The batches, and the reads that are discarded, because the next batch is empty.
  unfoldable pub batches : ℕ → ℕ → List (ℕ × ℕ) → List (List (ℕ × ℕ)) × List (ℕ × ℕ)
  unfolding fill_batch
  batches zero cap pend = ([], pend)
  batches (suc n) cap pend =
      let batch = fill_batch cap 0 pend in
      let rest = batches n cap batch.1 in
      if length batch.0 == 0 then ([], pend) else (batch.0 ∷ rest.0, rest.1)

  unfoldable pub read_pending : ℕ → ℕ → List (ℕ × ℕ) → List (List (ℕ × ℕ)) × List (ℕ × ℕ)
  unfolding stage_size batches
  read_pending maxb size pend =
      let now = stage_size maxb size pend in
      batches (length pend) (if maxb == 0 then 0 else now / maxb) pend
