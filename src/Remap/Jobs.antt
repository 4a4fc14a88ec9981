-- ===== src/Remap/Jobs.antt =====
-- src/llama-moestream.cpp, `ms_remap_fn`: the reads of one batch and the copies from the staging
-- buffer. A read puts the weights of a member of an expert at its destination; the reads are taken
-- in the order of the jobs. `memory role slot` is the content of a slot.
pub mod Laws
use moestream.Prelude.{
  ℕ, ◌+◌, Bool, true, false, ◌&&◌, List, [], ◌∷◌, ◌++◌, update, ◌==◌, if◌then◌else◌,
}

pub record ReadJob : Type 0 where
  pub role : ℕ
  pub expert : ℕ
  pub slot : ℕ
  pub direct : Bool
  -- The staging slot, if the read is not direct.
  pub stage : ℕ

pub record Store (W : Type 0) : Type 0 where
  pub memory : ℕ → ℕ → W
  pub staging : ℕ → W

module _ (host : ℕ → ℕ → Bool) where
  abbrev pub next_stage : ℕ → ℕ → ℕ → ℕ
  next_stage role slot si = if host role slot then si else si + 1

  abbrev pub job_of : ℕ → ℕ → ℕ → ℕ → ReadJob
  job_of role e slot si = record {
    role = role;
    expert = e;
    slot = slot;
    direct = host role slot;
    stage = si;
  }

  -- The jobs of a batch, of which `si` staging slots are taken.
  unfoldable pub jobs_of : ℕ → List (ℕ × ℕ) → List ReadJob
  jobs_of si [] = []
  jobs_of si ((e, slot) ∷ pend) =
      let s1 = next_stage 0 slot si in
      let s2 = next_stage 1 slot s1 in
      job_of 0 e slot si
      ∷ job_of 1 e slot s1
      ∷ job_of 2 e slot s2
      ∷ jobs_of (next_stage 2 slot s2) pend

module _ {W : Type 0} where
  abbrev pub set_slot : (ℕ → ℕ → W) → ℕ → ℕ → W → ℕ → ℕ → W
  set_slot memory role slot w = update memory role (update (memory role) slot w)

  -- `ggml_backend_tensor_set` for a job that was staged.
  unfoldable pub upload_one : ReadJob → Store W → Store W
  upload_one j st =
      if j.direct
      then st
      else record st { memory = set_slot st.memory j.role j.slot (st.staging j.stage) }

  unfoldable pub upload : List ReadJob → Store W → Store W
  unfolding upload_one
  upload [] st = st
  upload (j ∷ jobs) st = upload jobs (upload_one j st)

module _ {W : Type 0} (weights : ℕ → ℕ → W) where
  unfoldable pub read_one : ReadJob → Store W → Store W
  read_one j st =
      if j.direct
      then record st { memory = set_slot st.memory j.role j.slot (weights j.role j.expert) }
      else record st { staging = update st.staging j.stage (weights j.role j.expert) }

  unfoldable pub run_reads : List ReadJob → Store W → Store W
  unfolding read_one
  run_reads [] st = st
  run_reads (j ∷ jobs) st = run_reads jobs (read_one j st)

  unfoldable pub read_batch : (ℕ → ℕ → Bool) → List (ℕ × ℕ) → Store W → Store W
  unfolding jobs_of run_reads upload
  read_batch host pend st = let jobs = jobs_of host 0 pend in upload jobs (run_reads jobs st)
