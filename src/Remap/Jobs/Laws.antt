-- ===== src/Remap/Jobs/Laws.antt =====
-- A batch fills the slots of its experts, whatever goes through the staging buffer.
use moestream.Prelude.{
  ℕ, zero, suc, ◌+◌, ◌<◌, ◌≡◌, inl, inr, refl, sym, ap, ◌∙◌, Bool, true, false, ◌&&◌, List, [], ◌∷◌,
  update, update_at, update_ne, ◌==◌, if◌then◌else◌, if_intro, Bool-cases, arith,
}
use native.Mathlib.Decide.{ℕ_discrete}
use moestream.Remap.Ids.Step.{filled}
use moestream.Remap.Jobs.{
  ReadJob, Store, jobs_of, set_slot, read_one, run_reads, upload_one, upload, read_batch,
}

set_slot-get :
    {W : Type 0} (mem : ℕ → ℕ → W) (a b r p : ℕ) (w : W)
    → set_slot mem a b w r p ≡ (if a == r && b == p then w else mem r p)
set_slot-get {W = W} mem a b r p w = elim (ℕ_discrete r a) [
  | yes q ↦
      ap (λ (f : ℕ → W). f p) (update_at mem a r (update (mem a) b w) q) ∙ elim (ℕ_discrete p b) [
        | yes t ↦ update_at (mem a) b p w t ∙ ground arith
        | no t ↦ update_ne (mem a) b p w t ∙ ap (λ (i : ℕ). mem i p) (sym q) ∙ ground arith
      ]
  | no q ↦ ap (λ (f : ℕ → W). f p) (update_ne mem a r (update (mem a) b w) q) ∙ ground arith
]

if_other :
    {W : Type 0} (j : ReadJob) (r p : ℕ) (v w : W)
    → (j.role == r && j.slot == p) ≡ false
    → (if j.role == r && j.slot == p then v else w) ≡ w
if_other j r p v w h = ground arith

both_equal : (a r b p : ℕ) → (a == r && b == p) ≡ true → (a ≡ r) × (b ≡ p)
both_equal a r b p h = (ground arith, ground arith)

module _ (host : ℕ → ℕ → Bool) where
  same_host : (a b r p : ℕ) → (a == r && b == p) ≡ true → host a b ≡ host r p
  same_host a b r p h =
      ap (λ (i : ℕ). host i b) (both_equal a r b p h).0 ∙ ap (host r) (both_equal a r b p h).1

  -- A member with and one without a host pointer are not the same.
  differs :
      (j : ReadJob) (r p : ℕ)
      → host j.role j.slot ≡ false
      → host r p ≡ true
      → (j.role == r && j.slot == p) ≡ false
  differs j r p h k = elim (Bool-cases (j.role == r && j.slot == p)) [
    | inl same ↦ absurd (ground (arith, same_host j.role j.slot r p same))
    | inr other ↦ other
  ]

  unlike :
      (j : ReadJob) (r p : ℕ)
      → host j.role j.slot ≡ true
      → host r p ≡ false
      → (j.role == r && j.slot == p) ≡ false
  unlike j r p h k = elim (Bool-cases (j.role == r && j.slot == p)) [
    | inl same ↦ absurd (ground (arith, same_host j.role j.slot r p same))
    | inr other ↦ other
  ]

  -- The staged jobs have the staging slots from `si` on, in order, and the direct ones are those of
  -- the members with a host pointer.
  abbrev pub Staged : ℕ → List ReadJob → Type 0
  Staged si [] = Unit {0}
  Staged si (j ∷ jobs) =
      (j.direct ≡ host j.role j.slot)
      × (j.stage ≡ si)
      × Staged (if j.direct then si else si + 1) jobs

  jobs_of-Staged : (pend : List (ℕ × ℕ)) (si : ℕ) → Staged si (jobs_of host si pend)
  unfolding jobs_of
  jobs_of-Staged [] si = tt
  jobs_of-Staged ((e, slot) ∷ pend) si =
      (refl, refl, (refl, refl, (refl, refl, jobs_of-Staged pend _)))

  module _ {W : Type 0} (weights : ℕ → ℕ → W) where
    -- Every staged job finds its weights in the staging buffer.
    abbrev Ready : (ℕ → W) → List ReadJob → Type 0
    Ready staging [] = Unit {0}
    Ready staging (j ∷ jobs) =
        (j.direct ≡ false → staging j.stage ≡ weights j.role j.expert) × Ready staging jobs

    run_reads-staging :
        (jobs : List ReadJob) (si k : ℕ) (st : Store W)
        → Staged si jobs
        → k < si
        → (run_reads weights jobs st).staging k ≡ st.staging k
    unfolding run_reads read_one
    run_reads-staging [] si k st s h = refl
    run_reads-staging (j ∷ jobs) si k st (d, e, s) h =
        run_reads-staging jobs _ k (read_one weights j st) s (ground arith)
        ∙ if_intro (λ (x : Store W). x.staging k ≡ st.staging k) j.direct _ _ (λ b. refl)
            (λ b. update_ne st.staging j.stage k _ (λ q. absurd (omega arith)))

    run_reads-Ready :
        (jobs : List ReadJob) (si : ℕ) (st : Store W)
        → Staged si jobs
        → Ready (run_reads weights jobs st).staging jobs
    unfolding run_reads read_one
    run_reads-Ready [] si st s = tt
    run_reads-Ready (j ∷ jobs) si st (d, e, s) = (
      λ t.
          run_reads-staging jobs _ j.stage (read_one weights j st) s (ground arith)
          ∙ if_intro (λ (x : Store W). x.staging j.stage ≡ weights j.role j.expert) j.direct _ _
              (λ b. absurd (ground arith)) (λ b. update_at st.staging j.stage j.stage _ refl),
      run_reads-Ready jobs _ (read_one weights j st) s,
    )

    -- The last job of the list for member `r` in slot `p` wins.
    abbrev pub last_of : ℕ → ℕ → List ReadJob → W → W
    last_of r p [] w = w
    last_of r p (j ∷ jobs) w =
        last_of r p jobs (if j.role == r && j.slot == p then weights j.role j.expert else w)

    pub run_reads-direct :
        (jobs : List ReadJob) (si r p : ℕ) (st : Store W)
        → Staged si jobs
        → host r p ≡ true
        → (run_reads weights jobs st).memory r p ≡ last_of r p jobs (st.memory r p)
    unfolding run_reads read_one
    run_reads-direct [] si r p st s h = refl
    run_reads-direct (j ∷ jobs) si r p st (d, e, s) h =
        run_reads-direct jobs _ r p (read_one weights j st) s h
        ∙ ap (last_of r p jobs) (
            if_intro
              (λ (x : Store W).
                x.memory r p
                ≡ (if j.role == r && j.slot == p then weights j.role j.expert else st.memory r p))
              j.direct _ _ (λ b. set_slot-get st.memory j.role j.slot r p _)
              (λ b. sym (if_other j r p _ _ (differs j r p (sym d ∙ b) h))))

    run_reads-indirect :
        (jobs : List ReadJob) (si r p : ℕ) (st : Store W)
        → Staged si jobs
        → host r p ≡ false
        → (run_reads weights jobs st).memory r p ≡ st.memory r p
    unfolding run_reads read_one
    run_reads-indirect [] si r p st s h = refl
    run_reads-indirect (j ∷ jobs) si r p st (d, e, s) h =
        run_reads-indirect jobs _ r p (read_one weights j st) s h
        ∙ if_intro (λ (x : Store W). x.memory r p ≡ st.memory r p) j.direct _ _
            (λ b.
              set_slot-get st.memory j.role j.slot r p _
              ∙ if_other j r p _ _ (unlike j r p (sym d ∙ b) h))
            (λ b. refl)

    upload-direct :
        (jobs : List ReadJob) (si r p : ℕ) (st : Store W)
        → Staged si jobs
        → host r p ≡ true
        → (upload jobs st).memory r p ≡ st.memory r p
    unfolding upload upload_one
    upload-direct [] si r p st s h = refl
    upload-direct (j ∷ jobs) si r p st (d, e, s) h =
        upload-direct jobs _ r p (upload_one j st) s h
        ∙ if_intro (λ (x : Store W). x.memory r p ≡ st.memory r p) j.direct _ _ (λ b. refl)
            (λ b.
              set_slot-get st.memory j.role j.slot r p _
              ∙ if_other j r p _ _ (differs j r p (sym d ∙ b) h))

    upload-Staged :
        (jobs : List ReadJob) (si r p : ℕ) (st : Store W)
        → Staged si jobs
        → Ready st.staging jobs
        → host r p ≡ false
        → (upload jobs st).memory r p ≡ last_of r p jobs (st.memory r p)
    unfolding upload upload_one
    upload-Staged [] si r p st s f h = refl
    upload-Staged (j ∷ jobs) si r p st (d, e, s) f h =
        upload-Staged jobs _ r p (upload_one j st) s
          (if_intro (λ (x : Store W). Ready x.staging jobs) j.direct _ _ (λ b. f.1) (λ b. f.1)) h
        ∙ ap (last_of r p jobs) (
            if_intro
              (λ (x : Store W).
                x.memory r p
                ≡ (if j.role == r && j.slot == p then weights j.role j.expert else st.memory r p))
              j.direct _ _ (λ b. sym (if_other j r p _ _ (unlike j r p (sym d ∙ b) h)))
              (λ b.
                set_slot-get st.memory j.role j.slot r p _
                ∙ ap (λ (w : W). if j.role == r && j.slot == p then w else st.memory r p) (f.0 b)))

    last_of-jobs_of :
        (pend : List (ℕ × ℕ)) (si r p : ℕ) (f : ℕ → W)
        → r < 3
        → last_of r p (jobs_of host si pend) (f p) ≡ filled (weights r) pend f p
    unfolding jobs_of
    last_of-jobs_of [] si r p f h = refl
    last_of-jobs_of ((e, slot) ∷ pend) si zero p f h =
        ap (last_of 0 p (jobs_of host _ pend)) (ground arith)
        ∙ last_of-jobs_of pend _ 0 p (update f slot (weights 0 e)) h
    last_of-jobs_of ((e, slot) ∷ pend) si (suc zero) p f h =
        ap (last_of 1 p (jobs_of host _ pend)) (ground arith)
        ∙ last_of-jobs_of pend _ 1 p (update f slot (weights 1 e)) h
    last_of-jobs_of ((e, slot) ∷ pend) si (suc (suc zero)) p f h =
        ap (last_of 2 p (jobs_of host _ pend)) (ground arith)
        ∙ last_of-jobs_of pend _ 2 p (update f slot (weights 2 e)) h
    last_of-jobs_of ((e, slot) ∷ pend) si (suc (suc (suc r))) p f h = absurd (omega arith)

    -- After a batch the slots of every one of the three members are as if each of its reads, in
    -- order, had put the weights of its expert straight into its slot.
    pub read_batch-filled :
        (pend : List (ℕ × ℕ)) (st : Store W) (r p : ℕ)
        → r < 3
        → (read_batch weights host pend st).memory r p ≡ filled (weights r) pend (st.memory r) p
    unfolding read_batch
    read_batch-filled pend st r p h =
        let jobs = jobs_of host 0 pend in
        let s = jobs_of-Staged pend 0 in
        let after = run_reads weights jobs st in
        elim (Bool-cases (host r p)) [
          | inl given ↦
              upload-direct jobs 0 r p after s given
              ∙ run_reads-direct jobs 0 r p st s given
              ∙ last_of-jobs_of pend 0 r p (st.memory r) h
          | inr lacking ↦
              upload-Staged jobs 0 r p after s (run_reads-Ready jobs 0 st s) lacking
              ∙ ap (last_of r p jobs) (run_reads-indirect jobs 0 r p st s lacking)
              ∙ last_of-jobs_of pend 0 r p (st.memory r) h
        ]
