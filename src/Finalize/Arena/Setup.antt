-- ===== src/Finalize/Arena/Setup.antt =====
-- The prefill path starts in a good state, or does not start.
use moestream.Prelude.{
  ℕ, zero, suc, ◌+◌, ◌≤◌, ◌<◌, ◌≡◌, refl, subst, Bool, true, false, not, ◌&&◌, none, List, ltb, leb,
  if_intro, arith,
}
use moestream.Prelude.Int.{ℤ, pos, negsuc, ltb_ℤ}
use moestream.Cache.Doubles.{Doubles}
use moestream.Loader.Tables.{LayerSlabs}
use moestream.Prefill.State.{Prefill}
use moestream.Prefill.Load.{Model}
use moestream.Prefill.Graph.Laws.{Good}
use moestream.Finalize.Arena.{Host, alloc_arenas, arena_bytes, with_arenas, setup_prefill}

-- If it goes on, every arena that the layers are spread over is there, and there is one.
abbrev Allocated : ℕ → Bool × ℕ × ℕ → Type 0
Allocated most (ok, nbuf, n) = ok ≡ true → (nbuf ≡ n) × (0 < n) × (n ≤ most)

alloc_arenas-Allocated :
    (h : Host) (k i : ℕ) → 0 < i + k → Allocated (i + k) (alloc_arenas h k i (i + k))
unfolding alloc_arenas
alloc_arenas-Allocated h zero i given = λ ok. (omega arith, omega (arith, given), omega arith)
alloc_arenas-Allocated h (suc k) i given =
    if_intro (Allocated (i + suc k)) (not (h.alloc i)) _ _
      (λ a.
        if_intro (Allocated (i + suc k)) (leb 1 i) _ _
          (λ b ok. (refl, ground (arith, b), omega arith)) (λ b ok. absurd (ground arith)))
      (λ a.
        if_intro (Allocated (i + suc k)) (not (h.host_ptr i)) _ _ (λ b ok. absurd (ground arith))
          (λ b.
            subst (λ (n : ℕ). Allocated n (alloc_arenas h k (i + 1) n)) (omega arith)
              (alloc_arenas-Allocated h k (i + 1) (omega arith))))

alloc_arenas-start : (h : Host) (nbuf : ℕ) → 0 < nbuf → Allocated nbuf (alloc_arenas h nbuf 0 nbuf)
alloc_arenas-start h nbuf given =
    subst (λ (n : ℕ). Allocated n (alloc_arenas h nbuf 0 n)) (omega arith)
      (alloc_arenas-Allocated h nbuf 0 (omega (arith, given)))

not_layer : (k : ℕ) → negsuc 0 ≡ pos k → ⊥
not_layer k q = ground arith

module _ (D : Doubles) {W : Type 0} (M : Model W) where
  open D use {Double}

  -- What it becomes if it is on.
  abbrev GoodIfReady : Prefill Double W → Type 0
  GoodIfReady st = st.pf_ready ≡ true → Good D M st

  with_arenas-Good :
      (n_union most : ℕ) (tensors : Bool) (r : Bool × ℕ × ℕ) (st : Prefill Double W)
      → st.pf_thread ≡ none
      → Allocated most r
      → GoodIfReady (with_arenas n_union tensors r st)
  with_arenas-Good n_union most tensors (false, nbuf, n) st idle a on = absurd (ground arith)
  with_arenas-Good n_union most false (true, nbuf, n) st idle a on = absurd (ground arith)
  with_arenas-Good n_union most true (true, nbuf, n) st idle a on =
      let (same, some_arena, few) = a refl in
      (
        (λ b e r k layer. absurd (not_layer k layer)),
        (refl, omega (arith, same, some_arena), omega (arith, same)),
        λ off. idle,
      )

-- The prefill path is off before, with no thread, and is to have at least one arena: whatever the
-- host library answers, if the path is on afterwards, every expert that is marked in an arena and
-- whose reads succeed is there (none is marked), there are as many arenas as the layers are spread over and at least one, and no
-- thread runs. All that a graph does with the arenas keeps this.
pub setup_prefill-Good :
    (D : Doubles) {W : Type 0} (M : Model W) (h : Host) (layers : List (ℤ × LayerSlabs))
    (n_union : ℕ) (st : Prefill D.Double W)
    → st.pf_ready ≡ false
    → st.pf_thread ≡ none
    → 0 < st.pf_nbuf
    → (setup_prefill h layers n_union st).pf_ready ≡ true
    → Good D M (setup_prefill h layers n_union st)
unfolding setup_prefill
setup_prefill-Good D M h layers n_union st off idle given =
    if_intro (GoodIfReady D M) (ltb_ℤ (pos 0) st.pf_threshold && (h.vulkan && h.zerocopy)) _ _
      (λ b. with_arenas-Good D M n_union st.pf_nbuf h.tensors _ st idle (
        if_intro (Allocated st.pf_nbuf) (h.buft && ltb 0 (arena_bytes layers)) _ _
          (λ c. alloc_arenas-start h st.pf_nbuf given) (λ c ok. absurd (ground arith))))
      (λ b on. absurd (ground (arith, off, on)))
