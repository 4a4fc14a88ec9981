-- ===== src/Cache/Evict/Progress.antt =====
-- When `evict_one` fails: exactly if every expert in the layer's queues is in use.
use mathlib.Core.List.{append_assoc, append-nil}
use native.Mathlib.Decide.{ℕ_discrete}
use moestream.Prelude.{
  ℕ, ◌+◌, ◌<◌, ◌≡◌, ◌↔◌, refl, sym, ap, ◌∙◌, inl, inr, Bool, true, false, List, [], ◌∷◌, ◌++◌,
  length, count, if◌then◌else◌, ltb, arith,
}
use moestream.Cache.State.{ExpertCache, Config, Entry, Seg, entry, idx}
use moestream.Cache.Inv.{Inv, in_small, in_main}
use moestream.Cache.Evict.{
  Pass, queue, rotate, judge, evict_rounds, evict_pass, or_else, evict_one, in_use, spared,
  over_small, second_chance, forced, is_second_chance,
}
use moestream.Cache.Evict.WellFormed.{head-seg, pass_seg}
use moestream.Cache.Evict.Frame.{Frame}
use moestream.Cache.Evict.Scan.{Verdict-cases, evict_rounds-Scan}
use moestream.Cache.Evict.Outcome.{
  Still, Still-trans, Outcome, kept, freed, evict_one-Outcome, Scan-Outcome, in_range,
}

judge-firm :
    (pass : Pass) (en : Entry) → is_second_chance pass ≡ false → judge pass en ≡ in_use → 0 < en.rc
unfolding judge
judge-firm over_small en p w = ground arith
judge-firm _ en p w = ground arith

judge-not_spared :
    (pass : Pass) (en : Entry) → is_second_chance pass ≡ false → judge pass en ≡ spared → ⊥
unfolding judge
judge-not_spared over_small en p w = ground arith
judge-not_spared _ en p w = ground arith

in_queue_seg : (pass : Pass) (seg : Seg) → seg ≡ pass_seg pass → 0 < in_small seg + in_main seg
in_queue_seg over_small seg h = ground arith
in_queue_seg second_chance seg h = ground arith
in_queue_seg forced seg h = ground arith

module _ {F : Type 0} where
  queue-rotate :
      (pass : Pass) (layer e : ℕ) (rest : List ℕ) (c : ExpertCache F)
      → queue pass ((rotate pass layer e rest c).lay layer) ≡ rest ++ e ∷ []
  unfolding rotate
  queue-rotate over_small layer e rest c = ground arith
  queue-rotate second_chance layer e rest c = ground arith
  queue-rotate forced layer e rest c = ground arith

  entry-rotate :
      (pass : Pass) (layer e x : ℕ) (rest : List ℕ) (c : ExpertCache F)
      → entry (rotate pass layer e rest c) layer x ≡ entry c layer x
  unfolding rotate
  entry-rotate pass layer e x rest c = refl

  -- A pass without second chances that evicts nothing saw only experts in use.
  rounds_in_use :
      (xs ys : List ℕ) (pass : Pass) (layer : ℕ) (c : ExpertCache F)
      → is_second_chance pass ≡ false
      → queue pass (c.lay layer) ≡ xs ++ ys
      → (evict_rounds (length xs) pass layer c).1 ≡ false
      → (x : ℕ) → 0 < count x xs
      → 0 < (entry c layer x).rc
  unfolding evict_rounds
  rounds_in_use [] ys pass layer c p q r x m = absurd (omega arith)
  rounds_in_use (e ∷ xs) ys pass layer c p q r x m =
      elim (Verdict-cases (judge pass (entry c layer e))) [
        | inl w ↦
            let next = rotate pass layer e (xs ++ ys) c in
            let r' : (evict_rounds (length xs) pass layer next).1 ≡ false =
              rw (q, w, evict_rounds) at r in
            let ih =
              rounds_in_use xs (ys ++ e ∷ []) pass layer next p
                (queue-rotate pass layer e (xs ++ ys) c ∙ append_assoc xs ys (e ∷ [])) r' x in
            elim (ℕ_discrete e x) [
              | yes h ↦ omega (
                arith,
                judge-firm pass (entry c layer e) p w,
                ap (λ (k : ℕ). (entry c layer k).rc) h,
              )
              | no d ↦ omega (
                arith,
                ih (ground arith),
                ap (λ (en : Entry). en.rc) (entry-rotate pass layer e x (xs ++ ys) c),
              )
            ]
        | inr (inl w) ↦ absurd (judge-not_spared pass (entry c layer e) p w)
        | inr (inr w) ↦ let r' : true ≡ false = rw (q, w, evict_rounds) at r in cc
      ]

  pass_in_use :
      (pass : Pass) (layer : ℕ) (c : ExpertCache F)
      → is_second_chance pass ≡ false
      → (evict_pass pass layer c).1 ≡ false
      → (x : ℕ) → 0 < count x (queue pass (c.lay layer))
      → 0 < (entry c layer x).rc
  unfolding evict_pass
  pass_in_use pass layer c p r x m =
      rounds_in_use (queue pass (c.lay layer)) [] pass layer c p (sym (append-nil _)) r x m

  pass_Outcome :
      (pass : Pass) (layer : ℕ) (c : ExpertCache F)
      → Inv c
      → layer < c.cfg.n_layer
      → Outcome layer c (evict_pass pass layer c)
  unfolding evict_pass
  pass_Outcome pass layer c v h = Scan-Outcome pass layer (evict_rounds-Scan _ pass layer c) v h

  or_else-false :
      (r : ExpertCache F × Bool) (next : ExpertCache F → ExpertCache F × Bool)
      → (or_else r next).1 ≡ false
      → (r.1 ≡ false) × ((next r.0).1 ≡ false)
  or_else-false (c, true) next h = absurd (ground arith)
  or_else-false (c, false) next h = (refl, h)

  -- The expert stands in one of the layer's two queues.
  abbrev pub InQueue : ExpertCache F → ℕ → ℕ → Type 0
  InQueue c layer e =
      (e < c.cfg.n_expert) × (0 < in_small (entry c layer e).seg + in_main (entry c layer e).seg)

  -- An outcome without an eviction is one that left the seats alone.
  Outcome-Still :
      {layer : ℕ} {c : ExpertCache F} {r : ExpertCache F × Bool}
      → Outcome layer c r
      → r.1 ≡ false
      → Still layer c r.0 × Inv r.0
  Outcome-Still (kept t v e) h = (t, v)
  Outcome-Still (freed d pass e rest w p q) h = cc

  n_expert-Frame : {c d : ExpertCache F} → Frame c d → d.cfg.n_expert ≡ c.cfg.n_expert
  n_expert-Frame f = ap (λ (k : Config F). k.n_expert) f.cfg

  -- The entry of the same expert, in a state with the same configuration.
  pub entry-Frame :
      {c d : ExpertCache F} (layer e : ℕ) → Frame c d → entry d layer e ≡ d.ent (idx c.cfg layer e)
  entry-Frame {c} {d} layer e f = ap (λ (k : Config F). d.ent (idx k layer e)) f.cfg

  -- The main queue of a state with the same seats holds the same experts, and none is less in use.
  main-Still :
      {layer : ℕ} {c d : ExpertCache F} (e : ℕ)
      → Still layer c d
      → Inv d
      → layer < c.cfg.n_layer
      → (count e (d.lay layer).main
          ≡ (if ltb e c.cfg.n_expert then in_main (entry c layer e).seg else 0))
        × ((entry d layer e).rc ≡ (entry c layer e).rc)
  main-Still {layer} {c} {d} e s v h =
      let i = idx c.cfg layer e in
      let same = entry-Frame layer e s.frame in
      (
        ground (
          arith,
          n_expert-Frame s.frame,
          v.mains layer e (in_range layer s.frame h),
          ap (λ (en : Entry). in_main en.seg) same,
          ap in_main (s.segs i),
        ),
        ap (λ (en : Entry). en.rc) same ∙ s.frame.counts i,
      )

  evict_one_in_use :
      (layer : ℕ) (c : ExpertCache F)
      → Inv c
      → layer < c.cfg.n_layer
      → (evict_one layer c).1 ≡ false
      → (e : ℕ) → InQueue c layer e
      → 0 < (entry c layer e).rc
  unfolding evict_one
  evict_one_in_use layer c v h r e m =
      let (r0, r1) = or_else-false (evict_pass over_small layer c) _ r in
      let (s0, v0) = Outcome-Still (pass_Outcome over_small layer c v h) r0 in
      let c1 = (evict_pass over_small layer c).0 in
      let h1 = in_range layer s0.frame h in
      let (r2, r3) = or_else-false (evict_pass second_chance layer c1) _ r1 in
      let (s1, v1) = Outcome-Still (pass_Outcome second_chance layer c1 v0 h1) r2 in
      let c2 = (evict_pass second_chance layer c1).0 in
      let h2 = in_range layer s1.frame h1 in
      let (counted, used) = main-Still e (Still-trans s0 s1) v1 h in
      elim (ℕ_discrete (in_small (entry c layer e).seg) 0) [
        | yes z ↦
            let seen = pass_in_use forced layer c2 refl r3 e in
            omega (arith, used, seen (ground arith))
        | no z ↦ pass_in_use over_small layer c refl r0 e (ground (arith, v.smalls layer e h))
      ]

  evict_one_spoilt :
      {layer : ℕ} {c : ExpertCache F} {r : ExpertCache F × Bool}
      → Outcome layer c r
      → layer < c.cfg.n_layer
      → ((e : ℕ) → InQueue c layer e → 0 < (entry c layer e).rc)
      → r.1 ≡ false
  evict_one_spoilt (kept t v e) h used = e
  evict_one_spoilt {layer} {c} (freed d pass e rest w p q) h used =
      let top = head-seg d pass layer e rest w.inv (in_range layer w.still.frame h) w.front in
      let i = idx c.cfg layer e in
      let same = entry-Frame layer e w.still.frame in
      let seg : (entry c layer e).seg ≡ pass_seg pass =
        sym (w.still.segs i) ∙ ap (λ (en : Entry). en.seg) (sym same) ∙ top.1 in
      absurd (
        omega (
          arith,
          used e (omega (arith, top.0, n_expert-Frame w.still.frame), in_queue_seg pass _ seg),
          w.idle,
          ap (λ (en : Entry). en.rc) same,
          w.still.frame.counts i,
        ))

  -- In a well-formed cache, `evict_one` fails for a layer in range exactly if every expert in the
  -- layer's queues is in use.
  pub evict_one-fails_iff :
      (layer : ℕ) (c : ExpertCache F)
      → Inv c
      → layer < c.cfg.n_layer
      → ((evict_one layer c).1 ≡ false) ↔ ((e : ℕ) → InQueue c layer e → 0 < (entry c layer e).rc)
  evict_one-fails_iff layer c v h =
      (evict_one_in_use layer c v h, evict_one_spoilt (evict_one-Outcome layer c v h) h)
