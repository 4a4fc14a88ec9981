-- ===== src/Cache/Alloc/Outcome.antt =====
-- What `alloc_slot` comes to: a slot off the free stack of a well-formed state, or a refusal.
use moestream.Prelude.{
  ℕ, zero, suc, ◌+◌, ◌≤◌, ◌<◌, ◌≡◌, refl, ap, ◌∙◌, inl, inr, Bool, true, false, List, [], ◌∷◌,
  arith, leb, Bool-cases,
}
use moestream.Prelude.Int.{ℤ}
use moestream.Cache.State.{is_seated, ExpertCache, no_slot}
use moestream.Cache.Inv.{Inv}
use moestream.Cache.Evict.{Pass, evict, evict_one}
use moestream.Cache.Evict.WellFormed.{head-seg, evict-Inv}
use moestream.Cache.Evict.Frame.{Frame, Frame-refl, Frame-trans, evict-Frame}
use moestream.Cache.Evict.Outcome.{
  Victim, Outcome, kept, freed, evict_one-Outcome, in_range, pass_seg-seated,
}
use moestream.Cache.Alloc.{
  alloc_slot, take_free, take_from_worst, pop_free, pop_or, after_evict, worst_layer, int32_min,
}

module _ {F : Type 0} where
  -- From `c` to `d` experts in use, experts without a seat and the other statistics stayed, and
  -- `d` is well formed.
  pub record Keeps (c d : ExpertCache F) : Type 0 where
    pub frame : Frame c d
    pub inv : Inv d
    pub tallies : d.st ≡ record c.st { evict = d.st.evict }

  pub Keeps-refl : (c : ExpertCache F) → Inv c → Keeps c c
  Keeps-refl c v = record { frame = Frame-refl c; inv = v; tallies = refl }

  pub Keeps-trans : {b c d : ExpertCache F} → Keeps b c → Keeps c d → Keeps b d
  Keeps-trans f g = record {
    frame = Frame-trans f.frame g.frame;
    inv = g.inv;
    tallies = ground (arith, f.tallies, g.tallies);
  }

  evict-Keeps :
      (layer : ℕ) (c d : ExpertCache F) (pass : Pass) (e : ℕ) (rest : List ℕ)
      → layer < c.cfg.n_layer
      → Victim layer c d pass e rest
      → Keeps c (evict pass layer e rest d)
  unfolding evict
  evict-Keeps layer c d pass e rest h w =
      let h' = in_range layer w.still.frame h in
      let top = head-seg d pass layer e rest w.inv h' w.front in
      let seated = ap is_seated top.1 ∙ pass_seg-seated pass in
      record {
        frame = Frame-trans w.still.frame (evict-Frame d layer e w.idle seated pass rest);
        inv = evict-Inv d layer e rest w.inv h' w.idle pass w.front;
        tallies = ground (arith, w.still.st);
      }

  Outcome-Keeps :
      {layer : ℕ} {c : ExpertCache F} {r : ExpertCache F × Bool}
      → layer < c.cfg.n_layer
      → Outcome layer c r
      → Keeps c r.0
  Outcome-Keeps h (kept t v e) = record { frame = t.frame; inv = v; tallies = ground (arith, t.st) }
  Outcome-Keeps {layer} {c} h (freed d pass e rest w p q) =
      rw p (evict-Keeps layer c d pass e rest h w)

  -- Whatever it returns, `evict_one` leaves a well-formed cache in which every expert in use, and
  -- every expert without a slot, stands as before; no expert's reference count changes, and no
  -- expert that keeps a slot gets another one.
  pub evict_one-Keeps :
      (layer : ℕ) (c : ExpertCache F)
      → Inv c
      → layer < c.cfg.n_layer
      → Keeps c (evict_one layer c).0
  evict_one-Keeps layer c v h = Outcome-Keeps h (evict_one-Outcome layer c v h)

  pub data AllocOutcome (c : ExpertCache F) (r : ExpertCache F × ℕ) : Type 0 where
    got :
        (d : ExpertCache F) (rest : List ℕ)
        → Keeps c d
        → d.free ≡ r.1 ∷ rest
        → r.0 ≡ record d { free = rest }
        → AllocOutcome c r
    refused : Keeps c r.0 → r.1 ≡ no_slot → AllocOutcome c r

  AllocOutcome-before :
      {c d : ExpertCache F} {r : ExpertCache F × ℕ}
      → Keeps c d
      → AllocOutcome d r
      → AllocOutcome c r
  AllocOutcome-before k (got m rest l f e) = got m rest (Keeps-trans k l) f e
  AllocOutcome-before k (refused l e) = refused (Keeps-trans k l) e

  pop_or-Outcome :
      (xs : List ℕ) (other : ExpertCache F × ℕ) (c : ExpertCache F)
      → c.free ≡ xs
      → Inv c
      → AllocOutcome c other
      → AllocOutcome c (pop_or xs other c)
  pop_or-Outcome [] other c e v o = o
  pop_or-Outcome (s ∷ rest) other c e v o = got c rest (Keeps-refl c v) e refl

  pop_free-Outcome : (c : ExpertCache F) → Inv c → AllocOutcome c (pop_free c)
  unfolding pop_free
  pop_free-Outcome c v = pop_or-Outcome c.free _ c refl v (refused (Keeps-refl c v) refl)

  after_evict-Outcome :
      {c : ExpertCache F} (r : ExpertCache F × Bool) (next : ExpertCache F → ExpertCache F × ℕ)
      → Keeps c r.0
      → (Inv r.0 → AllocOutcome r.0 (next r.0))
      → AllocOutcome c (after_evict r next)
  after_evict-Outcome (d, true) next k o = AllocOutcome-before k (o k.inv)
  after_evict-Outcome (d, false) next k o = refused k refl

  worst_layer-lt :
      (n l : ℕ) (c : ExpertCache F) (worst : ℤ) (victim m : ℕ)
      → l + n ≤ m
      → victim < m
      → worst_layer n l c worst victim < m
  unfolding worst_layer
  worst_layer-lt zero l c worst victim m h k = k
  worst_layer-lt (suc n) l c worst victim m h k =
      worst_layer-lt n (l + 1) c _ _ m (omega arith) (ground arith)

  take_from_worst-Outcome :
      (layer : ℕ) (c : ExpertCache F)
      → Inv c
      → layer < c.cfg.n_layer
      → AllocOutcome c (take_from_worst layer c)
  unfolding take_from_worst
  take_from_worst-Outcome layer c v h =
      let victim = worst_layer c.cfg.n_layer 0 c int32_min layer in
      let range = worst_layer-lt c.cfg.n_layer 0 c int32_min layer c.cfg.n_layer (omega arith) h in
      after_evict-Outcome (evict_one victim c) pop_free (evict_one-Keeps victim c v range)
        (λ w. pop_free-Outcome _ w)

  take_free-Outcome :
      (layer : ℕ) (c : ExpertCache F)
      → Inv c
      → layer < c.cfg.n_layer
      → AllocOutcome c (take_free layer c)
  unfolding take_free
  take_free-Outcome layer c v h =
      pop_or-Outcome c.free _ c refl v (take_from_worst-Outcome layer c v h)

  -- Asked for a slot for a layer of a well-formed cache, `alloc_slot` either takes the head of the
  -- free stack of a state that keeps every expert in use or without a slot, or it returns `no_slot`
  -- and such a state.
  pub alloc_slot-Outcome :
      (layer : ℕ) (c : ExpertCache F)
      → Inv c
      → layer < c.cfg.n_layer
      → AllocOutcome c (alloc_slot layer c)
  unfolding alloc_slot
  alloc_slot-Outcome layer c v h = elim (Bool-cases (leb (c.quota layer) (c.lay layer).resident)) [
    | inl full ↦
        let k = evict_one-Keeps layer c v h in
        rw full (
          after_evict-Outcome (evict_one layer c) (take_free layer) k
            (λ w. take_free-Outcome layer _ w (in_range layer k.frame h)))
    | inr below ↦ rw below (take_free-Outcome layer c v h)
  ]
