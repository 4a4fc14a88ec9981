-- ===== src/Cache/Evict/Outcome.antt =====
-- What `evict_one` comes to: nothing but a turned queue, or one idle expert's seat given up.
use moestream.Prelude.{ℕ, ◌<◌, ◌≡◌, ◌≢◌, refl, ap, ◌∙◌, Bool, true, false, List, ◌∷◌, arith}
use moestream.Cache.State.{is_seated, ExpertCache, Config, Entry, entry}
use moestream.Cache.Inv.{Inv}
use moestream.Cache.Evict.{
  Pass, queue, rotate, spend_chance, evict, judge, evict_pass, or_else, evict_one, spared, taken,
  over_small, second_chance, forced,
}
use moestream.Cache.Evict.WellFormed.{head-seg, rotate-Inv, spend_chance-Inv, pass_seg}
use moestream.Cache.Evict.Frame.{Frame, Frame-refl, Frame-trans, rotate-Frame, spend_chance-Frame}
use moestream.Cache.Evict.Scan.{Scan, done, skip, spare, take, evict_rounds-Scan}

pub pass_seg-seated : (pass : Pass) → is_seated (pass_seg pass) ≡ true
pass_seg-seated over_small = refl
pass_seg-seated second_chance = refl
pass_seg-seated forced = refl

pub judge-spared : (pass : Pass) (en : Entry) → judge pass en ≡ spared → (en.rc ≡ 0) × (1 < en.freq)
unfolding judge
judge-spared over_small en w = ground arith
judge-spared _ en w = ground arith

pub judge-taken : (pass : Pass) (en : Entry) → judge pass en ≡ taken → en.rc ≡ 0
unfolding judge
judge-taken over_small en w = ground arith
judge-taken _ en w = ground arith

module _ {F : Type 0} where
  -- From `c` to `d` every seat and every list stayed, but for the order of the queues of `layer`
  -- and the frequencies of idle experts.
  pub record Still (layer : ℕ) (c d : ExpertCache F) : Type 0 where
    pub frame : Frame c d
    pub slots : (i : ℕ) → (d.ent i).slot ≡ (c.ent i).slot
    pub segs : (i : ℕ) → (d.ent i).seg ≡ (c.ent i).seg
    pub free : d.free ≡ c.free
    pub st : d.st ≡ c.st
    pub others : (l : ℕ) → l ≢ layer → d.lay l ≡ c.lay l
    pub resident : (d.lay layer).resident ≡ (c.lay layer).resident
    pub pinned : (d.lay layer).pinned ≡ (c.lay layer).pinned
    pub ghost : (d.lay layer).ghost ≡ (c.lay layer).ghost

  pub Still-refl : (layer : ℕ) (c : ExpertCache F) → Still layer c c
  Still-refl layer c = record {
    frame = Frame-refl c;
    slots = λ i. refl;
    segs = λ i. refl;
    free = refl;
    st = refl;
    others = λ l h. refl;
    resident = refl;
    pinned = refl;
    ghost = refl;
  }

  pub Still-trans :
      {layer : ℕ} {b c d : ExpertCache F} → Still layer b c → Still layer c d → Still layer b d
  Still-trans f g = record {
    frame = Frame-trans f.frame g.frame;
    slots = λ i. g.slots i ∙ f.slots i;
    segs = λ i. g.segs i ∙ f.segs i;
    free = g.free ∙ f.free;
    st = g.st ∙ f.st;
    others = λ l h. g.others l h ∙ f.others l h;
    resident = g.resident ∙ f.resident;
    pinned = g.pinned ∙ f.pinned;
    ghost = g.ghost ∙ f.ghost;
  }

  rotate-Still :
      (c : ExpertCache F) (pass : Pass) (layer e : ℕ) (rest : List ℕ)
      → Still layer c (rotate pass layer e rest c)
  unfolding rotate
  rotate-Still c pass layer e rest = record {
    frame = rotate-Frame c pass layer e rest;
    slots = λ i. refl;
    segs = λ i. refl;
    free = refl;
    st = refl;
    others = λ l h. ground arith;
    resident = ground arith;
    pinned = ground arith;
    ghost = ground arith;
  }

  spend_chance-Still :
      (c : ExpertCache F) (layer e : ℕ)
      → (entry c layer e).rc ≡ 0
      → is_seated (entry c layer e).seg ≡ true
      → Still layer c (spend_chance layer e c)
  unfolding spend_chance
  spend_chance-Still c layer e idle seated = record {
    frame = spend_chance-Frame c layer e idle seated;
    slots = λ i. ground arith;
    segs = λ i. ground arith;
    free = refl;
    st = refl;
    others = λ l h. refl;
    resident = refl;
    pinned = refl;
    ghost = refl;
  }

  -- The state `d` from which an eviction took the seat of `e`.
  pub record Victim (layer : ℕ) (c d : ExpertCache F) (pass : Pass) (e : ℕ) (rest : List ℕ)
      : Type 0 where
    pub still : Still layer c d
    pub inv : Inv d
    pub front : queue pass (d.lay layer) ≡ e ∷ rest
    pub idle : (entry d layer e).rc ≡ 0

  pub data Outcome (layer : ℕ) (c : ExpertCache F) (r : ExpertCache F × Bool) : Type 0 where
    kept : Still layer c r.0 → Inv r.0 → r.1 ≡ false → Outcome layer c r
    freed :
        (d : ExpertCache F) (pass : Pass) (e : ℕ) (rest : List ℕ)
        → Victim layer c d pass e rest
        → r.0 ≡ evict pass layer e rest d
        → r.1 ≡ true
        → Outcome layer c r

  -- A state further back reaches the same outcome.
  Outcome-before :
      {layer : ℕ} {b c : ExpertCache F} {r : ExpertCache F × Bool}
      → Still layer b c
      → Outcome layer c r
      → Outcome layer b r
  Outcome-before s (kept t v e) = kept (Still-trans s t) v e
  Outcome-before s (freed d pass e rest w p q) =
      freed d pass e rest
        (record { still = Still-trans s w.still; inv = w.inv; front = w.front; idle = w.idle }) p q

  pub in_range :
      (layer : ℕ) {c d : ExpertCache F} → Frame c d → layer < c.cfg.n_layer → layer < d.cfg.n_layer
  in_range layer f h = omega (arith, ap (λ (k : Config F). k.n_layer) f.cfg)

  -- The round that lets an expert off: still the same seats, and well formed.
  spared-Inv :
      (c : ExpertCache F) (pass : Pass) (layer e : ℕ) (rest : List ℕ)
      → Inv c
      → layer < c.cfg.n_layer
      → queue pass (c.lay layer) ≡ e ∷ rest
      → judge pass (entry c layer e) ≡ spared
      → Still layer c (rotate pass layer e rest (spend_chance layer e c))
        × Inv (rotate pass layer e rest (spend_chance layer e c))
  unfolding spend_chance
  spared-Inv c pass layer e rest v h q w =
      let top = head-seg c pass layer e rest v h q in
      let (idle, rich) = judge-spared pass (entry c layer e) w in
      let s = spend_chance-Still c layer e idle (ap is_seated top.1 ∙ pass_seg-seated pass) in
      (
        Still-trans s (rotate-Still (spend_chance layer e c) pass layer e rest),
        rotate-Inv (spend_chance layer e c) pass layer e rest
            (spend_chance-Inv c layer e v h top.0 (omega arith)) h q,
      )

  pub Scan-Outcome :
      (pass : Pass) (layer : ℕ) {c : ExpertCache F} {r : ExpertCache F × Bool}
      → Scan pass layer c r
      → Inv c
      → layer < c.cfg.n_layer
      → Outcome layer c r
  Scan-Outcome pass layer (done c) v h = kept (Still-refl layer c) v refl
  Scan-Outcome pass layer (skip c e rest q w s) v h =
      Outcome-before (rotate-Still c pass layer e rest) (
        Scan-Outcome pass layer s (rotate-Inv c pass layer e rest v h q)
          (in_range layer (rotate-Still c pass layer e rest).frame h))
  Scan-Outcome pass layer (spare c e rest q w s) v h =
      let (still, inv) = spared-Inv c pass layer e rest v h q w in
      Outcome-before still (Scan-Outcome pass layer s inv (in_range layer still.frame h))
  Scan-Outcome pass layer (take c e rest q w) v h =
      freed c pass e rest
        (record {
          still = Still-refl layer c;
          inv = v;
          front = q;
          idle = judge-taken pass (entry c layer e) w;
        })
        refl refl

  Outcome-after :
      {layer : ℕ} {c : ExpertCache F} (r : ExpertCache F × Bool)
      (next : ExpertCache F → ExpertCache F × Bool)
      → Outcome layer c r
      → (Inv r.0 → layer < r.0.cfg.n_layer → Outcome layer r.0 (next r.0))
      → layer < c.cfg.n_layer
      → Outcome layer c (or_else r next)
  Outcome-after (d, true) next o k h = o
  Outcome-after {layer} (d, false) next (kept t v e) k h =
      Outcome-before t (k v (in_range layer t.frame h))
  Outcome-after (d, false) next (freed m pass e rest w p q) k h = cc

  pub evict_one-Outcome :
      (layer : ℕ) (c : ExpertCache F)
      → Inv c
      → layer < c.cfg.n_layer
      → Outcome layer c (evict_one layer c)
  unfolding evict_one
  evict_one-Outcome layer c v h =
      Outcome-after _ _ (pass_Outcome over_small c v h)
        (λ v1 h1.
          Outcome-after _ _ (pass_Outcome second_chance _ v1 h1)
            (λ v2 h2. pass_Outcome forced _ v2 h2) h1)
        h
    where
      pass_Outcome :
          (pass : Pass) (d : ExpertCache F)
          → Inv d
          → layer < d.cfg.n_layer
          → Outcome layer d (evict_pass pass layer d)
      pass_Outcome pass d w k = Scan-Outcome pass layer (evict_rounds-Scan _ pass layer d) w k
