-- ===== src/Cache/Evict/Frame.antt =====
-- What eviction leaves alone, for one round, a pass and the whole of `evict_one`.
use moestream.Prelude.{ℕ, ◌<◌, ◌≡◌, refl, ◌∙◌, true, false, List, arith}
use moestream.Cache.State.{is_seated, CacheStats, ExpertCache, entry}
use moestream.Cache.Evict.{Pass, rotate, spend_chance, evict}

module _ {F : Type 0} where
  -- From `c` to `d` no counter of references changed, an entry in use or without a seat did not
  -- change at all, and an entry with a seat had that seat before.
  pub record Frame (c d : ExpertCache F) : Type 0 where
    pub cfg : d.cfg ≡ c.cfg
    pub n_slot : d.n_slot ≡ c.n_slot
    pub quota : d.quota ≡ c.quota
    pub step : d.step ≡ c.step
    pub counts : (i : ℕ) → (d.ent i).rc ≡ (c.ent i).rc
    pub in_use : (i : ℕ) → 0 < (c.ent i).rc → d.ent i ≡ c.ent i
    pub vacant : (i : ℕ) → is_seated (c.ent i).seg ≡ false → d.ent i ≡ c.ent i
    pub stays :
        (i : ℕ)
        → is_seated (d.ent i).seg ≡ true
        → ((d.ent i).slot ≡ (c.ent i).slot) × ((d.ent i).seg ≡ (c.ent i).seg)

  pub Frame-refl : (c : ExpertCache F) → Frame c c
  Frame-refl c = record {
    cfg = refl;
    n_slot = refl;
    quota = refl;
    step = refl;
    counts = λ i. refl;
    in_use = λ i h. refl;
    vacant = λ i h. refl;
    stays = λ i h. (refl, refl);
  }

  pub Frame-trans : {b c d : ExpertCache F} → Frame b c → Frame c d → Frame b d
  Frame-trans f g = record {
    cfg = g.cfg ∙ f.cfg;
    n_slot = g.n_slot ∙ f.n_slot;
    quota = g.quota ∙ f.quota;
    step = g.step ∙ f.step;
    counts = λ i. g.counts i ∙ f.counts i;
    in_use = λ i h. g.in_use i (omega (arith, f.counts i)) ∙ f.in_use i h;
    vacant = λ i h. ground (arith, f.vacant i, g.vacant i);
    stays = λ i h. ground (arith, f.stays i, g.stays i);
  }

  pub stats-Frame : (c : ExpertCache F) (st : CacheStats) → Frame c (record c { st = st })
  stats-Frame c st = record {
    cfg = refl;
    n_slot = refl;
    quota = refl;
    step = refl;
    counts = λ i. refl;
    in_use = λ i h. refl;
    vacant = λ i h. refl;
    stays = λ i h. (refl, refl);
  }

  pub rotate-Frame :
      (c : ExpertCache F) (pass : Pass) (layer e : ℕ) (rest : List ℕ)
      → Frame c (rotate pass layer e rest c)
  unfolding rotate
  rotate-Frame c pass layer e rest = record {
    cfg = refl;
    n_slot = refl;
    quota = refl;
    step = refl;
    counts = λ i. refl;
    in_use = λ i h. refl;
    vacant = λ i h. refl;
    stays = λ i h. (refl, refl);
  }

  module _ (c : ExpertCache F) (layer e : ℕ) (idle : (entry c layer e).rc ≡ 0)
      (seated : is_seated (entry c layer e).seg ≡ true) where
    pub spend_chance-Frame : Frame c (spend_chance layer e c)
    unfolding spend_chance
    spend_chance-Frame = record {
      cfg = refl;
      n_slot = refl;
      quota = refl;
      step = refl;
      counts = λ i. ground arith;
      in_use = λ i h. ground arith;
      vacant = λ i h. ground arith;
      stays = λ i h. ground arith;
    }

    pub evict-Frame : (pass : Pass) (rest : List ℕ) → Frame c (evict pass layer e rest c)
    unfolding evict
    evict-Frame pass rest = record {
      cfg = refl;
      n_slot = refl;
      quota = refl;
      step = refl;
      counts = λ i. ground arith;
      in_use = λ i h. ground arith;
      vacant = λ i h. ground arith;
      stays = λ i h. ground arith;
    }
