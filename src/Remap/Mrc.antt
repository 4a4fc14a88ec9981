-- ===== src/Remap/Mrc.antt =====
-- src/llama-moestream.cpp, `mrc_touch`: one access in the reuse-distance statistics. The tables are
-- functions of their indices, beside their sizes.
pub mod Laws
use moestream.Prelude.{
  ℕ, zero, suc, ◌+◌, ◌%◌, ◌^◌, Bool, true, false, ◌&&◌, update, ltb, ◌==◌, if◌then◌else◌, inc64,
}

pub record Mrc : Type 0 where
  pub on : Bool
  -- `g_mrc_last.size()` (the sizes of the other per-layer tables are the same).
  pub n_layer : ℕ
  -- `g_mrc_last[il].size()`, also that of the histograms.
  pub n_expert : ℕ
  pub last : ℕ → ℕ → ℕ
  pub clock : ℕ → ℕ
  pub hist : ℕ → ℕ
  pub hist_l : ℕ → ℕ → ℕ
  pub tot_l : ℕ → ℕ
  pub total : ℕ
  pub cold : ℕ

-- How many of the first `n` experts were touched more recently than `t`.
unfoldable pub reuse_distance : ℕ → (ℕ → ℕ) → ℕ → ℕ
reuse_distance zero last t = 0
reuse_distance (suc n) last t = reuse_distance n last t + (if ltb t (last n) then 1 else 0)

-- `g_mrc_hist[r]++`, in both histograms, if `r` is in range.
unfoldable pub count_distance : ℕ → ℕ → Mrc → Mrc
count_distance il r m =
    if ltb r m.n_expert
    then record m {
      hist = update m.hist r (inc64 (m.hist r));
      hist_l = update m.hist_l il (update (m.hist_l il) r (inc64 (m.hist_l il r)));
    }
    else m

-- An access to expert `e`, whose previous one was at time `t` (0 for none).
unfoldable pub note_distance : ℕ → ℕ → ℕ → Mrc → Mrc
unfolding reuse_distance count_distance
note_distance il e t m =
    if t == 0
    then record m { cold = inc64 m.cold }
    else count_distance il (reuse_distance m.n_expert (m.last il) t) m

-- `g_mrc_last[il][e] = ++g_mrc_clock[il]`.
abbrev pub set_last : ℕ → ℕ → ℕ → Mrc → Mrc
set_last il e now m = record m {
  last = update m.last il (update (m.last il) e now);
  clock = update m.clock il now;
}

unfoldable pub mrc_touch : ℕ → ℕ → Mrc → Mrc
unfolding note_distance
mrc_touch il e m =
    if m.on && ltb il m.n_layer && ltb e m.n_expert
    then set_last il e (inc64 (m.clock il)) (
        note_distance il e (m.last il e)
          (record m { total = inc64 m.total; tot_l = update m.tot_l il (inc64 (m.tot_l il)) }))
    else m

-- `acc` in `mrc_report`, after the first `c` distances.
unfoldable pub accumulated : ℕ → (ℕ → ℕ) → ℕ
accumulated zero hist = 0
accumulated (suc c) hist = (accumulated c hist + hist c) % 2 ^ 64
