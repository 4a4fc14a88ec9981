-- ===== src/Prefill/Ids.antt =====
-- src/llama-moestream.cpp, `ms_pfload_fn`: the loop over the ids of a batch, which copies them to
-- the output and marks the experts of the layer, and the comparison with the pass before.
pub mod Laws
use moestream.Prelude.{
  ℕ, zero, suc, ◌+◌, ◌*◌, ◌%◌, ◌^◌, Bool, true, false, not, ◌&&◌, ◌||◌, Option, none, some, update,
  sum_below, ltb, leb, ◌==◌, if◌then◌else◌, inc64,
}
use moestream.Prelude.Int.{ℤ}
use moestream.Remap.Ids.{expert_of}
use moestream.Prefill.State.{Marks, Counters, Prefill}

-- `ids j k` is the id at byte `j * nb[1] + k * nb[0]` of the input, which has `tk` ids for each of
-- `nt` tokens; `NE` is the number of experts of the layer, 0 if the layer is unknown.
pub record Ids : Type 0 where
  pub ids : ℕ → ℕ → ℤ
  pub tk : ℕ
  pub nt : ℕ

pub record Copied : Type 0 where
  pub out : ℕ → ℤ
  pub need : ℕ → Bool

-- An id out of range is only warned about.
abbrev pub mark_expert : Option ℕ → (ℕ → Bool) → ℕ → Bool
mark_expert (some e) need = update need e true
mark_expert none need = need

module _ (a : Ids) (NE : ℕ) where
  abbrev pub mark_id : ℤ → (ℕ → Bool) → ℕ → Bool
  mark_id e need = mark_expert (expert_of NE e) need

  unfoldable pub copy_row : ℕ → ℕ → Copied → Copied
  copy_row j zero st = st
  copy_row j (suc k) st =
      let before = copy_row j k st in
      let e = a.ids j k in
      record { out = update before.out (j * a.tk + k) e; need = mark_id e before.need }

  unfoldable pub copy_rows : ℕ → Copied → Copied
  unfolding copy_row
  copy_rows zero st = st
  copy_rows (suc j) st = copy_row j a.tk (copy_rows j st)

  unfoldable pub copy_ids : (ℕ → ℤ) → Copied
  unfolding copy_rows
  copy_ids out = copy_rows a.nt (record { out = out; need = λ e. false })

-- How many experts below `n` pass a test.
abbrev pub how_many : ℕ → (ℕ → Bool) → ℕ
how_many n test = sum_below n (λ e. if test e then 1 else 0)

module _ {F : Type 0} where
  -- What the union of the pass before covers.
  unfoldable pub compare_union : Marks → Marks → Counters F → Counters F
  compare_union need before k =
      if before.size == need.size
      then record k {
        u_need = (k.u_need + how_many need.size need.mark) % 2 ^ 64;
        u_prev = (k.u_prev + how_many need.size before.mark) % 2 ^ 64;
        u_short =
            (k.u_short + how_many need.size (λ e. need.mark e && not (before.mark e))) % 2 ^ 64;
        u_total = (k.u_total + how_many need.size (λ e. need.mark e || before.mark e)) % 2 ^ 64;
        u_n = inc64 k.u_n;
      }
      else k

  unfoldable pub note_union : {W : Type 0} → ℕ → ℕ → Marks → Prefill F W → Prefill F W
  unfolding compare_union
  note_union il nt need st =
      if ltb 0 need.size && (ltb il st.n_union && leb 256 nt)
      then record st {
        counters = compare_union need (st.prev_union il) st.counters;
        prev_union = update st.prev_union il need;
      }
      else st
