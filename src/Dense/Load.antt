-- ===== src/Dense/Load.antt =====
-- src/llama-moestream.cpp, `dense_load_layer` and the operation of the graph that calls it. The
-- background load is taken where its thread is joined.
pub mod Weights
pub mod Laws
pub mod Graph
use moestream.Prelude.{
  ℕ, ◌+◌, ◌-◌, ◌%◌, ◌^◌, Bool, true, false, not, ◌&&◌, ◌||◌, Option, none, some, List, [], ◌∷◌,
  update, ltb, leb, ◌==◌, if◌then◌else◌, inc64,
}
use moestream.Prelude.Int.{ℤ, pos, negsuc, ltb_ℤ}
use moestream.Cache.Doubles.{Doubles}
use moestream.Prefill.Pass.{is_layer}
use moestream.Io.Read.{Pread}
use moestream.Io.Range.{dense_read_range}
use moestream.Dense.Info.{DenseInfo}

-- What stays fixed: the tables of the streamed layers, the files, the threads of a read.
pub record Tables : Type 0 where
  -- `g_dn_meta` and `g_dn_view`.
  pub meta : ℕ → Option (List DenseInfo)
  pub view : ℕ → Option (List DenseInfo)
  -- By the number of the shard: its bytes, its size, whether it is open, and its `pread`.
  pub files : ℕ → ℕ → ℕ
  pub file_size : ℕ → ℕ
  pub fd_open : ℕ → Bool
  pub pread : ℕ → Pread
  pub dn_th : ℕ
  pub dn_first : ℤ
  pub dn_nlayer : ℤ

-- `host b` is the content of arena `b`; `has_host b` says that it was allocated.
pub record Dense (F : Type 0) : Type 0 where
  pub dn_ready : Bool
  pub dn_nbuf : ℕ
  pub has_host : ℕ → Bool
  pub host : ℕ → ℕ → ℕ
  pub resident : ℕ → ℤ
  pub dn_inflight : ℤ
  -- The layer of the thread to be joined.
  pub dn_thread : Option ℕ
  pub loads : ℕ
  pub hits : ℕ
  pub read_bytes : ℕ
  pub t_read : F
  pub pf_hit : ℕ
  pub pf_miss : ℕ

abbrev pub streamed : ℤ → ℕ → Bool
streamed (pos first) il = leb first il
streamed (negsuc n) il = false

-- `hp = base + off`, and a buffer written from there on.
abbrev pub behind : ℕ → (ℕ → ℕ) → ℕ → ℕ
behind off base i = base (off + i)

abbrev pub put_back : ℕ → (ℕ → ℕ) → (ℕ → ℕ) → ℕ → ℕ
put_back off base buf i = if ltb i off then base i else buf (i - off)

module _ (T : Tables) where
  -- One weight: it is skipped without a view or a file.
  unfoldable pub read_weight : DenseInfo → DenseInfo → (ℕ → ℕ) × ℕ → (ℕ → ℕ) × ℕ
  unfolding dense_read_range
  read_weight m v (base, n) =
      if not (m.valid && v.present) || not (T.fd_open m.file_idx) then (base, n) else (
        put_back v.arena_off base
            (dense_read_range (T.files m.file_idx) (T.pread m.file_idx) m.file_offset m.bytes
              T.dn_th (behind v.arena_off base)).0,
        (n + m.bytes) % 2 ^ 64,
      )

  unfoldable pub read_weights : List DenseInfo → List DenseInfo → (ℕ → ℕ) × ℕ → (ℕ → ℕ) × ℕ
  unfolding read_weight
  read_weights [] vs x = x
  read_weights (m ∷ ms) [] x = x
  read_weights (m ∷ ms) (v ∷ vs) x = read_weights ms vs (read_weight m v x)

  module _ (D : Doubles) where
    open D use {Double, add, sub}

    -- `dt` is the time that the reads took.
    unfoldable pub fill_layer :
        ℕ → ℕ → List DenseInfo → List DenseInfo → Double → Dense Double → Dense Double
    unfolding read_weights
    fill_layer il bi ms vs dt st =
        let (content, n) = read_weights ms vs (st.host bi, st.read_bytes) in
        record st {
          host = update st.host bi content;
          read_bytes = n;
          resident = update st.resident bi (pos il);
          loads = inc64 st.loads;
          t_read = add st.t_read dt;
        }

    unfoldable pub fill_found :
        ℕ
        → ℕ
        → Option (List DenseInfo)
        → Option (List DenseInfo)
        → Double
        → Dense Double
        → Dense Double
    unfolding fill_layer
    fill_found il bi (some ms) (some vs) dt st =
        if not (st.has_host bi) then st else fill_layer il bi ms vs dt st
    fill_found il bi (some ms) none dt st = st
    fill_found il bi none vs dt st = st

    unfoldable pub dense_load_layer : ℕ → Double → Dense Double → Dense Double
    unfolding fill_found
    dense_load_layer il dt st =
        let bi = il % st.dn_nbuf in
        if not st.dn_ready
        then st
        else if is_layer (st.resident bi) il
        then record st { hits = inc64 st.hits }
        else fill_found il bi (T.meta il) (T.view il) dt st

    abbrev pub join_load : Option ℕ → Double → Dense Double → Dense Double
    join_load (some il) dt st = dense_load_layer il dt st
    join_load none dt st = st

    unfoldable pub dn_wait : Double → Dense Double → Dense Double
    dn_wait dt st = record (join_load st.dn_thread dt st) {
      dn_inflight = negsuc 0;
      dn_thread = none;
    }

    unfoldable pub dn_kick : ℕ → Double → Dense Double → Dense Double
    unfolding dn_wait
    dn_kick il dt st =
        if not st.dn_ready || ltb st.dn_nbuf 2
        then st
        else if not (streamed T.dn_first il) || not (ltb_ℤ (pos il) T.dn_nlayer)
        then st
        else record (dn_wait dt st) { dn_inflight = pos il; dn_thread = some il }

    abbrev pub count_dn_hit : Bool → Dense Double → Dense Double
    count_dn_hit mine st =
        if mine
        then record st { pf_hit = inc64 st.pf_hit }
        else record st { pf_miss = inc64 st.pf_miss }

    -- The part of `ms_dnload_fn` on the arenas; the hidden state is copied by the caller.
    unfoldable pub ms_dnload_fn : ℕ → Double → Double → Dense Double → Dense Double
    unfolding dn_wait dn_kick dense_load_layer
    ms_dnload_fn ud there here st =
        let il = ud % 2 ^ 16 in
        if not st.dn_ready
        then st
        else dn_kick (il + 1) here (
            count_dn_hit (is_layer st.dn_inflight il) (dense_load_layer il here (dn_wait there st)))
