-- ===== src/Finalize/Arena.antt =====
-- src/llama-moestream.cpp, `finalize`: the arenas of the prefill path. One arena holds one layer; it
-- is sized by the largest one. What the host library allocates is an argument, and whether the
-- tensors can be made in the arenas.
pub mod Laws
pub mod Setup
use moestream.Prelude.{
  ℕ, zero, suc, ◌+◌, ◌-◌, ◌*◌, ◌%◌, ◌^◌, Bool, true, false, not, ◌&&◌, List, [], ◌∷◌, ltb, leb,
  ◌==◌, if◌then◌else◌,
}
use moestream.Prelude.Int.{ℤ, pos, negsuc, pos_part, ltb_ℤ}
use moestream.Io.Read.{SlabInfo}
use moestream.Loader.Tables.{LayerSlabs}
use moestream.Dense.Layout.{page_up}
use moestream.Prefill.State.{Prefill}

-- `expert_bytes * n_expert`.
abbrev pub slab_bytes : SlabInfo → ℕ
slab_bytes si = (si.expert_bytes * si.n_expert) % 2 ^ 64

abbrev pub all_slabs : LayerSlabs → ℕ
all_slabs l =
    let two = (slab_bytes l.gate + slab_bytes l.up) % 2 ^ 64 in (two + slab_bytes l.down) % 2 ^ 64

unfoldable pub largest : ℕ → List (ℤ × LayerSlabs) → ℕ
largest most [] = most
largest most ((il, l) ∷ layers) =
    largest (if ltb most (all_slabs l) then all_slabs l else most) layers

-- `g_arena_bytes`.
unfoldable pub arena_bytes : List (ℤ × LayerSlabs) → ℕ
unfolding largest
arena_bytes layers = page_up (largest 0 layers)

-- A member in an arena.
pub record Place : Type 0 where
  pub slab : SlabInfo
  pub arena_off : ℕ

pub record Places : Type 0 where
  pub gate : Place
  pub up : Place
  pub down : Place

abbrev pub place_layer : LayerSlabs → Places
place_layer l =
    let up_off = slab_bytes l.gate in
    let down_off = (up_off + slab_bytes l.up) % 2 ^ 64 in
    record {
      gate = record { slab = l.gate; arena_off = 0 };
      up = record { slab = l.up; arena_off = up_off };
      down = record { slab = l.down; arena_off = down_off };
    }

-- `g_full`.
unfoldable pub place_layers : List (ℤ × LayerSlabs) → List (ℤ × Places)
place_layers [] = []
place_layers ((il, l) ∷ layers) = (il, place_layer l) ∷ place_layers layers

-- What the host library answers: whether the device's buffers can be used at all, whether the `i`-th
-- arena is allocated, whether it has a host pointer, and whether the tensors can be made.
pub record Host : Type 0 where
  pub vulkan : Bool
  pub zerocopy : Bool
  pub buft : Bool
  pub alloc : ℕ → Bool
  pub host_ptr : ℕ → Bool
  pub tensors : Bool

-- `ok`, `g_pf_nbuf` and the number of arenas after the loop, from arena `i` on, with `k` to go.
unfoldable pub alloc_arenas : Host → ℕ → ℕ → ℕ → Bool × ℕ × ℕ
alloc_arenas h zero i nbuf = (true, nbuf, i)
alloc_arenas h (suc k) i nbuf =
    let rest = alloc_arenas h k (i + 1) nbuf in
    if not (h.alloc i)
    then if leb 1 i then (true, i, i) else (false, nbuf, i)
    else if not (h.host_ptr i)
    then (false, nbuf, i)
    else rest

module _ {F W : Type 0} where
  -- The vectors are made anew; all arenas are given back if something failed.
  abbrev pub with_arenas : ℕ → Bool → Bool × ℕ × ℕ → Prefill F W → Prefill F W
  with_arenas n_union tensors (ok, nbuf, n) st = record st {
    pf_ready = ok && tensors;
    pf_nbuf = nbuf;
    n_arena = if ok && tensors then n else 0;
    arena_layer = λ b. negsuc 0;
    arena_have = λ b e. false;
    n_union = n_union;
    prev_union = λ il. record { size = 0; mark = λ e. false };
  }

  unfoldable pub setup_prefill : Host → List (ℤ × LayerSlabs) → ℕ → Prefill F W → Prefill F W
  unfolding alloc_arenas arena_bytes
  setup_prefill h layers n_union st =
      let start = h.buft && ltb 0 (arena_bytes layers) in
      if ltb_ℤ (pos 0) st.pf_threshold && (h.vulkan && h.zerocopy)
      then with_arenas (n_union) h.tensors
          (if start then alloc_arenas h st.pf_nbuf 0 st.pf_nbuf else (false, st.pf_nbuf, 0)) st
      else st
