-- ===== src/Loader/Tables.antt =====
-- src/llama-moestream.cpp, what the loader's hooks register: the weights of the experts
-- (`register_slab`), those of the streamed dense layers (`dense_claim`, `register_dense`), and which
-- weights are not read at loading (`skip_load`). What the model's metadata says (`gguf_nexpert`,
-- `gguf_nlayer`, `gguf_scan_streamable`) and what the device reports are arguments.
pub mod Laws
pub mod Claim
use moestream.Prelude.{
  ℕ, ◌+◌, ◌*◌, ◌%◌, ◌^◌, Bool, true, false, not, ◌&&◌, ◌||◌, Option, none, some, List, [], ◌∷◌,
  ◌++◌, ltb, leb, ◌==◌, if◌then◌else◌,
}
use moestream.Prelude.Int.{ℤ, pos, negsuc, pos_part, ltb_ℤ}
use moestream.Cache.Doubles.{Doubles}
use moestream.Io.Read.{SlabInfo}
use moestream.Dense.Info.{DenseInfo}
use moestream.Dense.Layout.{DenseLayer}
use moestream.Loader.Names.{Name, same_text, parse_name, parse_dense_any}
use moestream.Loader.Map.{lookup, put}

pub record LayerSlabs : Type 0 where
  pub gate : SlabInfo
  pub up : SlabInfo
  pub down : SlabInfo
  pub ready : Bool

abbrev pub no_slab : SlabInfo
no_slab = record { present = false; file_offset = 0; expert_bytes = 0; n_expert = 0; file_idx = 0 }

abbrev pub no_slabs : LayerSlabs
no_slabs = record { gate = no_slab; up = no_slab; down = no_slab; ready = false }

-- `m[k]`, which makes an entry if there is none.
abbrev pub entry_or {ℓ} : {A : Type ℓ} → A → Option A → A
entry_or d (some x) = x
entry_or d none = d

-- `(uint16_t)(file_idx < 0 ? 0 : file_idx)`.
abbrev pub file_number : ℤ → ℕ
file_number i = pos_part i % 2 ^ 16

abbrev pub set_role : ℕ → SlabInfo → LayerSlabs → LayerSlabs
set_role role si l =
    if role == 0
    then record l { gate = si }
    else if role == 1
    then record l { up = si }
    else record l { down = si }

abbrev pub note_ready : LayerSlabs → LayerSlabs
note_ready l = record l { ready = l.gate.present && (l.up.present && l.down.present) }

abbrev pub put_slab : Option (ℤ × ℕ) → SlabInfo → List (ℤ × LayerSlabs) → List (ℤ × LayerSlabs)
put_slab (some (il, role)) si layers =
    put il (note_ready (set_role role si (entry_or no_slabs (lookup il layers)))) layers
put_slab none si layers = layers

-- `si` has the arguments of the call, its file number by `file_number`.
unfoldable pub register_slab :
    Bool → Name → SlabInfo → List (ℤ × LayerSlabs) → List (ℤ × LayerSlabs)
register_slab enabled name si layers =
    if not enabled then layers else put_slab (parse_name name) si layers

abbrev pub put_dense : Option (ℤ × ℕ) → DenseInfo → List (ℤ × DenseLayer) → List (ℤ × DenseLayer)
put_dense (some (il, role)) di meta =
    let l = entry_or (record { w = []; ready = false }) (lookup il meta) in
    put il (record { w = l.w ++ (record di { valid = true; role = pos role } ∷ []); ready = true })
      meta
put_dense none di meta = meta

-- `di` has the arguments of the call; `least` is `g_dn_min_bytes`.
unfoldable pub register_dense : ℕ → Name → DenseInfo → List (ℤ × DenseLayer) → List (ℤ × DenseLayer)
register_dense least name di meta = put_dense (parse_dense_any least name di.bytes) di meta

-- The state of the split: undecided while `dn_nlayer` is 0, off if it is negative.
pub record Split (F : Type 0) : Type 0 where
  pub dn_nlayer : ℤ
  pub dn_first : ℤ
  pub dn_frac : F
  pub dn_seen : Bool
  pub claimed : List Name

-- What the decision reads: the metadata, the sizes of the files (in GiB), and the device.
pub record Budget (F : Type 0) : Type 0 where
  pub nexpert : ℤ
  pub nlayer : ℤ
  pub dn_auto : Bool
  pub dn_nbuf : ℕ
  pub scan_total : ℕ
  pub file_gib : F
  pub have_mem : Bool
  pub dev_t : F
  pub dev_u : F
  pub reserve : F

abbrev pub has_name : Name → List Name → Bool
has_name n [] = false
has_name n (x ∷ xs) = if same_text x n then true else has_name n xs

abbrev pub insert_name : Name → List Name → List Name
insert_name n xs = if has_name n xs then xs else n ∷ xs

module _ (D : Doubles) where
  open D use {Double, from_nat, half, add, sub, mul, div, le, lt, to_int64}

  abbrev pub gib : Double
  gib = from_nat 1073741824

  -- The share of the FFN that stays resident, decided from the memory.
  unfoldable pub auto_frac : Budget Double → ℕ → Double
  auto_frac b nbytes =
      let nl = from_nat (pos_part b.nlayer) in
      let ffn_gib =
        if not (b.scan_total == 0)
        then div (from_nat b.scan_total) gib
        else div (mul (mul (from_nat 3) nl) (from_nat nbytes)) gib in
      let rest = sub b.file_gib ffn_gib in
      let nonffn_gib = if lt (from_nat 0) rest then rest else from_nat 0 in
      let layer_gib = div ffn_gib nl in
      let budget = if b.have_mem then sub (sub b.dev_t b.reserve) b.dev_u else from_nat 0 in
      let for_ffn = sub (sub budget nonffn_gib) (mul (from_nat b.dn_nbuf) layer_gib) in
      let share = div for_ffn ffn_gib in
      let low = if lt (from_nat 1) share then from_nat 1 else share in
      if b.have_mem && lt (from_nat 0) ffn_gib
      then if lt low (from_nat 0) then from_nat 0 else low
      else from_nat 1

  abbrev pub clamp : ℤ → ℤ → ℤ
  clamp top k = if ltb_ℤ k (pos 0) then pos 0 else if ltb_ℤ top k then top else k

  abbrev pub off : Split Double → Split Double
  off s = record s { dn_nlayer = negsuc 0 }

  -- The first streamed layer, of `frac`.
  abbrev pub split_at : ℤ → Double → Split Double → Split Double
  split_at nl frac s = record s {
    dn_nlayer = nl;
    dn_frac = frac;
    dn_first = clamp nl (to_int64 (add (mul frac (from_nat (pos_part nl))) half));
  }

  -- The body of `if (g_dn_nlayer == 0)`.
  unfoldable pub decide_split : Budget Double → ℕ → Split Double → Split Double
  unfolding auto_frac
  decide_split b nbytes s =
      let frac = if b.dn_auto then auto_frac b nbytes else s.dn_frac in
      if ltb_ℤ (pos 0) b.nexpert
      then off s
      else if not (ltb_ℤ (pos 0) b.nlayer)
      then off s
      else if le (from_nat 1) frac
      then off (record s { dn_frac = frac })
      else split_at b.nlayer frac s

  abbrev pub streams : ℤ → ℤ → Bool
  streams first il = not (ltb_ℤ first (pos 0)) && not (ltb_ℤ il first)

  unfoldable pub claim_in : ℤ → Name → Split Double → Split Double × Bool
  claim_in il name s =
      if ltb_ℤ s.dn_nlayer (pos 0)
      then (s, false)
      else if not (streams s.dn_first il)
      then (s, false)
      else (record s { dn_seen = true; claimed = insert_name name s.claimed }, true)

  abbrev pub is_zero : ℤ → Bool
  is_zero (pos n) = n == 0
  is_zero (negsuc n) = false

  unfoldable pub claim_parsed :
      Budget Double → Option (ℤ × ℕ) → Name → ℕ → Split Double → Split Double × Bool
  unfolding decide_split claim_in
  claim_parsed b (some (il, role)) name nbytes s =
      claim_in il name (if is_zero s.dn_nlayer then decide_split b nbytes s else s)
  claim_parsed b none name nbytes s = (s, false)

  unfoldable pub dense_claim :
      Bool → ℕ → Budget Double → Name → ℕ → ℕ → Split Double → Split Double × Bool
  unfolding claim_parsed
  dense_claim enabled least b name n_dims nbytes s =
      if not enabled
      then (s, false)
      else if not (n_dims == 2)
      then (s, false)
      else claim_parsed b (parse_dense_any least name nbytes) name nbytes s

abbrev pub is_some {ℓ} : {A : Type ℓ} → Option A → Bool
is_some (some x) = true
is_some none = false

unfoldable pub skip_load : Bool → List Name → Name → Bool
skip_load enabled claimed name =
    if not enabled then false else if is_some (parse_name name) then true else has_name name claimed
