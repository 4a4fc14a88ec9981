-- ===== src/Gguf/Tensors/Scan/Laws.antt =====
-- The bytes are claimed tensor by tensor: the total is their sum, and the largest layer is at least
-- the sum over each layer.
use moestream.Prelude.{
  ℕ, ◌+◌, ◌-◌, ◌^◌, ◌%◌, ◌<◌, ◌≡◌, refl, sym, ap, ◌∙◌, subst, Bool, true, false, Option, none, some,
  List, [], ◌∷◌, ◌++◌, length, leb, ◌==◌, if◌then◌else◌, Bool-cases, inl, inr, arith,
}
use moestream.Prelude.Int.{ℤ}
use moestream.Loader.Names.{parse_dense_any}
use moestream.Loader.Map.{same_key, same_key-eq}
use moestream.Gguf.Tensors.{Tensor, c_str}
use moestream.Gguf.Tensors.Scan.{
  Scan, bytes_in_layer, end_of, claim_bytes, claim_if, add_entry, add_entries,
}
use moestream.Gguf.Tensors.Scan.PerLayer.{
  AllBelow, AllBelow-le, put-AllBelow, bytes_in_layer-le, bytes_in_layer-put,
}

abbrev pub claimed_by : Option (ℤ × ℕ) → ℕ → List (ℤ × ℕ)
claimed_by (some (il, role)) nb = (il, nb) ∷ []
claimed_by none nb = []

-- The layer of a tensor with its bytes, if the dense path would claim it.
abbrev pub claimed : ℕ → Tensor → ℕ → List (ℤ × ℕ)
claimed least e end =
    if leb end e.off
    then []
    else if length e.dims == 2
    then claimed_by (parse_dense_any least (c_str e.name) (end - e.off)) (end - e.off)
    else []

abbrev pub all_claimed : ℕ → ℕ → List Tensor → List (ℤ × ℕ)
all_claimed least fsz [] = []
all_claimed least fsz (e ∷ es) = claimed least e (end_of fsz es) ++ all_claimed least fsz es

abbrev pub sum : List (ℤ × ℕ) → ℕ
sum [] = 0
sum ((il, n) ∷ cl) = n + sum cl

abbrev pub layer_sum : ℤ → List (ℤ × ℕ) → ℕ
layer_sum il [] = 0
layer_sum il ((k, n) ∷ cl) = (if same_key k il then n else 0) + layer_sum il cl

pub sum-append : (a b : List (ℤ × ℕ)) → sum (a ++ b) ≡ sum a + sum b
sum-append [] b = omega arith
sum-append ((k, n) ∷ a) b = omega (arith, sum-append a b)

pub layer_sum-append :
    (il : ℤ) (a b : List (ℤ × ℕ)) → layer_sum il (a ++ b) ≡ layer_sum il a + layer_sum il b
layer_sum-append il [] b = omega arith
layer_sum-append il ((k, n) ∷ a) b = omega (arith, layer_sum-append il a b)

abbrev pub claim_all : List (ℤ × ℕ) → Scan → Scan
claim_all [] s = s
claim_all ((il, nb) ∷ cl) s = claim_all cl (claim_bytes il nb s)

pub claim_all-append :
    (a b : List (ℤ × ℕ)) (s : Scan) → claim_all (a ++ b) s ≡ claim_all b (claim_all a s)
claim_all-append [] b s = refl
claim_all-append ((k, n) ∷ a) b s = claim_all-append a b (claim_bytes k n s)

pub claim_all-total :
    (cl : List (ℤ × ℕ)) (s : Scan)
    → s.total < 2 ^ 64
    → (claim_all cl s).total ≡ (s.total + sum cl) % 2 ^ 64
claim_all-total [] s low = omega (arith, low)
claim_all-total ((il, nb) ∷ cl) s low =
    omega (arith, claim_all-total cl (claim_bytes il nb s) (omega arith))

layer_after :
    (same : Bool) (old new nb below : ℕ)
    → old < 2 ^ 64
    → new ≡ (if same then (old + nb) % 2 ^ 64 else old)
    → (new + below) % 2 ^ 64 ≡ (old + ((if same then nb else 0) + below)) % 2 ^ 64
layer_after true old new nb below low h = omega (arith, h)
layer_after false old new nb below low h = omega (arith, h)

layer_below :
    (same : Bool) (old nb : ℕ) → old < 2 ^ 64 → (if same then nb % 2 ^ 64 else old) < 2 ^ 64
layer_below true old nb low = omega arith
layer_below false old nb low = low

claim_bytes-layer :
    (il j : ℤ) (nb : ℕ) (s : Scan)
    → bytes_in_layer j (claim_bytes il nb s).per_layer ≡ (
        if same_key il j
        then (bytes_in_layer j s.per_layer + nb) % 2 ^ 64
        else bytes_in_layer j s.per_layer)
claim_bytes-layer il j nb s =
    bytes_in_layer-put il j ((bytes_in_layer il s.per_layer + nb) % 2 ^ 64) s.per_layer
    ∙ elim (Bool-cases (same_key il j)) [
      | inl q ↦
          ap
            (λ (k : ℤ).
              if same_key il j
              then (bytes_in_layer k s.per_layer + nb) % 2 ^ 64
              else bytes_in_layer j s.per_layer)
            (same_key-eq il j q)
      | inr q ↦
          ap
            (λ (b : Bool).
              if b
              then (bytes_in_layer il s.per_layer + nb) % 2 ^ 64
              else bytes_in_layer j s.per_layer)
            q
          ∙ sym (
              ap
                (λ (b : Bool).
                  if b
                  then (bytes_in_layer j s.per_layer + nb) % 2 ^ 64
                  else bytes_in_layer j s.per_layer)
                q)
    ]

pub claim_all-layer :
    (cl : List (ℤ × ℕ)) (s : Scan) (il : ℤ)
    → bytes_in_layer il s.per_layer < 2 ^ 64
    → bytes_in_layer il (claim_all cl s).per_layer
      ≡ (bytes_in_layer il s.per_layer + layer_sum il cl) % 2 ^ 64
claim_all-layer [] s il low = omega (arith, low)
claim_all-layer ((k, nb) ∷ cl) s il low =
    let new = claim_bytes-layer k il nb s in
    claim_all-layer cl (claim_bytes k nb s) il (
      subst (λ (n : ℕ). n < 2 ^ 64) (sym new)
        (layer_below (same_key k il) (bytes_in_layer il s.per_layer)
          (bytes_in_layer il s.per_layer + nb) low))
    ∙ layer_after (same_key k il) (bytes_in_layer il s.per_layer) _ nb (layer_sum il cl) low new

pub claim_all-AllBelow :
    (cl : List (ℤ × ℕ)) (s : Scan) (most : ℕ)
    → AllBelow most s.per_layer
    → AllBelow (most + sum cl) (claim_all cl s).per_layer
claim_all-AllBelow [] s most w = AllBelow-le most (most + 0) s.per_layer (omega arith) w
claim_all-AllBelow ((il, nb) ∷ cl) s most w =
    AllBelow-le (most + nb + sum cl) (most + (nb + sum cl))
      (claim_all cl (claim_bytes il nb s)).per_layer (omega arith)
      (claim_all-AllBelow cl (claim_bytes il nb s) (most + nb) (
        put-AllBelow il _ (most + nb) s.per_layer
          (omega (arith, bytes_in_layer-le il most s.per_layer w))
          (AllBelow-le most (most + nb) s.per_layer (omega arith) w)))

-- The loop over the entries.
entry_cases :
    (empty two : Bool) (layer : Option (ℤ × ℕ)) (nb : ℕ) (s : Scan)
    → (if empty then s else if two then claim_if layer nb s else s)
      ≡ claim_all (if empty then [] else if two then claimed_by layer nb else []) s
entry_cases true two layer nb s = refl
entry_cases false false layer nb s = refl
entry_cases false true none nb s = refl
entry_cases false true (some (il, role)) nb s = refl

add_entry-claimed :
    (least : ℕ) (e : Tensor) (end : ℕ) (s : Scan)
    → add_entry least e end s ≡ claim_all (claimed least e end) s
add_entry-claimed least e end s =
    entry_cases (leb end e.off) (length e.dims == 2)
      (parse_dense_any least (c_str e.name) (end - e.off)) (end - e.off) s

pub add_entries-all_claimed :
    (least fsz : ℕ) (es : List Tensor) (s : Scan)
    → add_entries least fsz es s ≡ claim_all (all_claimed least fsz es) s
unfolding add_entries
add_entries-all_claimed least fsz [] s = refl
add_entries-all_claimed least fsz (e ∷ es) s =
    ap (add_entries least fsz es) (add_entry-claimed least e (end_of fsz es) s)
    ∙ add_entries-all_claimed least fsz es (claim_all (claimed least e (end_of fsz es)) s)
    ∙ sym (claim_all-append (claimed least e (end_of fsz es)) (all_claimed least fsz es) s)
