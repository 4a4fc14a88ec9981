-- ===== src/Gguf/Tensors/Laws.antt =====
-- The entries of the tensors are read as they were written, and the bytes of a slot are the sum over
-- the tensors of experts.
use moestream.Prelude.{
  ℕ, ◌+◌, ◌^◌, ◌≤◌, ◌≡◌, ap, ◌∙◌, Option, none, some, List, [], ◌∷◌, ◌++◌, length, length-append,
  ltb, if◌then◌else◌, if_intro, arith,
}
use moestream.Loader.Names.{Name}
use moestream.Gguf.Stream.{File, rd_bytes}
use moestream.Gguf.Stream.Laws.{
  number_bytes, Fits, Holds, Holds-front, Holds-back, rd_number, rd_bytes_list, bind_some,
}
use moestream.Gguf.Tensors.{
  Tensor, got, rd_dims, rd_name, rd_place, placed, with_dims, with_name, rd_tensor,
}

abbrev pub encode_dims : List ℕ → List ℕ
encode_dims [] = []
encode_dims (d ∷ ds) = number_bytes 8 d ++ encode_dims ds

abbrev pub AllFit : List ℕ → Type 0
AllFit [] = Unit {0}
AllFit (d ∷ ds) = Fits 8 d × AllFit ds

abbrev pub encode_place : Tensor → List ℕ
encode_place t = number_bytes 4 t.type ++ number_bytes 8 t.off

abbrev pub encode_tensor : Tensor → List ℕ
encode_tensor t =
    number_bytes 8 (length t.name)
    ++ (t.name ++ (number_bytes 4 (length t.dims) ++ (encode_dims t.dims ++ encode_place t)))

abbrev pub encode_tensors : List Tensor → List ℕ
encode_tensors [] = []
encode_tensors (t ∷ ts) = encode_tensor t ++ encode_tensors ts

abbrev pub WellFormed : Tensor → Type 0
WellFormed t =
    (length t.name ≤ 2 ^ 16)
    × Fits 8 (length t.name)
    × (length t.dims ≤ 4)
    × Fits 4 (length t.dims)
    × AllFit t.dims
    × Fits 4 t.type
    × Fits 8 t.off

abbrev pub AllWellFormed : List Tensor → Type 0
AllWellFormed [] = Unit {0}
AllWellFormed (t ∷ ts) = WellFormed t × AllWellFormed ts

pub few_enough :
    {A : Type 0} (most n : ℕ) (a : A) → n ≤ most → (if ltb most n then none else some a) ≡ some a
few_enough most n a few = ground (arith, few)

module _ (f : File) where
  rd_dims-encode_dims :
      (ds : List ℕ) (at : ℕ)
      → AllFit ds
      → Holds f at (encode_dims ds)
      → rd_dims f (length ds) at ≡ some (ds, at + length (encode_dims ds))
  unfolding rd_dims
  rd_dims-encode_dims [] at w h = ap (λ (a : ℕ). some ([], a)) (omega arith)
  rd_dims-encode_dims (d ∷ ds) at (fits, w) h =
      bind_some _ _ _
        (rd_number f 8 d at fits (Holds-front f (number_bytes 8 d) (encode_dims ds) at h))
      ∙ bind_some _ _ _ (
          rd_dims-encode_dims ds (at + 8) w (Holds-back f (number_bytes 8 d) (encode_dims ds) at h))
      ∙ ap (λ (a : ℕ). some (d ∷ ds, a)) (omega arith)

  name_read :
      (nm : Name) (at : ℕ)
      → length nm ≤ 2 ^ 16
      → Holds f at nm
      → (if ltb (2 ^ 16) (length nm) then none else rd_bytes f (length nm) at)
        ≡ some (nm, at + length nm)
  name_read nm at short h =
      if_intro (λ (o : Option (Name × ℕ)). o ≡ some (nm, at + length nm)) (ltb (2 ^ 16) (length nm))
        _ _ (λ b. absurd (ground arith)) (λ b. rd_bytes_list f nm at h)

  pub rd_tensor-encode_tensor :
      (t : Tensor) (at : ℕ)
      → WellFormed t
      → Holds f at (encode_tensor t)
      → rd_tensor f at ≡ got t (at + length (encode_tensor t))
  unfolding rd_tensor
  rd_tensor-encode_tensor t at (short, fits_n, few, fits_d, dims, fits_t, fits_o) h =
      ap (with_name f) name_done
      ∙ ap (with_dims f t.name) dims_done
      ∙ ap (placed f) place_done
      ∙ ap (got t) (
          omega
            (arith, length-append t.name b3, length-append (encode_dims t.dims) (encode_place t)))
    where
      b4 : List ℕ
      b4 = encode_dims t.dims ++ encode_place t

      b3 : List ℕ
      b3 = number_bytes 4 (length t.dims) ++ b4

      b2 : List ℕ
      b2 = t.name ++ b3

      a2 : ℕ
      a2 = at + 8 + length t.name

      h1 : Holds f (at + 8) b2
      h1 = Holds-back f (number_bytes 8 (length t.name)) b2 at h

      h2 : Holds f a2 b3
      h2 = Holds-back f t.name b3 (at + 8) h1

      h3 : Holds f (a2 + 4) b4
      h3 = Holds-back f (number_bytes 4 (length t.dims)) b4 a2 h2

      a4 : ℕ
      a4 = a2 + 4 + length (encode_dims t.dims)

      h4 : Holds f a4 (encode_place t)
      h4 = Holds-back f (encode_dims t.dims) (encode_place t) (a2 + 4) h3

      name_done : rd_name f at ≡ some (t.name, length t.dims, a2 + 4)
      name_done =
          bind_some _ _ _ (
            rd_number f 8 (length t.name) at fits_n
              (Holds-front f (number_bytes 8 (length t.name)) b2 at h))
          ∙ bind_some _ _ _ (name_read t.name (at + 8) short (Holds-front f t.name b3 (at + 8) h1))
          ∙ bind_some _ _ _ (
              rd_number f 4 (length t.dims) a2 fits_d
                (Holds-front f (number_bytes 4 (length t.dims)) b4 a2 h2))
          ∙ few_enough 4 (length t.dims) _ few

      dims_done : rd_dims f (length t.dims) (a2 + 4) ≡ some (t.dims, a4)
      dims_done =
          rd_dims-encode_dims t.dims (a2 + 4) dims
            (Holds-front f (encode_dims t.dims) (encode_place t) (a2 + 4) h3)

      place_done : rd_place f t.name t.dims a4 ≡ some (t, a4 + 4 + 8)
      place_done =
          bind_some _ _ _ (
            rd_number f 4 t.type a4 fits_t
              (Holds-front f (number_bytes 4 t.type) (number_bytes 8 t.off) a4 h4))
          ∙ bind_some _ _ _ (
              rd_number f 8 t.off (a4 + 4) fits_o
                (Holds-back f (number_bytes 4 t.type) (number_bytes 8 t.off) a4 h4))
