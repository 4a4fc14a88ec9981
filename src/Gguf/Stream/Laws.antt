-- ===== src/Gguf/Stream/Laws.antt =====
-- Numbers and bytes are read as they were written.
use moestream.Prelude.{
  ℕ, zero, suc, ◌+◌, ◌/◌, ◌%◌, ◌≤◌, ◌≡◌, refl, sym, ap, ◌∙◌, subst, Option, some, List, [], ◌∷◌,
  ◌++◌, length, arith,
}
use moestream.Gguf.Stream.{File, ◌>>=◌, number_at, bytes_at, rd, rd_bytes, magic, read_header}

pub bind_some :
    {A B : Type 0} (g : A → Option B) (o : Option A) (a : A) → o ≡ some a → (o >>= g) ≡ g a
bind_some {A} g o a h = ap (λ (x : Option A). x >>= g) h

-- `n` bytes of a number, the lowest first.
abbrev pub number_bytes : ℕ → ℕ → List ℕ
number_bytes zero v = []
number_bytes (suc n) v = v % 256 ∷ number_bytes n (v / 256)

-- The number has at most `n` bytes.
abbrev pub Fits : ℕ → ℕ → Type 0
Fits zero v = v ≡ 0
Fits (suc n) v = Fits n (v / 256)

pub length-number_bytes : (n v : ℕ) → length (number_bytes n v) ≡ n
length-number_bytes zero v = refl
length-number_bytes (suc n) v = omega (arith, length-number_bytes n (v / 256))

module _ (f : File) where
  -- The bytes stand in the file from `at` on.
  abbrev pub Holds : ℕ → List ℕ → Type 0
  Holds at [] = at ≤ f.size
  Holds at (x ∷ xs) = (f.byte at ≡ x) × Holds (at + 1) xs

  pub Holds-inside : (xs : List ℕ) (at : ℕ) → Holds at xs → at + length xs ≤ f.size
  Holds-inside [] at h = omega (arith, h)
  Holds-inside (x ∷ xs) at (e, h) = omega (arith, Holds-inside xs (at + 1) h)

  pub Holds-front : (xs ys : List ℕ) (at : ℕ) → Holds at (xs ++ ys) → Holds at xs
  Holds-front [] ys at h = omega (arith, Holds-inside ys at h)
  Holds-front (x ∷ xs) ys at (e, h) = (e, Holds-front xs ys (at + 1) h)

  pub Holds-back : (xs ys : List ℕ) (at : ℕ) → Holds at (xs ++ ys) → Holds (at + length xs) ys
  Holds-back [] ys at h = subst (λ (a : ℕ). Holds a ys) (omega arith) h
  Holds-back (x ∷ xs) ys at (e, h) =
      subst (λ (a : ℕ). Holds a ys) (omega arith) (Holds-back xs ys (at + 1) h)

  pub number_at-number_bytes :
      (n v at : ℕ) → Fits n v → Holds at (number_bytes n v) → number_at f n at ≡ v
  unfolding number_at
  number_at-number_bytes zero v at q h = sym q
  number_at-number_bytes (suc n) v at q (e, h) =
      omega (arith, e, number_at-number_bytes n (v / 256) (at + 1) q h)

  pub bytes_at-Holds : (xs : List ℕ) (at : ℕ) → Holds at xs → bytes_at f (length xs) at ≡ xs
  unfolding bytes_at
  bytes_at-Holds [] at h = refl
  bytes_at-Holds (x ∷ xs) at (e, h) =
      ap (◌∷ bytes_at f (length xs) (at + 1)) e ∙ ap (x ∷◌) (bytes_at-Holds xs (at + 1) h)

  pub rd_number :
      (n v at : ℕ) → Fits n v → Holds at (number_bytes n v) → rd f n at ≡ some (v, at + n)
  rd_number n v at q h =
      let inside = Holds-inside (number_bytes n v) at h in
      let long = length-number_bytes n v in
      let here = number_at-number_bytes n v at q h in ground (arith, inside, long, here)

  pub rd_bytes_list :
      (xs : List ℕ) (at : ℕ) → Holds at xs → rd_bytes f (length xs) at ≡ some (xs, at + length xs)
  rd_bytes_list xs at h = ground (arith, Holds-inside xs at h, bytes_at-Holds xs at h)

abbrev pub encode_header : ℕ → ℕ → ℕ → List ℕ
encode_header version n_tensor n_kv =
    number_bytes 4 magic
    ++ (number_bytes 4 version ++ (number_bytes 8 n_tensor ++ number_bytes 8 n_kv))

pub read_header-encode_header :
    (f : File) (version n_tensor n_kv : ℕ)
    → Fits 4 version
    → Fits 8 n_tensor
    → Fits 8 n_kv
    → Holds f 0 (encode_header version n_tensor n_kv)
    → read_header f ≡ some (n_tensor, n_kv, 24)
unfolding read_header
read_header-encode_header f version n_tensor n_kv v t k h =
    let b3 = number_bytes 8 n_tensor ++ number_bytes 8 n_kv in
    let b2 = number_bytes 4 version ++ b3 in
    let h1 = Holds-back f (number_bytes 4 magic) b2 0 h in
    let h2 = Holds-back f (number_bytes 4 version) b3 4 h1 in
    let h3 = Holds-back f (number_bytes 8 n_tensor) (number_bytes 8 n_kv) 8 h2 in
    bind_some _ _ _ (rd_number f 4 magic 0 refl (Holds-front f (number_bytes 4 magic) b2 0 h))
    ∙ bind_some _ _ _ (rd_number f 4 version 4 v (Holds-front f (number_bytes 4 version) b3 4 h1))
    ∙ bind_some _ _ _ (
        rd_number f 8 n_tensor 8 t
          (Holds-front f (number_bytes 8 n_tensor) (number_bytes 8 n_kv) 8 h2))
    ∙ bind_some _ _ _ (rd_number f 8 n_kv 16 k h3)
    ∙ refl
