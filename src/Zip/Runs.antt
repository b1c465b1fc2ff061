-- ===== src/Zip/Runs.antt =====
-- Runs, as the compressed format writes them.
use operating_systems_three.Prelude.{
  ℕ, zero, suc, ◌+◌, ◌/◌, ◌%◌, ◌^◌, ◌≡◌, ◌<◌, refl, sym, ap, ap₂, ◌∙◌, arith, List, [], ◌∷◌, ◌++◌,
  replicate, append_assoc,
}
use operating_systems_three.Zip.{int_bytes, bytes_int, rounds, unzip}

-- A run: how often, and which byte.
abbrev pub Run : Type 0
Run = ℕ × ℕ

unfoldable pub encode : List Run → List ℕ
encode [] = []
encode ((n, c) ∷ rs) = int_bytes n ++ c ∷ encode rs

abbrev pub expand : List Run → List ℕ
expand [] = []
expand ((n, c) ∷ rs) = replicate n c ++ expand rs

-- Every count fits a positive `int`.
abbrev pub Fit : List Run → Type 0
Fit [] = Unit
Fit ((n, c) ∷ rs) = (n < 2 ^ 31) × Fit rs

rounds-int :
    (n : ℕ)
    → n < 2 ^ 31
    → rounds (bytes_int (n % 256) (n / 256 % 256) (n / 65536 % 256) (n / 16777216 % 256)) ≡ n
unfolding rounds bytes_int
rounds-int n h = ground arith

-- `wunzip` expands the runs.
pub unzip-encode : (rs : List Run) → Fit rs → unzip (encode rs) ≡ expand rs
unfolding unzip encode int_bytes
unzip-encode [] h = refl
unzip-encode ((n, c) ∷ rs) h =
    ap₂ (λ k out. replicate k c ++ out) (rounds-int n h.0) (unzip-encode rs h.1)

pub encode-append : (rs ss : List Run) → encode (rs ++ ss) ≡ encode rs ++ encode ss
unfolding encode
encode-append [] ss = refl
encode-append ((n, c) ∷ rs) ss =
    ap (λ out. int_bytes n ++ c ∷ out) (encode-append rs ss)
    ∙ sym (append_assoc (int_bytes n) (c ∷ encode rs) (encode ss))

pub expand-append : (rs ss : List Run) → expand (rs ++ ss) ≡ expand rs ++ expand ss
expand-append [] ss = refl
expand-append ((n, c) ∷ rs) ss =
    ap (λ out. replicate n c ++ out) (expand-append rs ss)
    ∙ sym (append_assoc (replicate n c) (expand rs) (expand ss))

pub Fit-append : (rs ss : List Run) → Fit rs → Fit ss → Fit (rs ++ ss)
Fit-append [] ss h k = k
Fit-append ((n, c) ∷ rs) ss h k = (h.0, Fit-append rs ss h.1 k)

pub replicate-snoc : (n c : ℕ) → replicate n c ++ c ∷ [] ≡ replicate (n + 1) c
replicate-snoc zero c = refl
replicate-snoc (suc n) c =
    let more : suc (n + 1) ≡ suc n + 1 = omega arith in
    ap (λ xs. c ∷ xs) (replicate-snoc n c) ∙ ap (λ k. replicate k c) more
