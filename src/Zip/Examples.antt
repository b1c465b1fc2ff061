-- ===== src/Zip/Examples.antt =====
-- The compressors at concrete files.
use operating_systems_three.Prelude.{ℕ, ◌≡◌, refl, arith, List, [], ◌∷◌, some}
use operating_systems_three.Zip.{wzip, wunzip}
use operating_systems_three.Zip.RoundTrip.{wunzip-wzip}
use operating_systems_three.Zip.Parallel.{stay_inside, pzip}
use operating_systems_three.Zip.Parts.{AllInside, wunzip-pzip}

-- A run may go on over the end of a line and of a file.
abbrev one : List ℕ
one = 97 ∷ 97 ∷ 10 ∷ 10 ∷ 98 ∷ []

abbrev two : List ℕ
two = 98 ∷ 98 ∷ []

zipped :
    (wzip 0 (some one ∷ some two ∷ [])).out
    ≡ 2 ∷ 0 ∷ 0 ∷ 0 ∷ 97 ∷ 2 ∷ 0 ∷ 0 ∷ 0 ∷ 10 ∷ 3 ∷ 0 ∷ 0 ∷ 0 ∷ 98 ∷ []
unfolding wzip
zipped = refl

-- A run of no bytes, of the byte that happens to be in `curr`.
zipped_empty : (junk : ℕ) → (wzip junk (some [] ∷ [])).out ≡ 0 ∷ 0 ∷ 0 ∷ 0 ∷ junk ∷ []
unfolding wzip
zipped_empty junk = refl

piped :
    pzip 2 (some one ∷ some two ∷ [])
    ≡ some (record { status = 0; out = (wzip 0 (some one ∷ some two ∷ [])).out })
unfolding wzip pzip
piped = refl

wunzip-wzip_example :
    ((wzip 7 (some one ∷ some two ∷ [])).status ≡ 0)
    × (wunzip (some (wzip 7 (some one ∷ some two ∷ [])).out ∷ [])
        ≡ record { status = 0; out = 97 ∷ 97 ∷ 10 ∷ 10 ∷ 98 ∷ 98 ∷ 98 ∷ [] })
wunzip-wzip_example = wunzip-wzip 7 one (two ∷ []) (omega arith) (omega arith)

both-Inside : AllInside 2 (one ∷ two ∷ [])
unfolding stay_inside
both-Inside = (refl, (refl, tt))

wunzip-pzip_example :
    (out : List ℕ) × (pzip 2 (some one ∷ some two ∷ []) ≡ some (record { status = 0; out = out }))
    × (wunzip (some out ∷ []) ≡ record { status = 0; out = 97 ∷ 97 ∷ 10 ∷ 10 ∷ 98 ∷ 98 ∷ 98 ∷ [] })
wunzip-pzip_example =
    wunzip-pzip 2 one (two ∷ []) (omega arith) (omega arith) (omega arith) both-Inside
