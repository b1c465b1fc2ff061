-- ===== src/Zip/Short.antt =====
-- `pzip` on a file with fewer bytes than there are processors.
use native.Mathlib.Nat.{div-add-mod}
use operating_systems_three.Prelude.{
  ℕ, zero, suc, ◌+◌, ◌-◌, ◌*◌, ◌/◌, ◌≡◌, ◌<◌, ◌^◌, ◌==◌, refl, sym, ap, ap₂, subst, ◌∙◌, arith,
  Bool, true, false, List, [], ◌∷◌, ◌++◌, some, replicate, append-nil, append_assoc, length,
  length-append, take, length-replicate, if◌then◌else◌,
}
use operating_systems_three.Zip.{wunzip}
use operating_systems_three.Zip.Runs.{Run, encode, expand, unzip-encode}
use operating_systems_three.Zip.Parallel.{
  zip, part_start, part_end, Join, join_runs, join_parts, stay_inside, pzip_files, pzip,
}
use operating_systems_three.Zip.Chunks.{Joined, zip-expand, join_runs-Joined}
use operating_systems_three.Zip.Parts.{take-length, pzip_files-encode}

-- Where a file has fewer bytes than there are processors, each thread but the last reads the first
-- byte although its part is empty.
module _ (procs c : ℕ) (cs : List ℕ) (few : length (c ∷ cs) < procs) where
  abbrev txt : List ℕ
  txt = c ∷ cs

  no_share : length txt / procs ≡ 0
  no_share = grind (arith, div-add-mod (length txt) procs)

  short_part :
      (r j : ℕ)
      → j + suc (suc r) ≡ procs
      → zip txt (part_start procs (length txt) j) (part_end procs (length txt) j) ≡ (1, c) ∷ []
  unfolding zip
  short_part r j e =
      let not_last : (j == procs - 1) ≡ false = ground arith in
      let from : part_start procs (length txt) j ≡ 0 = ap (λ k. k * j) no_share ∙ omega arith in
      let to : part_end procs (length txt) j ≡ 0 =
        ap (λ (b : Bool). if b then length txt else length txt / procs * j + length txt / procs)
          not_last
        ∙ omega (arith, no_share, from) in
      ap₂ (λ a b. zip txt a b) from to

  last_part :
      (j : ℕ)
      → j + 1 ≡ procs
      → expand (zip txt (part_start procs (length txt) j) (part_end procs (length txt) j)) ≡ txt
  last_part j e =
      let last : (j == procs - 1) ≡ true = ground arith in
      let from : part_start procs (length txt) j ≡ 0 = ap (λ k. k * j) no_share ∙ omega arith in
      let to : part_end procs (length txt) j ≡ length txt =
        ap (λ (b : Bool). if b then length txt else length txt / procs * j + length txt / procs)
          last in
      let whole : length txt - 0 ≡ length txt = omega arith in
      ap₂ (λ a b. expand (zip txt a b)) from to
      ∙ (zip-expand txt 0 (length txt) (omega arith) (omega arith)).0
      ∙ ap (λ k. take k txt) whole
      ∙ take-length txt

  short_parts-Joined :
      (r j : ℕ) (m : Join) (bs : List ℕ)
      → j + suc r ≡ procs
      → length bs + suc r + length txt < 2 ^ 31
      → Joined m bs
      → Joined (join_parts (suc r) j procs txt m) (bs ++ (replicate r c ++ txt))
  unfolding join_parts
  short_parts-Joined zero j m bs e h g =
      let last = last_part j (omega arith) in
      subst (λ xs. Joined (join_parts 1 j procs txt m) (bs ++ xs)) last
        (join_runs-Joined
          (zip txt (part_start procs (length txt) j) (part_end procs (length txt) j)) m bs
          (omega (arith, ap length last)) g)
  short_parts-Joined (suc r) j m bs e h g =
      let one : List Run = (1, c) ∷ [] in
      let m' =
        join_runs (zip txt (part_start procs (length txt) j) (part_end procs (length txt) j)) m in
      let g' : Joined m' (bs ++ c ∷ []) =
        subst (λ rs. Joined (join_runs rs m) (bs ++ c ∷ [])) (sym (short_part r j (omega arith)))
          (join_runs-Joined one m bs (omega arith) g) in
      subst (Joined (join_parts (suc r) (j + 1) procs txt m'))
        (append_assoc bs (c ∷ []) (replicate r c ++ txt))
        (short_parts-Joined r (j + 1) m' (bs ++ c ∷ []) (omega arith)
          (omega (arith, length-append bs (c ∷ []))) g')

-- On a file that is not empty but has fewer bytes than there are processors, the output of `pzip`
-- stands for the file with its first byte repeated once more for every processor but one, if this
-- makes fewer than 2 ^ 31 bytes and no thread leaves its arrays: `wunzip` does not give the file back.
pub wunzip-pzip_short :
    (procs c : ℕ) (cs : List ℕ)
    → length (c ∷ cs) < procs
    → procs + length (c ∷ cs) < 2 ^ 31
    → stay_inside procs 0 procs (c ∷ cs) ≡ true
    → (out : List ℕ) × (pzip procs (some (c ∷ cs) ∷ []) ≡ some (record { status = 0; out = out }))
      × (wunzip (some out ∷ []) ≡ record { status = 0; out = replicate (procs - 1) c ++ c ∷ cs })
unfolding pzip pzip_files wunzip encode
wunzip-pzip_short procs c cs few h inside =
    let txt = c ∷ cs in
    let m : Join = record { out = []; old_char = 0xEF; old_count = 0 } in
    let start : Joined m [] = record {
      runs = [];
      written = refl;
      fit = tt;
      means = refl;
      bound = omega arith;
    } in
    let all : suc (procs - 1) ≡ procs = omega arith in
    let read : List ℕ = replicate (procs - 1) c ++ txt in
    let joined : Joined (join_parts procs 0 procs txt m) read =
      subst (λ k. Joined (join_parts k 0 procs txt m) read) all
        (short_parts-Joined procs c cs few (procs - 1) 0 m [] (omega arith) (omega arith) start) in
    let (rs, run, fit, means) =
      pzip_files-encode procs (omega arith) [] (join_parts procs 0 procs txt m) read
        (omega (arith, length-append (replicate (procs - 1) c) txt, length-replicate (procs - 1) c))
        tt tt joined in
    (
      encode rs,
      rw (inside, pzip_files) run,
      ap (λ out. record { status = 0; out = out }) (unzip-encode rs fit ∙ means ∙ append-nil read),
    )
