-- ===== src/Zip/Parts.antt =====
-- The parts of the threads of `pzip` cover each file, and so its output stands for the files.
use native.Mathlib.Nat.{div-add-mod}
use operating_systems_three.Prelude.{
  ℕ, zero, suc, ◌+◌, ◌-◌, ◌*◌, ◌/◌, ◌≡◌, ◌≤◌, ◌<◌, ◌^◌, ◌==◌, refl, sym, ap, ap₂, subst, ◌∙◌, arith,
  true, false, Bool-cases, inl, inr, List, [], ◌∷◌, ◌++◌, some, map, replicate, append-nil,
  append_assoc, length, length-append, concat, take, drop, length-take, if◌then◌else◌, ltb,
}
use operating_systems_three.Zip.{wunzip}
use operating_systems_three.Zip.Runs.{Run, encode, expand, Fit, unzip-encode}
use operating_systems_three.Zip.Parallel.{
  zip, part_start, part_end, Join, join_runs, join_parts, stay_inside, pzip_files, pzip,
}
use operating_systems_three.Zip.Chunks.{Joined, flush-runs, zip-expand, join_runs-Joined}

-- Where thread `j` starts, and the end of the file for the last.
cut : ℕ → ℕ → ℕ → ℕ
cut procs len j = if j == procs then len else len / procs * j

module _ (procs len : ℕ) (some_procs : 0 < procs) (enough : procs ≤ len) where
  share_pos : 0 < len / procs
  share_pos = grind (arith, div-add-mod len procs)

  share_fits : len / procs * procs ≤ len
  share_fits = grind (arith, div-add-mod len procs)

  part_end-cut : (j : ℕ) → part_end procs len j ≡ cut procs len (j + 1)
  unfolding cut
  part_end-cut j = ground arith

  part_start-cut : (j : ℕ) → j < procs → part_start procs len j ≡ cut procs len j
  unfolding cut
  part_start-cut j h = ground arith

  cut-le : (j : ℕ) → j ≤ procs → cut procs len j ≤ len
  unfolding cut
  cut-le j h = elim (Bool-cases (j == procs)) [
    | inl e ↦ rw e (omega arith)
    | inr e ↦
        let below : len / procs * j ≤ len / procs * procs = grind arith in
        rw e (omega (arith, share_fits))
  ]

  cut-lt : (j : ℕ) → j < procs → cut procs len j < cut procs len (j + 1)
  unfolding cut
  cut-lt j h =
      let here : (j == procs) ≡ false = ground arith in
      let step : len / procs * (j + 1) ≡ len / procs * j + len / procs = omega arith in
      elim (Bool-cases (j + 1 == procs)) [
        | inl e ↦
            let last : j + 1 ≡ procs = ground arith in
            let all : len / procs * (j + 1) ≡ len / procs * procs =
              ap (λ k. len / procs * k) last in
            rw (here, e) (omega (arith, share_pos, share_fits))
        | inr e ↦ rw (here, e) (omega (arith, share_pos))
      ]

take-nil : (n : ℕ) → take {A = ℕ} n [] ≡ []
take-nil zero = refl
take-nil (suc n) = refl

take-add : (a b : ℕ) (xs : List ℕ) → take a xs ++ take b (drop a xs) ≡ take (a + b) xs
take-add zero b xs = let e : b ≡ 0 + b = omega arith in ap (λ k. take k xs) e
take-add (suc a) b [] = take-nil b ∙ sym (take-nil (suc a + b))
take-add (suc a) b (x ∷ xs) =
    let e : suc (a + b) ≡ suc a + b = omega arith in
    ap (λ ys. x ∷ ys) (take-add a b xs) ∙ ap (λ k. take k (x ∷ xs)) e

pub take-length : (xs : List ℕ) → take (length xs) xs ≡ xs
take-length [] = refl
take-length (x ∷ xs) = ap (λ ys. x ∷ ys) (take-length xs)

module _ (procs : ℕ) (some_procs : 0 < procs) (txt : List ℕ) (enough : procs ≤ length txt) where
  -- The piece of thread `j`, behind the pieces before it.
  zip_part :
      (j : ℕ)
      → j < procs
      → take (cut procs (length txt) j) txt
          ++ expand (zip txt (part_start procs (length txt) j) (part_end procs (length txt) j))
        ≡ take (cut procs (length txt) (j + 1)) txt
  zip_part j h =
      let len = length txt in
      let lo = cut procs len j in
      let hi = cut procs len (j + 1) in
      let lt = cut-lt procs len some_procs enough j h in
      let span : lo + (hi - lo) ≡ hi = omega arith in
      ap (λ xs. take lo txt ++ xs)
        (ap₂ (λ a b. expand (zip txt a b)) (part_start-cut procs len some_procs enough j h)
            (part_end-cut procs len some_procs enough j)
          ∙ (zip-expand txt lo hi lt (cut-le procs len some_procs enough (j + 1) (omega arith))).0)
      ∙ take-add lo (hi - lo) txt
      ∙ ap (λ k. take k txt) span

  cut_end : (j : ℕ) → j ≡ procs → take (cut procs (length txt) j) txt ≡ txt
  unfolding cut
  cut_end j e = let last : (j == procs) ≡ true = ground arith in rw last (take-length txt)

  join_parts-Joined :
      (r j : ℕ) (m : Join) (bs : List ℕ)
      → j + r ≡ procs
      → length bs + length txt < 2 ^ 31
      → Joined m (bs ++ take (cut procs (length txt) j) txt)
      → Joined (join_parts r j procs txt m) (bs ++ txt)
  unfolding join_parts
  join_parts-Joined zero j m bs e h g = rw (cut_end j (omega arith)) at g
  join_parts-Joined (suc r) j m bs e h g =
      let len = length txt in
      let front = take (cut procs len j) txt in
      let runs = zip txt (part_start procs len j) (part_end procs len j) in
      let piece = zip_part j (omega arith) in
      join_parts-Joined r (j + 1) (join_runs runs m) bs (omega arith) h (
        subst (Joined (join_runs runs m))
          (append_assoc bs front (expand runs) ∙ ap (λ xs. bs ++ xs) piece)
          (join_runs-Joined runs m (bs ++ front)
            (omega (
              arith,
              length-append bs front,
              length-append front (expand runs),
              ap length piece,
              length-take (cut procs len (j + 1)) txt,
            ))
            g))

abbrev pub AllAtLeast : ℕ → List (List ℕ) → Type 0
AllAtLeast n [] = Unit
AllAtLeast n (f ∷ fs) = (n ≤ length f) × AllAtLeast n fs

-- In no part of a file are there 1000000 runs of equal bytes or more.
abbrev pub AllInside : ℕ → List (List ℕ) → Type 0
AllInside procs [] = Unit
AllInside procs (f ∷ fs) = (stay_inside procs 0 procs f ≡ true) × AllInside procs fs

module _ (procs : ℕ) (some_procs : 0 < procs) where
  first_cut : (txt : List ℕ) (bs : List ℕ) → bs ++ take (cut procs (length txt) 0) txt ≡ bs
  unfolding cut
  first_cut txt bs =
      let first : (0 == procs) ≡ false = ground arith in
      let none_yet : length txt / procs * 0 ≡ 0 = omega arith in rw (first, none_yet, append-nil)

  pub pzip_files-encode :
      (fs : List (List ℕ)) (m : Join) (bs : List ℕ)
      → length bs + length (concat fs) < 2 ^ 31
      → AllAtLeast procs fs
      → AllInside procs fs
      → Joined m bs
      → (rs : List Run) × (pzip_files procs (map some fs) m
          ≡ some (record { status = 0; out = encode rs }))
        × Fit rs
        × (expand rs ≡ bs ++ concat fs)
  unfolding pzip_files
  pzip_files-encode [] m bs h large inside g = elim (Bool-cases (ltb 0 m.old_count)) [
    | inl e ↦
        let (out, fit, means) = flush-runs m bs g (omega arith) in
        (
          g.runs ++ (m.old_count, m.old_char) ∷ [],
          rw e (ap (λ o. some (record { status = 0; out = o })) out),
          fit,
          means ∙ sym (append-nil bs),
        )
    | inr e ↦
        let zeroth : 0 ≡ m.old_count = ground arith in
        (
          g.runs,
          rw e (ap (λ o. some (record { status = 0; out = o })) g.written),
          g.fit,
          sym (append-nil (expand g.runs))
              ∙ ap (λ k. expand g.runs ++ replicate k m.old_char) zeroth
              ∙ g.means
              ∙ sym (append-nil bs),
        )
  ]
  pzip_files-encode (f ∷ fs) m bs h large inside g =
      let start = subst (Joined m) (sym (first_cut f bs)) g in
      let g' =
        join_parts-Joined procs some_procs f large.0 procs 0 m bs (omega arith)
          (omega (arith, length-append f (concat fs))) start in
      let (rs, out, fit, means) =
        pzip_files-encode fs (join_parts procs 0 procs f m) (bs ++ f)
          (omega (arith, length-append bs f, length-append f (concat fs))) large.1 inside.1 g' in
      (rs, rw (inside.0, pzip_files) out, fit, means ∙ append_assoc bs f (concat fs))

-- `pzip` on at least one file, all of which can be opened, where every file has at least as many bytes
-- as there are processors, no thread finds 1000000 runs of equal bytes or more in its part, and there
-- are fewer than 2 ^ 31 bytes in all: it stays within its arrays, and `wunzip` turns its output back
-- into the contents of the files, one after the other; both programs end with status 0.
pub wunzip-pzip :
    (procs : ℕ) (f : List ℕ) (fs : List (List ℕ))
    → 0 < procs
    → length (concat (f ∷ fs)) < 2 ^ 31
    → AllAtLeast procs (f ∷ fs)
    → AllInside procs (f ∷ fs)
    → (out : List ℕ) × (pzip procs (map some (f ∷ fs)) ≡ some (record { status = 0; out = out }))
      × (wunzip (some out ∷ []) ≡ record { status = 0; out = concat (f ∷ fs) })
unfolding pzip wunzip encode
wunzip-pzip procs f fs pos h large inside =
    let m : Join = record { out = []; old_char = 0xEF; old_count = 0 } in
    let start : Joined m [] = record {
      runs = [];
      written = refl;
      fit = tt;
      means = refl;
      bound = omega arith;
    } in
    let (rs, run, fit, means) =
      pzip_files-encode procs pos (f ∷ fs) m [] (omega arith) large inside start in
    (encode rs, run, ap (λ out. record { status = 0; out = out }) (unzip-encode rs fit ∙ means))
