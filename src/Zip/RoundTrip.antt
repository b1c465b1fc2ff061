-- ===== src/Zip/RoundTrip.antt =====
-- `wunzip` of the output of `wzip`.
use operating_systems_three.Prelude.{
  ℕ, ◌+◌, ◌≡◌, ◌≢◌, ◌≤◌, ◌<◌, ◌^◌, ◌==◌, refl, sym, ap, subst, subst₂, ◌∙◌, arith, Bool, Bool-cases,
  if◌then◌else◌, inl, inr, List, [], ◌∷◌, ◌++◌, some, map, replicate, append-nil, append_assoc,
  length, length-append, concat, IsText, IsText-left, IsText-right, AllNonempty, lines,
  concat-lines, lines-AllNonempty, c_str-IsText,
}
use operating_systems_three.Zip.{
  Zip, Exit, emit, scan, start, zip_line, zip_lines, zip_files, wzip, wunzip,
}
use operating_systems_three.Zip.Runs.{
  Run, encode, expand, Fit, unzip-encode, encode-append, expand-append, Fit-append, replicate-snoc,
}

-- The state of `wzip` after the bytes `bs`: what is written are whole runs, and with the run that
-- is being counted they stand for `bs`.
pub record Reads (z : Zip) (bs : List ℕ) : Type 0 where
  pub runs : List Run
  pub written : z.out ≡ encode runs
  pub fit : Fit runs
  pub means : expand runs ++ replicate z.count z.curr ≡ bs
  pub bound : z.count ≤ length bs

last-Fit : (n c : ℕ) → n < 2 ^ 31 → Fit ((n, c) ∷ [])
last-Fit n c h = (h, tt)

-- Writing the run that is being counted.
pub emit-runs :
    (z : Zip) (bs : List ℕ) (r : Reads z bs)
    → length bs < 2 ^ 31
    → (emit z ≡ encode (r.runs ++ (z.count, z.curr) ∷ []))
      × Fit (r.runs ++ (z.count, z.curr) ∷ [])
      × (expand (r.runs ++ (z.count, z.curr) ∷ []) ≡ bs)
unfolding emit encode
emit-runs z bs r h =
    let run : List Run = (z.count, z.curr) ∷ [] in
    (
      ap (λ out. out ++ encode run) r.written ∙ sym (encode-append r.runs run),
      Fit-append r.runs run r.fit (last-Fit z.count z.curr (omega (arith, r.bound))),
      expand-append r.runs run
          ∙ ap (λ xs. expand r.runs ++ xs) (append-nil (replicate z.count z.curr))
          ∙ r.means,
    )

same-Reads :
    (z : Zip) (bs : List ℕ) (c : ℕ)
    → z.curr ≡ c
    → Reads z bs
    → Reads (record z { count = z.count + 1 }) (bs ++ c ∷ [])
same-Reads z bs c e r = record {
  runs = r.runs;
  written = r.written;
  fit = r.fit;
  means =
      ap (λ xs. expand r.runs ++ xs) (sym (replicate-snoc z.count z.curr))
      ∙ sym (append_assoc (expand r.runs) (replicate z.count z.curr) (z.curr ∷ []))
      ∙ ap (λ xs. xs ++ z.curr ∷ []) r.means
      ∙ ap (λ d. bs ++ d ∷ []) e;
  bound = omega (arith, r.bound, length-append bs (c ∷ []));
}

next-Reads :
    (z : Zip) (bs : List ℕ) (c : ℕ)
    → length bs < 2 ^ 31
    → Reads z bs
    → Reads (record { out = emit z; curr = c; count = 1 }) (bs ++ c ∷ [])
next-Reads z bs c h r =
    let (out, fit, means) = emit-runs z bs r h in
    record {
      runs = r.runs ++ (z.count, z.curr) ∷ [];
      written = out;
      fit = fit;
      means = ap (λ xs. xs ++ c ∷ []) means;
      bound = omega (arith, length-append bs (c ∷ []));
    }

-- A run is being counted, and the state stands for `bs`.
abbrev pub Counting : List ℕ → Zip → Type 0
Counting bs z = Reads z bs × (0 < z.count)

pub scan-Counting :
    (cs : List ℕ) (z : Zip) (bs : List ℕ)
    → length bs + length cs < 2 ^ 31
    → Counting bs z
    → Counting (bs ++ cs) (scan cs z)
unfolding scan
scan-Counting [] z bs h r = rw append-nil r
scan-Counting (c ∷ cs) z bs h (r, pos) =
    let more : Zip = record z { count = z.count + 1 } in
    let fresh : Zip = record { out = emit z; curr = c; count = 1 } in
    let short : length (bs ++ c ∷ []) + length cs < 2 ^ 31 =
      omega (arith, length-append bs (c ∷ [])) in
    let front : (bs ++ c ∷ []) ++ cs ≡ bs ++ c ∷ cs = append_assoc bs (c ∷ []) cs in
    let step = λ (b : Bool). scan cs (if b then more else fresh) in
    elim (Bool-cases (z.curr == c)) [
      | inl e ↦ subst₂ Counting front (sym (ap step e)) (
          scan-Counting cs more (bs ++ c ∷ []) short
            (same-Reads z bs c (ground arith) r, omega arith))
      | inr e ↦ subst₂ Counting front (sym (ap step e)) (
          scan-Counting cs fresh (bs ++ c ∷ []) short
            (next-Reads z bs c (omega arith) r, omega arith))
    ]

-- Either nothing has been read, or a run is being counted.
pub record Going (z : Zip) (bs : List ℕ) : Type 0 where
  pub reads : Reads z bs
  pub fresh : z.count ≡ 0 → (z.out ≡ []) × (bs ≡ [])

start-Going :
    (l : List ℕ) (z : Zip) (bs : List ℕ)
    → length bs + length l < 2 ^ 31
    → l ≢ []
    → z.count ≡ 0
    → Going z bs
    → Counting (bs ++ l) (start l z)
unfolding start encode
start-Going [] z bs h ne e g = absurd (ne refl)
start-Going (c ∷ cs) z bs h ne e g =
    let (no_out, no_bytes) = g.fresh e in
    let begun : Reads (record z { curr = c; count = 1 }) (c ∷ []) = record {
      runs = [];
      written = no_out;
      fit = tt;
      means = refl;
      bound = omega arith;
    } in
    rw no_bytes (
      scan-Counting cs (record z { curr = c; count = 1 }) (c ∷ []) (omega arith)
        (begun, omega arith))

zip_line-Going :
    (l : List ℕ) (z : Zip) (bs : List ℕ)
    → length bs + length l < 2 ^ 31
    → l ≢ []
    → IsText l
    → Going z bs
    → Going (zip_line l z) (bs ++ l)
unfolding zip_line
zip_line-Going l z bs h ne text g = rw (c_str-IsText l text) (elim (Bool-cases (z.count == 0)) [
  | inl e ↦ rw e (finish (start l z) (start-Going l z bs h ne (ground arith) g))
  | inr e ↦ rw e (finish (scan l z) (scan-Counting l z bs h (g.reads, ground arith)))
])
  where
    finish : (z' : Zip) → Counting (bs ++ l) z' → Going z' (bs ++ l)
    finish z' w = record { reads = w.0; fresh = λ e. absurd (omega (arith, w.1)) }

abbrev AllText : List (List ℕ) → Type 0
AllText [] = Unit
AllText (l ∷ ls) = IsText l × AllText ls

concat-AllText : (ls : List (List ℕ)) → IsText (concat ls) → AllText ls
concat-AllText [] h = tt
concat-AllText (l ∷ ls) h =
    (IsText-left l (concat ls) h, concat-AllText ls (IsText-right l (concat ls) h))

zip_lines-Going :
    (ls : List (List ℕ)) (z : Zip) (bs : List ℕ)
    → length bs + length (concat ls) < 2 ^ 31
    → AllNonempty ls
    → AllText ls
    → Going z bs
    → Going (zip_lines ls z) (bs ++ concat ls)
unfolding zip_lines
zip_lines-Going [] z bs h ne text g = rw append-nil g
zip_lines-Going (l ∷ ls) z bs h ne text g =
    let rest =
      zip_lines-Going ls (zip_line l z) (bs ++ l)
        (omega (arith, length-append bs l, length-append l (concat ls))) ne.1 text.1
        (zip_line-Going l z bs (omega (arith, length-append l (concat ls))) ne.0 text.0 g) in
    subst (Going (zip_lines ls (zip_line l z))) (append_assoc bs l (concat ls)) rest

zip_files-encode :
    (fs : List (List ℕ)) (z : Zip) (bs : List ℕ)
    → length bs + length (concat fs) < 2 ^ 31
    → AllText fs
    → Going z bs
    → (rs : List Run) × (zip_files (map some fs) z ≡ record { status = 0; out = encode rs })
      × Fit rs
      × (expand rs ≡ bs ++ concat fs)
unfolding zip_files
zip_files-encode [] z bs h text g =
    let (out, fit, means) = emit-runs z bs g.reads (omega arith) in
    (
      g.reads.runs ++ (z.count, z.curr) ∷ [],
      ap (λ o. record { status = 0; out = o }) out,
      fit,
      means ∙ sym (append-nil bs),
    )
zip_files-encode (f ∷ fs) z bs h text g =
    let whole = concat-lines f in
    let g' : Going (zip_lines (lines f) z) (bs ++ f) =
      subst (λ f'. Going (zip_lines (lines f) z) (bs ++ f')) whole
        (zip_lines-Going (lines f) z bs
          (omega (arith, ap length whole, length-append f (concat fs))) (lines-AllNonempty f)
          (concat-AllText (lines f) (subst IsText (sym whole) text.0)) g) in
    let (rs, out, fit, means) =
      zip_files-encode fs (zip_lines (lines f) z) (bs ++ f)
        (omega (arith, length-append bs f, length-append f (concat fs))) text.1 g' in
    (rs, out, fit, means ∙ append_assoc bs f (concat fs))

-- `wunzip` turns the output of `wzip` back into the contents of the files, one after the other, if
-- there is at least one file, no byte is NUL, there are fewer than 2 ^ 31 bytes in all, and all
-- files can be opened; both programs end with status 0. (Where there is no byte at all, `wzip`
-- writes a run of no bytes.)
pub wunzip-wzip :
    (junk : ℕ) (f : List ℕ) (fs : List (List ℕ))
    → length (concat (f ∷ fs)) < 2 ^ 31
    → AllText (f ∷ fs)
    → ((wzip junk (map some (f ∷ fs))).status ≡ 0)
      × (wunzip (some (wzip junk (map some (f ∷ fs))).out ∷ [])
          ≡ record { status = 0; out = concat (f ∷ fs) })
unfolding wzip wunzip encode
wunzip-wzip junk f fs h text =
    let z : Zip = record { out = []; curr = junk; count = 0 } in
    let start : Going z [] = record {
      reads = record { runs = []; written = refl; fit = tt; means = refl; bound = omega arith };
      fresh = λ e. (refl, refl);
    } in
    let (rs, run, fit, means) = zip_files-encode (f ∷ fs) z [] (omega arith) text start in
    (
      ap (λ (x : Exit). x.status) run,
      ap (λ (x : Exit). wunzip (some x.out ∷ [])) run
          ∙ ap (λ out. record { status = 0; out = out }) (unzip-encode rs fit ∙ means),
    )
