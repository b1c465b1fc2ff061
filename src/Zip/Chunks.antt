-- ===== src/Zip/Chunks.antt =====
-- `wunzip` of the output of `pzip`.
use operating_systems_three.Prelude.{
  ℕ, zero, suc, ◌+◌, ◌-◌, ◌≡◌, ◌≤◌, ◌<◌, ◌^◌, ◌==◌, refl, sym, ap, ap₂, subst, ◌∙◌, arith,
  Bool-cases, inl, inr, List, [], ◌∷◌, ◌++◌, replicate, append-nil, append_assoc, length,
  length-append, take, drop, get_or, length-replicate,
}
use operating_systems_three.Zip.Runs.{
  Run, encode, expand, Fit, encode-append, expand-append, Fit-append, replicate-snoc,
}
use operating_systems_three.Zip.Parallel.{zip_rest, zip, Join, flush, join_run, join_runs}

-- Every run stands for a byte at least.
abbrev pub Positive : List Run → Type 0
Positive [] = Unit
Positive ((n, c) ∷ rs) = (0 < n) × Positive rs

zip_rest-expand :
    (cs : List ℕ) (curr count : ℕ)
    → 0 < count
    → (expand (zip_rest curr count cs) ≡ replicate count curr ++ cs)
      × Positive (zip_rest curr count cs)
unfolding zip_rest
zip_rest-expand [] curr count h = (refl, (h, tt))
zip_rest-expand (c ∷ cs) curr count h = elim (Bool-cases (curr == c)) [
  | inl e ↦
      let (means, pos) = zip_rest-expand cs curr (count + 1) (omega arith) in
      let same : curr ≡ c = ground arith in
      rw e (
        means
            ∙ ap (λ xs. xs ++ cs) (sym (replicate-snoc count curr))
            ∙ append_assoc (replicate count curr) (curr ∷ []) cs
            ∙ ap (λ d. replicate count curr ++ d ∷ cs) same,
        pos,
      )
  | inr e ↦
      let (means, pos) = zip_rest-expand cs c 1 (omega arith) in
      rw e (ap (λ xs. replicate count curr ++ xs) means, (h, pos))
]

drop-cons : (k : ℕ) (txt : List ℕ) → k < length txt → drop k txt ≡ get_or txt k 0 ∷ drop (suc k) txt
drop-cons k [] h = absurd (omega arith)
drop-cons zero (x ∷ txt) h = refl
drop-cons (suc k) (x ∷ txt) h = drop-cons k txt (omega arith)

-- A thread with a part that is not empty returns runs that stand for its part.
pub zip-expand :
    (txt : List ℕ) (lo hi : ℕ)
    → lo < hi
    → hi ≤ length txt
    → (expand (zip txt lo hi) ≡ take (hi - lo) (drop lo txt)) × Positive (zip txt lo hi)
unfolding zip
zip-expand txt lo hi h k =
    let (means, pos) =
      zip_rest-expand (take (hi - (lo + 1)) (drop (lo + 1) txt)) (get_or txt lo 0) 1
        (omega arith) in
    let more : hi - lo ≡ suc (hi - (lo + 1)) = omega arith in
    let next : suc lo ≡ lo + 1 = omega arith in
    (
      means
          ∙ sym (
              ap₂ take more
                (drop-cons lo txt (omega arith) ∙ ap (λ k. get_or txt lo 0 ∷ drop k txt) next)),
      pos,
    )

-- What is written are whole runs, and with the run that is being counted they stand for `bs`.
pub record Joined (m : Join) (bs : List ℕ) : Type 0 where
  pub runs : List Run
  pub written : m.out ≡ encode runs
  pub fit : Fit runs
  pub means : expand runs ++ replicate m.old_count m.old_char ≡ bs
  pub bound : m.old_count ≤ length bs

replicate-add : (n k c : ℕ) → replicate n c ++ replicate k c ≡ replicate (n + k) c
replicate-add zero k c = let e : k ≡ 0 + k = omega arith in ap (λ n. replicate n c) e
replicate-add (suc n) k c =
    let e : suc (n + k) ≡ suc n + k = omega arith in
    ap (λ xs. c ∷ xs) (replicate-add n k c) ∙ ap (λ n. replicate n c) e

-- Writing the run that is being counted.
pub flush-runs :
    (m : Join) (bs : List ℕ) (r : Joined m bs)
    → length bs < 2 ^ 31
    → (flush m ≡ encode (r.runs ++ (m.old_count, m.old_char) ∷ []))
      × Fit (r.runs ++ (m.old_count, m.old_char) ∷ [])
      × (expand (r.runs ++ (m.old_count, m.old_char) ∷ []) ≡ bs)
unfolding flush encode
flush-runs m bs r h =
    let run : List Run = (m.old_count, m.old_char) ∷ [] in
    (
      ap (λ out. out ++ encode run) r.written ∙ sym (encode-append r.runs run),
      Fit-append r.runs run r.fit (omega (arith, r.bound), tt),
      expand-append r.runs run
          ∙ ap (λ xs. expand r.runs ++ xs) (append-nil (replicate m.old_count m.old_char))
          ∙ r.means,
    )

module _ (n c : ℕ) (m : Join) (bs : List ℕ) (h : length bs < 2 ^ 31) (r : Joined m bs) where
  longer : n ≤ length (bs ++ replicate n c)
  longer = omega (arith, length-append bs (replicate n c), length-replicate n c)

  flushed-Joined :
      Joined (record { out = flush m; old_char = c; old_count = n }) (bs ++ replicate n c)
  flushed-Joined =
      let (out, fit, means) = flush-runs m bs r h in
      record {
        runs = r.runs ++ (m.old_count, m.old_char) ∷ [];
        written = out;
        fit = fit;
        means = ap (λ xs. xs ++ replicate n c) means;
        bound = longer;
      }

  first-Joined :
      m.old_count ≡ 0
      → Joined (record { out = m.out; old_char = c; old_count = n }) (bs ++ replicate n c)
  first-Joined e = record {
    runs = r.runs;
    written = r.written;
    fit = r.fit;
    means =
        ap (λ xs. xs ++ replicate n c)
          (sym (append-nil (expand r.runs))
            ∙ ap (λ k. expand r.runs ++ replicate k m.old_char) (sym e)
            ∙ r.means);
    bound = longer;
  }

  same-Joined :
      m.old_char ≡ c → Joined (record m { old_count = m.old_count + n }) (bs ++ replicate n c)
  same-Joined e = record {
    runs = r.runs;
    written = r.written;
    fit = r.fit;
    means =
        ap (λ xs. expand r.runs ++ xs) (sym (replicate-add m.old_count n m.old_char))
        ∙ sym (
            append_assoc (expand r.runs) (replicate m.old_count m.old_char)
              (replicate n m.old_char))
        ∙ ap₂ (λ xs d. xs ++ replicate n d) r.means e;
    bound = omega (arith, r.bound, length-append bs (replicate n c), length-replicate n c);
  }

  join_run-Joined : Joined (join_run (n, c) m) (bs ++ replicate n c)
  unfolding join_run
  join_run-Joined = elim (Bool-cases (m.old_char == c)) [
    | inl e ↦ rw e (same-Joined (ground arith))
    | inr e ↦ elim (Bool-cases (m.old_count == 0)) [
      | inl z ↦ rw (e, z) (first-Joined (ground arith))
      | inr z ↦ rw (e, z) flushed-Joined
    ]
  ]

pub join_runs-Joined :
    (rs : List Run) (m : Join) (bs : List ℕ)
    → length bs + length (expand rs) < 2 ^ 31
    → Joined m bs
    → Joined (join_runs rs m) (bs ++ expand rs)
unfolding join_runs
join_runs-Joined [] m bs h r = rw append-nil r
join_runs-Joined ((n, c) ∷ rs) m bs h r =
    let rest =
      join_runs-Joined rs (join_run (n, c) m) (bs ++ replicate n c)
        (omega (arith, length-append bs (replicate n c), length-append (replicate n c) (expand rs)))
        (join_run-Joined n c m bs (omega arith) r) in
    subst (Joined (join_runs rs (join_run (n, c) m))) (append_assoc bs (replicate n c) (expand rs))
      rest
