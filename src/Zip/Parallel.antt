-- ===== src/Zip/Parallel.antt =====
-- P3a/pzip.c: every thread compresses its part of the mapped file into its own two arrays, and
-- `main` joins the runs in order. The arrays are one list of runs, without the closing entry -1.
use operating_systems_three.Prelude.{
  ℕ, zero, suc, ◌+◌, ◌-◌, ◌*◌, ◌/◌, ◌==◌, if◌then◌else◌, ltb, not, Bool, true, ◌&&◌, List, [], ◌∷◌,
  ◌++◌, take, drop, get_or, length, Option, none, some, codes, newline,
}
use operating_systems_three.Zip.{Exit, int_bytes}
use operating_systems_three.Zip.Runs.{Run}

-- The loop of `zip` over the rest of the part, with `curr` and `count`.
unfoldable pub zip_rest : ℕ → ℕ → List ℕ → List Run
zip_rest curr count [] = (count, curr) ∷ []
zip_rest curr count (c ∷ cs) =
    let same = zip_rest curr (count + 1) cs in
    let fresh = (count, curr) ∷ zip_rest c 1 cs in if curr == c then same else fresh

-- `zip` on `txt[start..end)`. It reads `txt[start]` before any test; behind the end of the file a
-- mapping reads 0.
unfoldable pub zip : List ℕ → ℕ → ℕ → List Run
unfolding zip_rest
zip txt start end =
    zip_rest (get_or txt start 0) 1 (take (end - (start + 1)) (drop (start + 1) txt))

-- The arguments of thread `j` of `procs`, for a file of `len` bytes.
abbrev pub part_start : ℕ → ℕ → ℕ → ℕ
part_start procs len j = len / procs * j

abbrev pub part_end : ℕ → ℕ → ℕ → ℕ
part_end procs len j = if j == procs - 1 then len else len / procs * j + len / procs

-- `old_char`, `old_count` and the output.
pub record Join : Type 0 where
  pub out : List ℕ
  pub old_char : ℕ
  pub old_count : ℕ

unfoldable pub flush : Join → List ℕ
unfolding int_bytes
flush m = m.out ++ (int_bytes m.old_count ++ m.old_char ∷ [])

-- The body of the loop over the runs of a thread.
unfoldable pub join_run : Run → Join → Join
unfolding flush
join_run (n, c) m =
    if not (m.old_char == c)
    then record {
      out = if not (m.old_count == 0) then flush m else m.out;
      old_char = c;
      old_count = n;
    }
    else record m { old_count = m.old_count + n }

unfoldable pub join_runs : List Run → Join → Join
unfolding join_run
join_runs [] m = m
join_runs (r ∷ rs) m = join_runs rs (join_run r m)

-- The loop over the threads from `j` on.
unfoldable pub join_parts : (rounds j procs : ℕ) → List ℕ → Join → Join
unfolding join_runs zip
join_parts zero j procs txt m = m
join_parts (suc r) j procs txt m =
    let len = length txt in
    join_parts r (j + 1) procs txt
      (join_runs (zip txt (part_start procs len j) (part_end procs len j)) m)

-- `malloc(1000000 * ...)`: the entries of the two arrays of a thread.
abbrev pub max_runs : ℕ
max_runs = 1000000

-- Whether the threads from `j` on stay within their arrays, with the closing entry behind their runs.
unfoldable pub stay_inside : (rounds j procs : ℕ) → List ℕ → Bool
unfolding zip
stay_inside zero j procs txt = true
stay_inside (suc r) j procs txt =
    let len = length txt in
    ltb (length (zip txt (part_start procs len j) (part_end procs len j))) max_runs
    && stay_inside r (j + 1) procs txt

-- The loop over the arguments: a file that `fstat` cannot find ends the program. `none`: a thread
-- writes behind its arrays.
unfoldable pub pzip_files : ℕ → List (Option (List ℕ)) → Join → Option Exit
unfolding join_parts flush stay_inside
pzip_files procs [] m =
    some (record { status = 0; out = if ltb 0 m.old_count then flush m else m.out })
pzip_files procs (none ∷ fs) m =
    some (record { status = 1; out = m.out ++ codes "wzip: cannot open file" ++ newline ∷ [] })
pzip_files procs (some txt ∷ fs) m =
    let next = pzip_files procs fs (join_parts procs 0 procs txt m) in
    if stay_inside procs 0 procs txt then next else none

-- `main` on a machine with `procs` processors.
unfoldable pub pzip : ℕ → List (Option (List ℕ)) → Option Exit
unfolding pzip_files
pzip procs [] = some (record { status = 1; out = codes "wzip: file1 [file2 ...]" ++ newline ∷ [] })
pzip procs (f ∷ fs) =
    pzip_files procs (f ∷ fs) (record { out = []; old_char = 0xEF; old_count = 0 })
