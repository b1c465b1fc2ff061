-- ===== src/Zip.antt =====
-- P1a/wzip/wzip.c and P1a/wunzip/wunzip.c: run-length compression. An argument is what `fopen`
-- gives for it: the bytes of the file, or nothing. The output is that to `stdout`.
pub mod Runs
pub mod RoundTrip
pub mod Parallel
pub mod Chunks
pub mod Parts
pub mod Short
mod Examples
use operating_systems_three.Prelude.{
  ℕ, zero, suc, ◌+◌, ◌-◌, ◌*◌, ◌/◌, ◌%◌, ◌^◌, ◌==◌, ltb, if◌then◌else◌, Bool, true, false, List, [],
  ◌∷◌, ◌++◌, replicate, Option, none, some, codes, newline, c_str, lines,
}

-- The bytes that `fwrite` writes for an `int`, and what `fread` makes of them (little-endian).
unfoldable pub int_bytes : ℕ → List ℕ
int_bytes n = (n % 256) ∷ (n / 256 % 256) ∷ (n / 65536 % 256) ∷ (n / 16777216 % 256) ∷ []

unfoldable pub bytes_int : ℕ → ℕ → ℕ → ℕ → ℕ
bytes_int b0 b1 b2 b3 = b0 + 256 * b1 + 65536 * b2 + 16777216 * b3

-- What a program leaves: its exit status and its output.
pub record Exit : Type 0 where
  pub status : ℕ
  pub out : List ℕ

-- The output so far, and the variables `curr` and `count` of `main` in wzip.c. A count of 2 ^ 31
-- would overflow the `int`.
pub record Zip : Type 0 where
  pub out : List ℕ
  pub curr : ℕ
  pub count : ℕ

-- The two calls of `fwrite`.
unfoldable pub emit : Zip → List ℕ
unfolding int_bytes
emit z = z.out ++ (int_bytes z.count ++ z.curr ∷ [])

-- The `for` loop over `buffer[i..len)`.
unfoldable pub scan : List ℕ → Zip → Zip
unfolding emit
scan [] z = z
scan (c ∷ cs) z = scan cs (
    if z.curr == c
    then record z { count = z.count + 1 }
    else record { out = emit z; curr = c; count = 1 })

-- The body of the loop over the lines; `strlen` sees the text before the first NUL, and `buffer[0]`
-- is that NUL if the text is empty.
unfoldable pub start : List ℕ → Zip → Zip
unfolding scan
start [] z = record z { curr = 0; count = 1 }
start (c ∷ cs) z = scan cs (record z { curr = c; count = 1 })

unfoldable pub zip_line : List ℕ → Zip → Zip
unfolding start scan c_str
zip_line l z = if z.count == 0 then start (c_str l) z else scan (c_str l) z

unfoldable pub zip_lines : List (List ℕ) → Zip → Zip
unfolding zip_line
zip_lines [] z = z
zip_lines (l ∷ ls) z = zip_lines ls (zip_line l z)

-- The loop over the arguments, and the last two calls of `fwrite`.
unfoldable pub zip_files : List (Option (List ℕ)) → Zip → Exit
unfolding zip_lines emit lines
zip_files [] z = record { status = 0; out = emit z }
zip_files (none ∷ fs) z = record {
  status = 1;
  out = z.out ++ codes "wgrep: cannot open file" ++ newline ∷ [];
}
zip_files (some f ∷ fs) z = zip_files fs (zip_lines (lines f) z)

-- `main` of wzip.c. `junk` is what the uninitialised `curr` holds.
unfoldable pub wzip : ℕ → List (Option (List ℕ)) → Exit
unfolding zip_files
wzip junk [] = record { status = 1; out = codes "wzip: file1 [file2 ...]" ++ newline ∷ [] }
wzip junk (f ∷ fs) = zip_files (f ∷ fs) (record { out = []; curr = junk; count = 0 })

-- The rounds of `for (int i = 0; i < n; i++)`: none if the `int` is negative.
unfoldable pub rounds : ℕ → ℕ
rounds n = if ltb n (2 ^ 31) then n else 0

-- The `while` loop of wunzip.c: it ends where no whole `int` or no byte after it is left.
unfoldable pub unzip : List ℕ → List ℕ
unfolding rounds bytes_int
unzip (b0 ∷ b1 ∷ b2 ∷ b3 ∷ c ∷ rest) = replicate (rounds (bytes_int b0 b1 b2 b3)) c ++ unzip rest
unzip _ = []

unfoldable pub unzip_files : List (Option (List ℕ)) → List ℕ → Exit
unfolding unzip
unzip_files [] out = record { status = 0; out = out }
unzip_files (none ∷ fs) out = record {
  status = 1;
  out = out ++ codes "wgrep: cannot open file" ++ newline ∷ [];
}
unzip_files (some f ∷ fs) out = unzip_files fs (out ++ unzip f)

-- `main` of wunzip.c.
unfoldable pub wunzip : List (Option (List ℕ)) → Exit
unfolding unzip_files
wunzip [] = record { status = 1; out = codes "wunzip: file1 [file2 ...]" ++ newline ∷ [] }
wunzip (f ∷ fs) = unzip_files (f ∷ fs) []
