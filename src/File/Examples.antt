-- ===== src/File/Examples.antt =====
-- The file table with one open pipe that two descriptors refer to.
use operating_systems_three.Prelude.{
  ℕ, ◌≡◌, refl, arith, ◌==◌, if◌then◌else◌, true, false, [], ◌∷◌, update, Outcome, ok, ◌>>=◌,
}
use operating_systems_three.File.{
  fd_none, fd_pipe, File, Ftable, Closing, still_open, close_pipe, closing, fileclose,
}
use operating_systems_three.File.Refs.{count, Holds, fileclose-Holds}

abbrev nobody : File
nobody = record {
  kind = fd_none;
  ref = 0;
  readable = false;
  writable = false;
  pipe = 0;
  ip = 0;
  off = 0;
}

abbrev writer : File
writer = record nobody { kind = fd_pipe; ref = 2; writable = true; pipe = 4096 }

abbrev table : Ftable
table = record { locked = false; file = λ i. if i == 0 then writer else nobody }

close_both : Outcome (Closing × Closing)
unfolding fileclose update
close_both = do (c, t) ← fileclose 0 table; (d, t) ← fileclose 0 t; ok (c, d)

-- Two descriptors are closed: the second call closes the pipe.
close_twice : close_both ≡ ok (still_open, close_pipe 4096 true)
unfolding close_both
close_twice = refl

table-Holds : Holds (0 ∷ 0 ∷ []) table
unfolding count
table-Holds = record { free = refl; counted = λ i. counted i }
  where
    counted : (i : ℕ) → (if i == 0 then writer else nobody).ref ≡ count i (0 ∷ 0 ∷ [])
    counted i = ground arith

fileclose-Holds_example :
    (t' : Ftable) × (fileclose 0 table
      ≡ ok (if count 0 (0 ∷ []) == 0 then closing writer else still_open, t'))
    × Holds (0 ∷ []) t'
    × (count 0 (0 ∷ []) ≡ 0 → (t'.file 0).kind ≡ fd_none)
fileclose-Holds_example = fileclose-Holds 0 (0 ∷ []) table table-Holds
