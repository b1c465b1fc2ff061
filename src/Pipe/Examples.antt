-- ===== src/Pipe/Examples.antt =====
-- Pipes at concrete bytes.
use operating_systems_three.Prelude.{
  ℕ, ◌≡◌, ◌≤◌, refl, [], ◌∷◌, ◌++◌, arith, true, false, length, ok, update,
}
use operating_systems_three.Pipe.{
  Pipe, pipe_size, init, write, read, readers, writers, Stop, returned, asleep,
}
use operating_systems_three.Pipe.Inv.{contents}
use operating_systems_three.Pipe.Inv.{IsIdle}
use operating_systems_three.Pipe.Writes.{Wrote, write-Wrote}
use operating_systems_three.Pipe.Stream.{writes, reads, Reach, here, next, started, Reach-stream}

abbrev page : Pipe
page = record {
  locked = true;
  buf = λ _. 0;
  nread = 7;
  nwrite = 9;
  readopen = false;
  writeopen = false;
  woken = [];
}

-- Two bytes, 8 and 9, with the counters about to wrap.
abbrev two : Pipe
two = record {
  locked = false;
  buf = update (update (λ _. 0) 511 8) 0 9;
  nread = 0xffff_ffff;
  nwrite = 1;
  readopen = true;
  writeopen = true;
  woken = [];
}

two-IsIdle : IsIdle two
two-IsIdle = record { free = refl; valid = omega arith }

-- A full pipe.
abbrev stuffed : Pipe
stuffed = record two { nwrite = 511 }

stuffed-IsIdle : IsIdle stuffed
stuffed-IsIdle = record { free = refl; valid = omega arith }

contents-two : contents two ≡ 8 ∷ 9 ∷ []
unfolding contents update
contents-two = refl

write-Wrote_example :
    (st : Stop) × (j : ℕ) × (p' : Pipe) × (write false (1 ∷ 2 ∷ []) stuffed ≡ ok (st, j, p'))
    × Wrote false (1 ∷ 2 ∷ []) 0 stuffed st j p'
write-Wrote_example = write-Wrote false (1 ∷ 2 ∷ []) stuffed stuffed-IsIdle

-- A full pipe takes nothing and the writer sleeps.
stuffed_sleeps :
    write false (1 ∷ 2 ∷ []) stuffed
    ≡ ok (asleep writers, 0, record stuffed { woken = readers ∷ [] })
unfolding write
stuffed_sleeps = refl

after_write : Pipe
unfolding init
after_write = record (init page) {
  buf = update (update (λ _. 0) 0 5) 1 6;
  nwrite = 2;
  woken = readers ∷ [];
}

after_read : Pipe
unfolding after_write
after_read = record after_write { nread = 1; woken = writers ∷ readers ∷ [] }

-- A writer writes 5 and 6, and a reader takes one byte.
one_byte_over :
    Reach (started page) (record { pipe = after_read; accepted = 5 ∷ 6 ∷ []; delivered = 5 ∷ [] })
unfolding after_read after_write init write read update
one_byte_over =
    next {t = record { pipe = after_write; accepted = 5 ∷ 6 ∷ []; delivered = [] }}
      (next here (writes false (5 ∷ 6 ∷ []) returned 2 after_write refl refl))
      (reads false 1 returned (5 ∷ []) after_read refl refl)

Reach-stream_example :
    (5 ∷ [] ++ contents after_read ≡ 5 ∷ 6 ∷ [])
    × (length (contents after_read) ≤ pipe_size)
    × (after_read.locked ≡ false)
Reach-stream_example = Reach-stream page one_byte_over
