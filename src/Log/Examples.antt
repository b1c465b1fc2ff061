-- ===== src/Log/Examples.antt =====
-- The log at a concrete disk.
use operating_systems_three.Prelude.{
  ◌≡◌, ◌⊎◌, refl, arith, inr, update, true, false, [], ◌∷◌, some, get_elem?,
}
use operating_systems_three.Log.{Log, Disk, Block, commit, initlog, write_log, write_head}
use operating_systems_three.Log.Crash.{
  here, Ready, Unchanged, Applied, crash_atomic, commit_durable,
}
use operating_systems_three.Log.Absorb.{HasRoom}
use operating_systems_three.Log.Reserve.{Sys}
use operating_systems_three.Log.Reserve

abbrev blank : Disk
blank b i = 0

abbrev sevens : Block
sevens i = 7

-- One operation has changed block 100 and logged it.
abbrev one_block : Log
one_block = record {
  start = 2;
  size = 31;
  outstanding = 0;
  committing = true;
  n = 1;
  block = λ i. 100;
  locked = false;
  disk = blank;
  cached = update blank 100 sevens;
  dirty = update (λ b. false) 100 true;
  history = blank ∷ [];
  wakeups = 0;
}

one_block-Ready : Ready one_block
one_block-Ready = record {
  busy = omega arith;
  layout = record {
    small = omega arith;
    outside = λ i hi. inr (omega arith);
    distinct = λ i j hi hj ne. absurd (omega arith);
  };
  empty = refl;
  fresh = refl;
}

-- The disk at a failure right after the header was written.
abbrev torn : Disk
torn = (write_head (write_log one_block)).disk

torn_passed : get_elem? (commit one_block).history 2 ≡ some torn
unfolding commit
torn_passed = refl

recovered : (initlog torn one_block).disk 100 5 ≡ 7
unfolding commit initlog update
recovered = refl

crash_atomic_example :
    ((initlog torn one_block).disk 2 0 ≡ 0)
    × (Unchanged one_block (initlog torn one_block).disk
        ⊎ Applied one_block (initlog torn one_block).disk)
crash_atomic_example = crash_atomic one_block one_block-Ready 2 torn torn torn_passed here

commit_durable_example :
    Applied one_block (commit one_block).disk
    × ((commit one_block).disk 2 0 ≡ 0)
    × Applied one_block (initlog (commit one_block).disk one_block).disk
    × ((initlog (commit one_block).disk one_block).disk 2 0 ≡ 0)
commit_durable_example = commit_durable one_block one_block-Ready (commit one_block).disk here

-- An operation runs, and has not logged anything but block 100.
abbrev running : Log
running = record one_block { outstanding = 1; committing = false }

running-HasRoom : HasRoom running
running-HasRoom = omega arith

abbrev quiet : Log
quiet = record one_block { committing = false; n = 0 }

-- An operation has begun and logged one block.
abbrev begun : Sys
begun = record { log = record quiet { outstanding = 1 }; budgets = 10 ∷ [] }

abbrev logged : Sys
logged = record {
  log = record (record quiet { outstanding = 1 }) {
    n = 1;
    block = update (λ i. 100) 0 300;
    dirty = update (update (λ b. false) 100 true) 300 true;
  };
  budgets = 9 ∷ [];
}
