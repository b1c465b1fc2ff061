-- ===== src/Pipe/Writes.antt =====
-- What `pipewrite` does to the queue, and where it stops.
use operating_systems_three.Prelude.{
  ℕ, suc, ◌+◌, ◌-◌, ◌≡◌, ◌≤◌, ◌<◌, refl, sym, ◌∙◌, ap, List, [], ◌∷◌, ◌++◌, arith, Bool, true,
  false, not, ◌||◌, take, length, Bool-cases, inl, inr, Outcome, ok, append-nil, append_assoc,
}
use operating_systems_three.Pipe.{
  Pipe, pipe_size, full, put, write_loop, write, Chan, readers, writers, Stop, returned, failed,
  asleep, blocked,
}
use operating_systems_three.Pipe.Inv.{
  fill, IsValid, IsIdle, contents, full-true, put-IsValid, IsIdle, contents-put,
}

-- Why `pipewrite` stopped after `j` of `total` bytes.
abbrev pub WriteStop : Bool → ℕ → Stop → ℕ → Pipe → Type 0
WriteStop killed total returned j p = j ≡ total
WriteStop killed total failed j p =
    (fill p ≡ pipe_size) × (j < total) × ((not p.readopen || killed) ≡ true)
WriteStop killed total (asleep readers) j p = ⊥
WriteStop killed total (asleep writers) j p =
    (fill p ≡ pipe_size) × (j < total) × (p.readopen ≡ true) × (killed ≡ false)

-- Whom `pipewrite` wakes: readers, unless it fails.
abbrev pub write_wakes : Stop → List Chan → List Chan
write_wakes failed woken = woken
write_wakes _ woken = readers ∷ woken

pub record Wrote (killed : Bool) (cs : List ℕ) (i : ℕ) (p : Pipe) (st : Stop) (j : ℕ) (p' : Pipe)
    : Type 0 where
  pub idle : IsIdle p'
  pub from : i ≤ j
  pub bytes : contents p' ≡ contents p ++ take (j - i) cs
  pub stop : WriteStop killed (i + length cs) st j p'
  pub wakes : p'.woken ≡ write_wakes st p.woken
  pub same_ends : (p'.readopen ≡ p.readopen) × (p'.writeopen ≡ p.writeopen)

take-zero : (i : ℕ) (cs : List ℕ) → take (i - i) cs ≡ []
take-zero i cs = let none : i - i ≡ 0 = omega arith in rw none

take-suc : (i j c : ℕ) (cs : List ℕ) → i + 1 ≤ j → take (j - i) (c ∷ cs) ≡ c ∷ take (j - (i + 1)) cs
take-suc i j c cs h = let more : j - i ≡ suc (j - (i + 1)) = omega arith in rw more

abbrev WriteResult : Bool → List ℕ → ℕ → Pipe → Outcome (Stop × ℕ × Pipe) → Type 0
WriteResult killed cs i p r =
    (st : Stop) × (j : ℕ) × (p' : Pipe) × (r ≡ ok (st, j, p')) × Wrote killed cs i p st j p'

blocked-Wrote :
    (killed : Bool) (c : ℕ) (cs : List ℕ) (i : ℕ) (p : Pipe)
    → p.locked ≡ true
    → IsValid p
    → full p ≡ true
    → WriteResult killed (c ∷ cs) i p (blocked killed i p)
unfolding blocked contents
blocked-Wrote killed c cs i p held v e = elim (Bool-cases (not p.readopen || killed)) [
  | inl dead ↦ (
    failed,
    i,
    record p { locked = false },
    ground arith,
    record {
      idle = record { free = refl; valid = ground arith };
      from = omega arith;
      bytes = rw (take-zero i (c ∷ cs), append-nil);
      stop = (full-true v e, omega arith, dead);
      wakes = refl;
      same_ends = (refl, refl);
    },
  )
  | inr alive ↦ (
    asleep writers,
    i,
    record p { locked = false; woken = readers ∷ p.woken },
    ground arith,
    record {
      idle = record { free = refl; valid = ground arith };
      from = omega arith;
      bytes = rw (take-zero i (c ∷ cs), append-nil);
      stop = (full-true v e, omega arith, ground arith, ground arith);
      wakes = refl;
      same_ends = (refl, refl);
    },
  )
]

WriteStop-suc :
    (killed : Bool) (i n j : ℕ) (st : Stop) (p : Pipe)
    → WriteStop killed (i + 1 + n) st j p
    → WriteStop killed (i + suc n) st j p
WriteStop-suc killed i n j returned p h = omega arith
WriteStop-suc killed i n j failed p h = (h.0, omega arith, h.2)
WriteStop-suc killed i n j (asleep readers) p h = h
WriteStop-suc killed i n j (asleep writers) p h = (h.0, omega arith, h.2, h.3)

write_loop-Wrote :
    (killed : Bool) (cs : List ℕ) (i : ℕ) (p : Pipe)
    → p.locked ≡ true
    → IsValid p
    → WriteResult killed cs i p (write_loop killed cs i p)
unfolding write_loop put contents
write_loop-Wrote killed [] i p held v = (
  returned,
  i,
  record p { locked = false; woken = readers ∷ p.woken },
  ground arith,
  record {
    idle = record { free = refl; valid = ground arith };
    from = omega arith;
    bytes = rw (take-zero i [], append-nil);
    stop = omega arith;
    wakes = refl;
    same_ends = (refl, refl);
  },
)
write_loop-Wrote killed (c ∷ cs) i p held v = elim (Bool-cases (full p)) [
  | inl e ↦ rw e (blocked-Wrote killed c cs i p held v e)
  | inr e ↦
      let (st, j, p', run, w) =
        write_loop-Wrote killed cs (i + 1) (put c p) held (put-IsValid v c e) in
      rw e (
        st,
        j,
        p',
        run,
        record {
          idle = w.idle;
          from = omega (arith, w.from);
          bytes =
              w.bytes
              ∙ ap (λ xs. xs ++ take (j - (i + 1)) cs) (contents-put v c e)
              ∙ append_assoc (contents p) (c ∷ []) (take (j - (i + 1)) cs)
              ∙ ap (λ xs. contents p ++ xs) (sym (take-suc i j c cs w.from));
          stop = WriteStop-suc killed i (length cs) j st p' w.stop;
          wakes = w.wakes;
          same_ends = w.same_ends;
        },
      )
]

-- A call of `pipewrite` on an idle pipe with a valid ring always leaves the processor, with the
-- lock released and the ring valid, having appended a prefix of its bytes in order. It has
-- returned with all of them written; or it has failed at a full ring, with bytes left, the read
-- end closed or the process killed; or it sleeps at a full ring with bytes left, the read end open
-- and the process alive. It has woken the readers unless it failed.
pub write-Wrote :
    (killed : Bool) (cs : List ℕ) (p : Pipe)
    → IsIdle p
    → (st : Stop) × (j : ℕ) × (p' : Pipe) × (write killed cs p ≡ ok (st, j, p'))
      × Wrote killed cs 0 p st j p'
unfolding write contents
write-Wrote killed cs p idle =
    let (st, j, p', run, w) =
      write_loop-Wrote killed cs 0 (record p { locked = true }) refl (ground arith) in
    (st, j, p', rw idle.free run, ground arith)
