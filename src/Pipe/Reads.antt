-- ===== src/Pipe/Reads.antt =====
-- What `piperead` and `pipeclose` do to the queue, and where `piperead` stops.
use operating_systems_three.Prelude.{
  ℕ, ◌≡◌, ◌≢◌, ◌==◌, refl, ◌∙◌, ap, List, [], ◌∷◌, ◌++◌, arith, Bool, true, false, not, ◌&&◌, take,
  Bool-cases, inl, inr, ok, ◌⊎◌, take-append-drop, if◌then◌else◌,
}
use operating_systems_three.Pipe.{
  Pipe, copy, read, close, Chan, readers, writers, Stop, returned, failed, asleep,
}
use operating_systems_three.Pipe.Inv.{
  IsValid, IsIdle, contents, IsIdle, copy-Copied, contents-nil, contents-cons,
}

-- Why `piperead` stopped, and what it took.
abbrev pub ReadStop : Bool → ℕ → Pipe → Stop → List ℕ → Type 0
ReadStop killed n p returned out =
    (out ≡ take n (contents p)) × ((contents p ≢ []) ⊎ (p.writeopen ≡ false))
ReadStop killed n p failed out =
    (out ≡ []) × (contents p ≡ []) × (p.writeopen ≡ true) × (killed ≡ true)
ReadStop killed n p (asleep readers) out =
    (out ≡ []) × (contents p ≡ []) × (p.writeopen ≡ true) × (killed ≡ false)
ReadStop killed n p (asleep writers) out = ⊥

-- Whom `piperead` wakes: writers, if it returns.
abbrev pub read_wakes : Stop → List Chan → List Chan
read_wakes returned woken = writers ∷ woken
read_wakes _ woken = woken

pub record Took (killed : Bool) (n : ℕ) (p : Pipe) (st : Stop) (out : List ℕ) (p' : Pipe)
    : Type 0 where
  pub idle : IsIdle p'
  pub bytes : out ++ contents p' ≡ contents p
  pub stop : ReadStop killed n p st out
  pub wakes : p'.woken ≡ read_wakes st p.woken

cons_ne_nil : (x : ℕ) (xs ys : List ℕ) → ys ≡ x ∷ xs → ys ≢ []
cons_ne_nil x xs ys e h = cc

not_waiting :
    (p : Pipe)
    → IsValid p
    → (p.nread == p.nwrite && p.writeopen) ≡ false
    → (contents p ≢ []) ⊎ (p.writeopen ≡ false)
not_waiting p v e = elim (Bool-cases (p.nread == p.nwrite)) [
  | inl empty ↦ inr (ground arith)
  | inr some_left ↦ inl (cons_ne_nil _ _ (contents p) (contents-cons v some_left))
]

-- A call of `piperead` on an idle pipe with a valid ring always leaves the processor, with the
-- lock released and the ring valid; what it took and what is left make up the queue. It has
-- returned with the first `n` bytes, or all if there are fewer, and woken the writers, where the
-- queue was not empty or the write end closed; otherwise it took nothing, and has failed if the
-- process was killed and sleeps if not.
pub read-Took :
    (killed : Bool) (n : ℕ) (p : Pipe)
    → IsIdle p
    → (st : Stop) × (out : List ℕ) × (p' : Pipe) × (read killed n p ≡ ok (st, out, p'))
      × Took killed n p st out p'
unfolding read contents
read-Took killed n p idle =
    let held : Pipe = record p { locked = true } in
    let c = copy-Copied n held (ground arith) in
    elim (Bool-cases (p.nread == p.nwrite && p.writeopen)) [
      | inl e ↦
          let empty : contents p ≡ [] = contents-nil idle.valid (ground arith) in
          elim (Bool-cases killed) [
            | inl k ↦ (
              failed,
              [],
              record p { locked = false },
              rw (idle.free, e, k),
              record {
                idle = record { free = refl; valid = ground arith };
                bytes = refl;
                stop = (refl, empty, ground arith, k);
                wakes = refl;
              },
            )
            | inr k ↦ (
              asleep readers,
              [],
              record p { locked = false },
              rw (idle.free, e, k),
              record {
                idle = record { free = refl; valid = ground arith };
                bytes = refl;
                stop = (refl, empty, ground arith, k);
                wakes = refl;
              },
            )
          ]
      | inr e ↦ (
        returned,
        (copy n held).0,
        record ((copy n held).1) { locked = false; woken = writers ∷ (copy n held).1.woken },
        rw (idle.free, e, c.same_lock),
        record {
          idle = record {
            free = refl;
            valid = record {
              fits = c.valid.fits;
              nread_word = c.valid.nread_word;
              nwrite_word = c.valid.nwrite_word;
            };
          };
          bytes =
              ap (λ xs. xs ++ contents (copy n held).1) c.bytes
              ∙ ap (λ xs. take n (contents p) ++ xs) c.left
              ∙ take-append-drop n (contents p);
          stop = (c.bytes, not_waiting p idle.valid e);
          wakes = ap (λ w. writers ∷ w) c.same_woken;
        },
      )
    ]

-- `pipeclose` on an idle pipe returns with the lock released, one end closed and the other end and
-- the queue as they were, having woken those who wait at the other end; it frees the page exactly
-- if both ends are then closed.
pub close_lem :
    (writable : Bool) (p : Pipe)
    → IsIdle p
    → (p' : Pipe) × (close writable p ≡ ok (not p'.readopen && not p'.writeopen, p'))
      × IsIdle p'
      × (contents p' ≡ contents p)
      × (p'.writeopen ≡ (not writable && p.writeopen))
      × (p'.readopen ≡ (writable && p.readopen))
      × (p'.woken ≡ (if writable then readers else writers) ∷ p.woken)
unfolding close contents
close_lem true p idle = (
  record p { locked = false; writeopen = false; woken = readers ∷ p.woken },
  rw idle.free,
  record { free = refl; valid = ground arith },
  refl,
  refl,
  refl,
  refl,
)
close_lem false p idle = (
  record p { locked = false; readopen = false; woken = writers ∷ p.woken },
  rw idle.free,
  record { free = refl; valid = ground arith },
  refl,
  ground arith,
  refl,
  refl,
)
