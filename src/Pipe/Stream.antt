-- ===== src/Pipe/Stream.antt =====
-- Any interleaving of reads, writes and closes of one pipe, each cut at its sleeps.
use operating_systems_three.Prelude.{
  ℕ, ◌-◌, ◌≡◌, ◌≤◌, refl, sym, ◌∙◌, ap, subst, List, [], ◌++◌, arith, Bool, false, take, length, ok,
  append_assoc, not, ◌&&◌,
}
use operating_systems_three.Pipe.{Pipe, pipe_size, init, write, read, close, Stop}
use operating_systems_three.Pipe.Inv.{IsIdle, contents, length-contents}
use operating_systems_three.Pipe.Writes.{Wrote, write-Wrote}
use operating_systems_three.Pipe.Reads.{Took, read-Took, close_lem}

-- A pipe, the bytes that its writers have been able to write and those that its readers got.
pub record Sys : Type 0 where
  pub pipe : Pipe
  pub accepted : List ℕ
  pub delivered : List ℕ

pub data Step (s : Sys) (t : Sys) : Type 0 where
  writes :
      (killed : Bool) (cs : List ℕ) (st : Stop) (j : ℕ) (p : Pipe)
      → write killed cs s.pipe ≡ ok (st, j, p)
      → t ≡ record s { pipe = p; accepted = s.accepted ++ take j cs }
      → Step s t
  reads :
      (killed : Bool) (n : ℕ) (st : Stop) (out : List ℕ) (p : Pipe)
      → read killed n s.pipe ≡ ok (st, out, p)
      → t ≡ record s { pipe = p; delivered = s.delivered ++ out }
      → Step s t
  closes :
      (writable gone : Bool) (p : Pipe)
      → close writable s.pipe ≡ ok (gone, p)
      → t ≡ record s { pipe = p }
      → Step s t

pub data Reach (s : Sys) : Sys → Type 0 where
  here : Reach s s
  next : {t u : Sys} → Reach s t → Step t u → Reach s u

pub record Inv (s : Sys) : Type 0 where
  pub idle : IsIdle s.pipe
  pub stream : s.delivered ++ contents s.pipe ≡ s.accepted

-- The system at the return of `pipealloc`.
abbrev pub started : Pipe → Sys
started p = record { pipe = init p; accepted = []; delivered = [] }

started-Inv : (p : Pipe) → Inv (started p)
unfolding init contents
started-Inv p = record { idle = record { free = refl; valid = omega arith }; stream = refl }

ok_injective : {A : Type 0} (a b : A) → ok a ≡ ok b → a ≡ b
ok_injective a b e = cc

write-eq :
    (killed : Bool) (cs : List ℕ) (p : Pipe) {r : Stop × ℕ × Pipe}
    → IsIdle p
    → write killed cs p ≡ ok r
    → Wrote killed cs 0 p r.0 r.1 r.2
write-eq killed cs p {r} idle run =
    let (st, j, p', run', w) = write-Wrote killed cs p idle in
    subst (λ (r : Stop × ℕ × Pipe). Wrote killed cs 0 p r.0 r.1 r.2)
      (ok_injective (st, j, p') r (sym run' ∙ run)) w

read-eq :
    (killed : Bool) (n : ℕ) (p : Pipe) {r : Stop × List ℕ × Pipe}
    → IsIdle p
    → read killed n p ≡ ok r
    → Took killed n p r.0 r.1 r.2
read-eq killed n p {r} idle run =
    let (st, out, p', run', w) = read-Took killed n p idle in
    subst (λ (r : Stop × List ℕ × Pipe). Took killed n p r.0 r.1 r.2)
      (ok_injective (st, out, p') r (sym run' ∙ run)) w

close-eq :
    (writable : Bool) (p : Pipe) {r : Bool × Pipe}
    → IsIdle p
    → close writable p ≡ ok r
    → IsIdle r.1 × (contents r.1 ≡ contents p)
close-eq writable p {r} idle run =
    let (p', run', idle', same, _, _, _) = close_lem writable p idle in
    subst (λ (r : Bool × Pipe). IsIdle r.1 × (contents r.1 ≡ contents p))
      (ok_injective (not p'.readopen && not p'.writeopen, p') r (sym run' ∙ run)) (idle', same)

Step-Inv : {s t : Sys} → Step s t → Inv s → Inv t
Step-Inv {s} (writes killed cs st j p run e) inv =
    let w = write-eq killed cs s.pipe inv.idle run in
    rw e (record {
      idle = w.idle;
      stream =
          ap (λ xs. s.delivered ++ xs) w.bytes
          ∙ sym (append_assoc s.delivered (contents s.pipe) (take (j - 0) cs))
          ∙ ap (λ xs. xs ++ take (j - 0) cs) inv.stream
          ∙ ap (λ k. s.accepted ++ take k cs) (omega arith);
    })
Step-Inv {s} (reads killed n st out p run e) inv =
    let w = read-eq killed n s.pipe inv.idle run in
    rw e (record {
      idle = w.idle;
      stream =
          append_assoc s.delivered out (contents p)
          ∙ ap (λ xs. s.delivered ++ xs) w.bytes
          ∙ inv.stream;
    })
Step-Inv {s} (closes writable gone p run e) inv =
    let (idle, same) = close-eq writable s.pipe inv.idle run in
    rw e (record { idle = idle; stream = ap (λ xs. s.delivered ++ xs) same ∙ inv.stream })

Reach-Inv : {s t : Sys} → Inv s → Reach s t → Inv t
Reach-Inv inv here = inv
Reach-Inv inv (next r st) = Step-Inv st (Reach-Inv inv r)

-- After any sequence of reads, writes and closes of a new pipe, what its readers got, followed by
-- what the pipe holds, is what its writers wrote: no byte is lost, invented, doubled or moved. The
-- pipe holds at most PIPESIZE bytes, and its lock is free.
pub Reach-stream :
    (p : Pipe) {t : Sys}
    → Reach (started p) t
    → (t.delivered ++ contents t.pipe ≡ t.accepted)
      × (length (contents t.pipe) ≤ pipe_size)
      × (t.pipe.locked ≡ false)
Reach-stream p {t} r =
    let inv = Reach-Inv (started-Inv p) r in
    (inv.stream, omega (arith, length-contents t.pipe, inv.idle.valid.fits), inv.idle.free)
