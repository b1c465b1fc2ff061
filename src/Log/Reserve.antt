-- ===== src/Log/Reserve.antt =====
-- Operations that run side by side: `begin_op` lets one in only if the log has room for all that
-- the running ones may still write. A budget is the number of blocks that a running operation may
-- still log, MAXOPBLOCKS when it begins.
use operating_systems_three.Prelude.{
  ℕ, suc, ◌+◌, ◌*◌, ◌≡◌, ◌≤◌, ◌<◌, sym, ap, subst, ◌∙◌, arith, inl, inr, Bool, true, false,
  Bool-cases, ok, List, [], ◌∷◌, ◌++◌, length, length-append,
}
use mathlib.Core.Bool.{false≢true}
use operating_systems_three.Log.{Log, max_op_blocks, log_size, commit}
use operating_systems_three.Log.Ops.{begin_op, end_begin, end_commit, log_write}
use operating_systems_three.Log.Absorb.{Written, log_write-Written}
use operating_systems_three.Log.Counters.{commit-Emptied}

pub record Sys : Type 0 where
  pub log : Log
  pub budgets : List ℕ

abbrev pub sum : List ℕ → ℕ
sum [] = 0
sum (x ∷ xs) = x + sum xs

abbrev pub Small : List ℕ → Type 0
Small [] = Unit
Small (x ∷ xs) = (x ≤ max_op_blocks) × Small xs

sum-append : (xs ys : List ℕ) → sum (xs ++ ys) ≡ sum xs + sum ys
sum-append [] ys = omega arith
sum-append (x ∷ xs) ys = omega (arith, sum-append xs ys)

Small-sum : (xs : List ℕ) → Small xs → sum xs ≤ length xs * max_op_blocks
Small-sum [] h = omega arith
Small-sum (x ∷ xs) h = omega (arith, Small-sum xs h.1)

-- Replacing one budget by a smaller one, or by none.
Small-lower : (xs ys : List ℕ) (m k : ℕ) → k ≤ m → Small (xs ++ m ∷ ys) → Small (xs ++ k ∷ ys)
Small-lower [] ys m k h s = (omega arith, s.1)
Small-lower (x ∷ xs) ys m k h s = (s.0, Small-lower xs ys m k h s.1)

Small-drop : (xs ys : List ℕ) (m : ℕ) → Small (xs ++ m ∷ ys) → Small (xs ++ ys)
Small-drop [] ys m s = s.1
Small-drop (x ∷ xs) ys m s = (s.0, Small-drop xs ys m s.1)

pub data Step (s t : Sys) : Type 0 where
  begins :
      (l : Log)
      → begin_op s.log ≡ ok (true, l)
      → t ≡ record { log = l; budgets = max_op_blocks ∷ s.budgets }
      → Step s t
  waits : (l : Log) → begin_op s.log ≡ ok (false, l) → t ≡ record s { log = l } → Step s t
  logs :
      (xs ys : List ℕ) (m b : ℕ) (l : Log)
      → s.budgets ≡ xs ++ suc m ∷ ys
      → log_write b s.log ≡ ok l
      → t ≡ record { log = l; budgets = xs ++ m ∷ ys }
      → Step s t
  ends :
      (xs ys : List ℕ) (m : ℕ) (last : Bool) (l : Log)
      → s.budgets ≡ xs ++ m ∷ ys
      → end_begin s.log ≡ ok (last, l)
      → t ≡ record { log = l; budgets = xs ++ ys }
      → Step s t
  commits :
      (l : Log)
      → s.log.committing ≡ true
      → end_commit (commit s.log) ≡ ok l
      → t ≡ record s { log = l }
      → Step s t

pub data Reach (s : Sys) : Sys → Type 0 where
  here : Reach s s
  next : {t u : Sys} → Reach s t → Step t u → Reach s u

pub record Inv (s : Sys) : Type 0 where
  pub free : s.log.locked ≡ false
  pub big : log_size < s.log.size
  pub counted : s.log.outstanding ≡ length s.budgets
  pub small : Small s.budgets
  pub reserved : s.log.n + sum s.budgets ≤ log_size
  pub alone : s.log.committing ≡ true → s.log.outstanding ≡ 0

ok_injective : {A : Type 0} (a b : A) → ok a ≡ ok b → a ≡ b
ok_injective a b e = cc

begins-Inv :
    (s : Sys) (l : Log)
    → Inv s
    → begin_op s.log ≡ ok (true, l)
    → Inv (record { log = l; budgets = max_op_blocks ∷ s.budgets })
unfolding begin_op
begins-Inv s l v e = ground (arith, v.alone, Small-sum s.budgets v.small)

waits-Inv :
    (s : Sys) (l : Log) → Inv s → begin_op s.log ≡ ok (false, l) → Inv (record s { log = l })
unfolding begin_op
waits-Inv s l v e = ground (arith, v.alone)

-- What the budgets of an invariant say once one of them is singled out.
split-facts :
    (s : Sys) (xs ys : List ℕ) (m : ℕ)
    → Inv s
    → s.budgets ≡ xs ++ m ∷ ys
    → (s.log.outstanding ≡ suc (length xs + length ys))
      × (s.log.n + (sum xs + (m + sum ys)) ≤ log_size)
      × Small (xs ++ m ∷ ys)
      × (s.log.committing ≡ false)
split-facts s xs ys m v split =
    let count : s.log.outstanding ≡ suc (length xs + length ys) =
      omega (arith, v.counted, ap length split, length-append xs (m ∷ ys)) in
    (
      count,
      omega (arith, v.reserved, ap sum split, sum-append xs (m ∷ ys)),
      subst Small split v.small,
      elim (Bool-cases s.log.committing) [
        | inl busy ↦ absurd (omega (arith, v.alone busy))
        | inr idle ↦ idle
      ],
    )

ends-Inv :
    (s : Sys) (xs ys : List ℕ) (m : ℕ) (last : Bool) (l : Log)
    → Inv s
    → s.budgets ≡ xs ++ m ∷ ys
    → end_begin s.log ≡ ok (last, l)
    → Inv (record { log = l; budgets = xs ++ ys })
unfolding end_begin
ends-Inv s xs ys m last l v split e = ground (
  arith,
  split-facts s xs ys m v split,
  Small-drop xs ys m,
  length-append xs ys,
  sum-append xs ys,
)

logs-Inv :
    (s : Sys) (xs ys : List ℕ) (m b : ℕ) (l : Log)
    → Inv s
    → s.budgets ≡ xs ++ suc m ∷ ys
    → log_write b s.log ≡ ok l
    → Inv (record { log = l; budgets = xs ++ m ∷ ys })
logs-Inv s xs ys m b l v split e =
    let (count, room, small, idle) = split-facts s xs ys (suc m) v split in
    let (l', run, w) =
      log_write-Written b s.log v.free (omega arith, omega (arith, v.big), omega arith) in
    let w : Written b s.log l = subst (Written b s.log) (ok_injective l' l (sym run ∙ e)) w in
    let grown : l.n ≤ s.log.n + 1 = elim w.grows [
      | inl g ↦ omega (arith, g.0)
      | inr g ↦ omega (arith, g.0)
    ] in
    record {
      free = w.free;
      big = omega (arith, v.big, w.same_log.1);
      counted = omega (arith, w.same_count.0, length-append xs (m ∷ ys));
      small = Small-lower xs ys (suc m) m (omega arith) small;
      reserved = omega (arith, sum-append xs (m ∷ ys));
      alone = λ busy. absurd (false≢true (sym idle ∙ sym w.same_count.1 ∙ busy));
    }

commits-Inv :
    (s : Sys) (l : Log)
    → Inv s
    → s.log.committing ≡ true
    → end_commit (commit s.log) ≡ ok l
    → Inv (record s { log = l })
unfolding end_commit
commits-Inv s l v busy e = ground (arith, commit-Emptied s.log)

Step-Inv : {s t : Sys} → Step s t → Inv s → Inv t
Step-Inv {s} (begins l run e) v = rw e (begins-Inv s l v run)
Step-Inv {s} (waits l run e) v = rw e (waits-Inv s l v run)
Step-Inv {s} (logs xs ys m b l split run e) v = rw e (logs-Inv s xs ys m b l v split run)
Step-Inv {s} (ends xs ys m last l split run e) v = rw e (ends-Inv s xs ys m last l v split run)
Step-Inv {s} (commits l busy run e) v = rw e (commits-Inv s l v busy run)

pub Reach-Inv : {s t : Sys} → Reach s t → Inv s → Inv t
Reach-Inv here v = v
Reach-Inv (next r st) v = Step-Inv st (Reach-Inv r v)
