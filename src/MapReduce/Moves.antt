-- ===== src/MapReduce/Moves.antt =====
-- The steps of reducers of P4a/wordcount.c that run side by side.
use operating_systems_three.Prelude.{
  ℕ, ◌+◌, ◌≡◌, ◌⊎◌, inl, inr, refl, sym, ap, ◌∙◌, Option, none, some, subst, List, [], ◌∷◌, ◌++◌,
  append-nil, update, update_self, update_ne, ℕ_discrete,
}
use operating_systems_three.MapReduce.{Str, Table, Node, State, get_next}
use operating_systems_three.MapReduce.Keys.{HasKey}
use operating_systems_three.MapReduce.Values.{Values, set_values, Holds}
use operating_systems_three.MapReduce.Operations.{
  Extends, first, rest_of, get_next-takes, get_next-held,
}
use operating_systems_three.MapReduce.Counts.{counted}
use operating_systems_three.MapReduce.Counts.{counted, IsReady}
use operating_systems_three.MapReduce.Reducers.{
  Worker, Sys, set_out, Taken, Step, counts, prints, Runs, starts, steps,
}
use operating_systems_three.MapReduce.Races.{
  to_print, Works, Working, to_print-zero, others-Works, counts-Works, prints-Works,
}

-- One reducer has moved, by a call for a key that it has, and the others stand where they stood.
move-Working :
    (owner : Str → Option ℕ) (s : State) (m0 : Values) (a : Sys) (h : Working owner s m0 a) (p : ℕ)
    (k : Str) (u : Table) (w : Worker)
    → owner k ≡ some p
    → Holds u (set_values h.left k (rest_of (h.left k)))
    → Extends a.table k u
    → Works owner u (set_values h.left k (rest_of (h.left k))) p (counted m0 (s.sorted_data p)) w
    → Working owner s m0 (record { table = u; worker = update a.worker p w })
move-Working owner s m0 a h p k u w own held ext g = record {
  left = set_values h.left k (rest_of (h.left k));
  table = held;
  works = λ q.
      let P : ℕ → Worker → Type 0 = λ j x.
        Works owner u (set_values h.left k (rest_of (h.left k))) j (counted m0 (s.sorted_data j))
          x in
      elim (ℕ_discrete q p) [
        | yes e ↦
            subst (λ j. P j (update a.worker p w j)) (sym e)
              (subst (P p) (sym (update_self a.worker p w)) g)
        | no ne ↦ subst (P q) (sym (update_ne a.worker p q w ne)) (
            others-Works owner a.table u h.left k p q (counted m0 (s.sorted_data q)) (a.worker q)
              own ne ext (h.works q))
      ];
}

abbrev standing : List Node → ℕ → List (Str × ℕ) → Worker
standing l c out = record { todo = l; count = c; printed = out }

-- A call for a reducer's first key, and where the reducer stands then.
call-Working :
    (owner : Str → Option ℕ) (room : ℕ → ℕ) (s : State) (m0 : Values) (a : Sys)
    (h : Working owner s m0 a) (p : ℕ) (n : Node) (ns : List Node) (o : Option Str) (u : Table)
    (w : Worker)
    → (a.worker p).todo ≡ n ∷ ns
    → ◌≡◌ {A = Taken} (get_next room n.key a.table) (some (o, u))
    → (Extends a.table n.key u
        → first (h.left n.key) ≡ o
        → Works owner a.table h.left p
            (counted m0 (s.sorted_data p))
            (standing (n ∷ ns) (a.worker p).count (a.worker p).printed)
        → Works owner u
            (set_values h.left n.key (rest_of (h.left n.key)))
            p
            (counted m0 (s.sorted_data p))
            w)
    → Working owner s m0 (record { table = u; worker = update a.worker p w })
call-Working owner room s m0 a h p n ns o u w todo got next =
    let at : Works owner a.table h.left p (counted m0 (s.sorted_data p))
        (standing (n ∷ ns) (a.worker p).count (a.worker p).printed) =
      subst
        (λ l.
          Works owner a.table h.left p (counted m0 (s.sorted_data p))
            (standing l (a.worker p).count (a.worker p).printed))
        todo (h.works p) in
    let slot = at.placed n.key (inl refl) in
    let took = get_next-takes room n.key a.table h.left slot.0 o u h.table slot.1 got in
    move-Working owner s m0 a h p n.key u w (at.owned n.key (inl refl)) took.1 took.2
      (next took.2 took.0 at)

Step-Working :
    (owner : Str → Option ℕ) (room : ℕ → ℕ) (s : State) (m0 : Values) (a b : Sys)
    → Working owner s m0 a
    → Step room a b
    → Working owner s m0 b
Step-Working owner room s m0 a b h (counts p n ns v u w todo got is_w) =
    let c = (a.worker p).count in
    let done = (a.worker p).printed in
    let out = counted m0 (s.sorted_data p) in
    call-Working owner room s m0 a h p n ns (some v) u w todo got (λ ext e at.
      subst (Works owner u (set_values h.left n.key (rest_of (h.left n.key))) p out)
        (sym (is_w ∙ ap (λ l. standing l (c + 1) done) todo))
        (counts-Works owner a.table u h.left n ns p c done out ext at v e))
Step-Working owner room s m0 a b h (prints p n ns u w todo got is_w) =
    let c = (a.worker p).count in
    let done = (a.worker p).printed in
    let out = counted m0 (s.sorted_data p) in
    call-Working owner room s m0 a h p n ns none u w todo got (λ ext e at.
      subst (Works owner u (set_values h.left n.key (rest_of (h.left n.key))) p out) (sym is_w)
        (prints-Works owner a.table u h.left n ns p c done out ext at e))

nodes-cases : (ns : List Node) → (ns ≡ []) ⊎ ((n : Node) × (ms : List Node) × (ns ≡ n ∷ ms))
nodes-cases [] = inl refl
nodes-cases (n ∷ ns) = inr (n, ns, refl)

set_out-Working :
    (owner : Str → Option ℕ) (m : Values) (s : State)
    → IsReady owner m s
    → Working owner s m (set_out s)
set_out-Working owner m s h = record {
  left = m;
  table = h.table;
  works = λ p. record {
    ascending = h.ascending p;
    placed = h.placed p;
    owned = h.owned p;
    total = to_print-zero m (s.sorted_data p);
  };
}

Runs-Working :
    (owner : Str → Option ℕ) (room : ℕ → ℕ) (m : Values) (s : State) (a : Sys)
    → IsReady owner m s
    → Runs room s a
    → Working owner s m a
Runs-Working owner room m s a h starts = set_out-Working owner m s h
Runs-Working owner room m s a h (steps {a = b} {b = c} r st) =
    Step-Working owner room s m b a (Runs-Working owner room m s b h r) st

-- Let the table have the values `m`, and the keys of each partition be in the order of `strcmp`, each
-- once, in its own partition, with their slots in the table. However the reducers' calls of `get_next`
-- are interleaved: a reducer that has gone through its keys has printed them in their order, each once,
-- with the number of its values in `m`; and as long as it has keys left, `get_next` returns for the
-- first of them.
pub reducers-print :
    (owner : Str → Option ℕ) (room : ℕ → ℕ) (m : Values) (s : State) (a : Sys) (p : ℕ)
    → IsReady owner m s
    → Runs room s a
    → (((a.worker p).todo ≡ []) × ((a.worker p).printed ≡ counted m (s.sorted_data p)))
      ⊎ ((n : Node) × (ns : List Node) × ((a.worker p).todo ≡ n ∷ ns)
          × ((o : Option Str) × (u : Table) × (get_next room n.key a.table ≡ some (o, u))))
reducers-print owner room m s a p h runs =
    let now = Runs-Working owner room m s a h runs in
    let w = now.works p in
    elim (nodes-cases (a.worker p).todo) [
      | inl over ↦ inl (
        over,
        sym (append-nil (a.worker p).printed)
            ∙ ap (λ l. (a.worker p).printed ++ to_print now.left (a.worker p).count l) (sym over)
            ∙ w.total,
      )
      | inr (n, ns, todo) ↦
          let (q, slot) = w.placed n.key (subst (HasKey n.key) (sym todo) (inl refl)) in
          let (u, run, _, _) = get_next-held room n.key a.table now.left q now.table slot in
          inr (n, ns, todo, (first (now.left n.key), u, run))
    ]
