-- ===== src/Log/Absorb.antt =====
-- `log_write`: a block is logged once, however often it is written.
use operating_systems_three.Prelude.{
  ℕ, zero, suc, ◌+◌, ◌-◌, ◌≡◌, ◌≢◌, ◌≤◌, ◌<◌, ◌⊎◌, ◌↔◌, refl, sym, ap, ◌∙◌, arith, inl, inr, update,
  update_self, update_ne, ◌==◌, true, false, Bool-cases, ok, panic, ℕ_discrete, ltb, leb, ◌||◌,
  if◌then◌else◌,
}
use operating_systems_three.Log.{Log, log_size}
use operating_systems_three.Log.Ops.{find_loop, log_write}
use operating_systems_three.Log.Txn.{Out, Layout}

-- The first index from `t` on that holds `b`, or the end.
pub record Found (b : ℕ) (block : ℕ → ℕ) (t end i : ℕ) : Type 0 where
  pub from : t ≤ i
  pub to : i ≤ end
  pub skipped : (j : ℕ) → t ≤ j → j < i → block j ≢ b
  pub hit : i < end → block i ≡ b

find_loop-Found : (r t b : ℕ) (block : ℕ → ℕ) → Found b block t (t + r) (find_loop r t b block)
unfolding find_loop
find_loop-Found zero t b block = record {
  from = omega arith;
  to = omega arith;
  skipped = λ j lo hi. absurd (omega arith);
  hit = λ h. absurd (omega arith);
}
find_loop-Found (suc r) t b block = elim (Bool-cases (block t == b)) [
  | inl e ↦ rw e (record {
    from = omega arith;
    to = omega arith;
    skipped = λ j lo hi. absurd (omega arith);
    hit = λ h. ground arith;
  })
  | inr e ↦
      let f = find_loop-Found r (t + 1) b block in
      rw e (record {
        from = omega (arith, f.from);
        to = omega (arith, f.to);
        skipped = λ j lo hi. elim (ℕ_discrete j t) [
          | yes same ↦ rw same (ground arith)
          | no ne ↦ f.skipped j (omega arith) hi
        ];
        hit = λ h. f.hit (omega arith);
      })
]

-- What `log_write` of block `b` leaves.
pub record Written (b : ℕ) (s s' : Log) : Type 0 where
  pub free : s'.locked ≡ false
  pub logged : (i : ℕ) × (i < s'.n) × (s'.block i ≡ b)
  pub kept : (j : ℕ) → j < s.n → s'.block j ≡ s.block j
  pub pinned : s'.dirty b ≡ true
  pub grows :
      ((s'.n ≡ s.n) × ((i : ℕ) × (i < s.n) × (s.block i ≡ b)))
      ⊎ ((s'.n ≡ s.n + 1) × ((j : ℕ) → j < s.n → s.block j ≢ b))
  pub same_log : (s'.start ≡ s.start) × (s'.size ≡ s.size)
  pub same_count : (s'.outstanding ≡ s.outstanding) × (s'.committing ≡ s.committing)

-- The state after the search has stopped at `i`.
abbrev pub entered : ℕ → ℕ → Log → Log
entered b i s = record s {
  block = update s.block i b;
  n = if i == s.n then s.n + 1 else s.n;
  dirty = update s.dirty b true;
}

-- The guards of `log_write`.
abbrev pub HasRoom : Log → Type 0
HasRoom s = (s.n < log_size) × (s.n < s.size - 1) × (1 ≤ s.outstanding)

log_write-ok :
    (b : ℕ) (s : Log)
    → s.locked ≡ false
    → HasRoom s
    → log_write b s ≡ ok (record (entered b (find_loop s.n 0 b s.block) s) { locked = false })
unfolding log_write
log_write-ok b s free room = ground arith

-- With the lock free and room in the log, inside a transaction, `log_write` returns with the block
-- logged and its buffer dirty, all entries kept, and one entry more exactly if the block was not
-- logged before.
pub log_write-Written :
    (b : ℕ) (s : Log)
    → s.locked ≡ false
    → HasRoom s
    → (s' : Log) × (log_write b s ≡ ok s') × Written b s s'
log_write-Written b s free room =
    let f = find_loop-Found s.n 0 b s.block in
    let i = find_loop s.n 0 b s.block in
    (
      record (entered b i s) { locked = false },
      log_write-ok b s free room,
      record {
        free = refl;
        logged = (i, ground (arith, f.to), update_self s.block i b);
        kept = λ j hj. elim (ℕ_discrete j i) [
          | yes same ↦ rw same (update_self s.block i b ∙ sym (f.hit (omega arith)))
          | no ne ↦ update_ne s.block i j b ne
        ];
        pinned = update_self s.dirty b true;
        grows = elim (Bool-cases (i == s.n)) [
          | inl e ↦ inr (rw e, λ j hj. f.skipped j (omega arith) (ground arith))
          | inr e ↦ inl (rw e, (i, ground (arith, f.to), f.hit (ground (arith, f.to))))
        ];
        same_log = (refl, refl);
        same_count = (refl, refl);
      },
    )

-- With the lock free, `log_write` panics exactly where the log has no room or no operation is
-- running.
pub log_write-panic_iff :
    (b : ℕ) (s : Log) → s.locked ≡ false → (log_write b s ≡ panic) ↔ (¬ HasRoom s)
log_write-panic_iff b s free = (forth, back)
  where
    forth : log_write b s ≡ panic → ¬ HasRoom s
    forth e room = let r = log_write-ok b s free room in cc

    back : ¬ HasRoom s → log_write b s ≡ panic
    back none_left =
        unfold log_write in
        elim (Bool-cases ((leb log_size s.n || leb (s.size - 1) s.n) || ltb s.outstanding 1)) [
          | inl e ↦ ground arith
          | inr e ↦
              let room : HasRoom s = (ground arith, ground arith, ground arith) in
              absurd (none_left room)
        ]

module _ (b : ℕ) (s s' : Log) (w : Written b s s') (lay : Layout s.start s.size s.n s.block) where
  absorbed-Layout : s'.n ≡ s.n → Layout s.start s.size s'.n s'.block
  absorbed-Layout same = record {
    small = omega (arith, lay.small);
    outside = λ i hi. rw (w.kept i (omega arith)) (lay.outside i (omega arith));
    distinct = λ i j hi hj ne.
        rw (w.kept i (omega arith), w.kept j (omega arith))
          (lay.distinct i j (omega arith) (omega arith) ne);
  }

  -- A block that was not logged gets the entry at the end.
  newest : s'.n ≡ s.n + 1 → ((j : ℕ) → j < s.n → s.block j ≢ b) → s'.block s.n ≡ b
  newest more fresh =
      let (i, hi, e) = w.logged in
      elim (ℕ_discrete i s.n) [
        | yes same ↦ ap s'.block (sym same) ∙ e
        | no ne ↦ absurd (fresh i (omega arith) (sym (w.kept i (omega arith)) ∙ e))
      ]

  appended-Layout :
      Out s.start s.size b
      → s.n + 1 < s.size
      → s'.n ≡ s.n + 1
      → ((j : ℕ) → j < s.n → s.block j ≢ b)
      → Layout s.start s.size s'.n s'.block
  appended-Layout out room more fresh =
      let last = newest more fresh in
      record {
        small = omega arith;
        outside = λ i hi. elim (ℕ_discrete i s.n) [
          | yes same ↦ rw (same, last) out
          | no ne ↦ rw (w.kept i (omega arith)) (lay.outside i (omega arith))
        ];
        distinct = λ i j hi hj ne. elim (ℕ_discrete i s.n) [
          | yes ei ↦ λ e.
              fresh j (omega arith) (sym (w.kept j (omega arith)) ∙ sym e ∙ ap s'.block ei ∙ last)
          | no ni ↦ elim (ℕ_discrete j s.n) [
            | yes ej ↦ λ e.
                fresh i (omega arith) (sym (w.kept i (omega arith)) ∙ e ∙ ap s'.block ej ∙ last)
            | no nj ↦
                rw (w.kept i (omega arith), w.kept j (omega arith))
                  (lay.distinct i j (omega arith) (omega arith) ne)
          ]
        ];
      }

-- `log_write` of a block outside the log keeps the transaction well laid out: the logged blocks are
-- distinct, lie outside the log and fit into it.
pub log_write-Layout :
    (b : ℕ) (s : Log)
    → s.locked ≡ false
    → HasRoom s
    → Out s.start s.size b
    → Layout s.start s.size s.n s.block
    → (s' : Log) × (log_write b s ≡ ok s')
      × (s'.start ≡ s.start)
      × (s'.size ≡ s.size)
      × Layout s.start s.size s'.n s'.block
log_write-Layout b s free room out lay =
    let (s', run, w) = log_write-Written b s free room in
    (
      s',
      run,
      w.same_log.0,
      w.same_log.1,
      elim w.grows [
        | inl (same, hit) ↦ absorbed-Layout b s s' w lay same
        | inr (more, fresh) ↦ appended-Layout b s s' w lay out (omega (arith, room)) more fresh
      ],
    )
