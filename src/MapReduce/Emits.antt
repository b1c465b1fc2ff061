-- ===== src/MapReduce/Emits.antt =====
-- A call of `MR_Emit` of P4a/mapreduce.c as a whole.
use operating_systems_three.Prelude.{
  ℕ, ◌≡◌, ◌≢◌, ◌⊎◌, ◌↔◌, inl, inr, refl, sym, ap, subst, ◌∙◌, Option, Option-cases, none, some,
  List, ◌∷◌, ℕ_discrete,
}
use operating_systems_three.MapReduce.{
  Str, Table, State, find, emit_value, partition_of, emit_key, mr_emit,
}
use operating_systems_three.MapReduce.Keys.{IsAscending, HasKey}
use operating_systems_three.MapReduce.Links.{emit_key_lem}
use operating_systems_three.MapReduce.Values.{Values, set_values, Holds}
use operating_systems_three.MapReduce.Operations.{HasRoom, behind, emit_value-Holds}
use operating_systems_three.MapReduce.Counts.{IsReady}

emit_value-unfound :
    (room : ℕ → ℕ) (stale : List Str) (k v : Str) (t : Table)
    → find k t ≡ none
    → emit_value room stale k v t ≡ none
unfolding emit_value
emit_value-unfound room stale k v t f = rw (f, emit_value) refl

some_inj : (a b : ℕ) → some a ≡ some b → a ≡ b
some_inj a b e = cc

module _ (room : ℕ → ℕ) (stale : List Str) (partitioner : Str → ℕ → ℕ) (partitions : ℕ) (k v : Str)
    (s : State) where
  abbrev owner : Str → Option ℕ
  owner = partition_of partitioner partitions

  mr_emit-astray : owner k ≡ none → mr_emit room stale partitioner partitions k v s ≡ none
  unfolding mr_emit
  mr_emit-astray e = rw (e, mr_emit) refl

  mr_emit-cut :
      (p : ℕ)
      → owner k ≡ some p
      → emit_value room stale k v s.data_values ≡ none
      → mr_emit room stale partitioner partitions k v s ≡ none
  unfolding mr_emit
  mr_emit-cut p e f = rw (e, f, mr_emit) refl

  mr_emit-last :
      (p i : ℕ) (t : Table)
      → owner k ≡ some p
      → emit_value room stale k v s.data_values ≡ some (i, t)
      → mr_emit room stale partitioner partitions k v s
        ≡ emit_key room k i p (record s { data_values = t })
  unfolding mr_emit
  mr_emit-last p i t e f = rw (e, f, mr_emit) refl

  keys_after :
      (p : ℕ) (u : State)
      → owner k ≡ some p
      → ((j : Str) → HasKey j (u.sorted_data p) ↔ ((j ≡ k) ⊎ HasKey j (s.sorted_data p)))
      → ((q : ℕ) → q ≢ p → u.sorted_data q ≡ s.sorted_data q)
      → (q : ℕ) (j : Str)
      → HasKey j (u.sorted_data q) ↔ (((j ≡ k) × (owner k ≡ some q)) ⊎ HasKey j (s.sorted_data q))
  keys_after p u own keys others q j = elim (ℕ_discrete q p) [
    | yes e ↦ rw e (
      λ h. elim ((keys j).0 h) [ inl f ↦ inl (f, own) | inr g ↦ inr g ],
      λ h. (keys j).1 (elim h [ inl f ↦ inl f.0 | inr g ↦ inr g ]),
    )
    | no ne ↦
        rw (others q ne) (
          λ h. inr h,
          λ h. elim h [ inl f ↦ absurd (ne (some_inj q p (sym f.1 ∙ own))) | inr g ↦ g ],
        )
  ]

-- Let the table have the values `m`, and the keys of each partition be in the order of `strcmp`, each
-- once, in its own partition, with their slots in the table. `MR_Emit` leaves a state of the same kind,
-- in which the key is in the list of its partition, no other key has come or gone, and the key has the
-- new value in front of its old ones, or, if there is none, of what the unset link of the new node
-- leads to; or else the partitioner gives no partition, the search for the key leaves the table, or
-- `malloc` gave a block without room for the NUL of the key or the value.
pub mr_emit-IsReady :
    (room : ℕ → ℕ) (stale : List Str) (partitioner : Str → ℕ → ℕ) (partitions : ℕ) (k v : Str)
    (s : State) (m : Values)
    → IsReady (partition_of partitioner partitions) m s
    → ((u : State) × (mr_emit room stale partitioner partitions k v s ≡ some u)
        × IsReady (partition_of partitioner partitions) (set_values m k (v ∷ behind stale (m k))) u
        × ((p : ℕ) (j : Str)
            → HasKey j (u.sorted_data p) ↔ (
                ((j ≡ k) × (partition_of partitioner partitions k ≡ some p))
                ⊎ HasKey j (s.sorted_data p))))
      ⊎ ((mr_emit room stale partitioner partitions k v s ≡ none)
          × ((partition_of partitioner partitions k ≡ none)
              ⊎ ((find k s.data_values ≡ none) ⊎ ((¬ HasRoom room v) ⊎ (¬ HasRoom room k)))))
mr_emit-IsReady room stale partitioner partitions k v s m h =
    let own = partition_of partitioner partitions in
    elim (Option-cases (own k)) [
      | inl e ↦ inr (mr_emit-astray room stale partitioner partitions k v s e, inl e)
      | inr (p, e) ↦ elim (Option-cases (find k s.data_values)) [
        | inl f ↦
            let cut = emit_value-unfound room stale k v s.data_values f in
            inr (mr_emit-cut room stale partitioner partitions k v s p e cut, inr (inl f))
        | inr (i, f) ↦ elim (emit_value-Holds room stale k v s.data_values m i h.table f) [
          | inr (cut, why) ↦ inr (
            mr_emit-cut room stale partitioner partitions k v s p e cut,
            inr (inr (elim why [ inl a ↦ inl a | inr b ↦ inr b.1 ])),
          )
          | inl (t, run, table, ext, _, _) ↦
              let last = mr_emit-last room stale partitioner partitions k v s p i t e run in
              elim (emit_key_lem room k i p (record s { data_values = t }) (h.ascending p)) [
                | inr (cut, _, tight) ↦ inr (last ∙ cut, inr (inr (inr tight)))
                | inl (u, done, asc, keys, others, same) ↦
                    let after =
                      keys_after room stale partitioner partitions k v s p u e keys others in
                    inl (
                      u,
                      last ∙ done,
                      record {
                        table =
                            subst (λ x. Holds x (set_values m k (v ∷ behind stale (m k))))
                              (sym same) table;
                        ascending = λ q. elim (ℕ_discrete q p) [
                          | yes y ↦ subst (λ x. IsAscending (u.sorted_data x)) (sym y) asc
                          | no ne ↦ subst IsAscending (sym (others q ne)) (h.ascending q)
                        ];
                        placed = λ q j z.
                            subst (λ (x : Table). (n : ℕ) × ((x n).key ≡ some j)) (sym same)
                              (elim ((after q j).0 z) [
                                | inl y ↦ (ext.place, ext.at_place ∙ ap some (sym y.0))
                                | inr y ↦ let (n, slot) = h.placed q j y in (n, ext.keeps n j slot)
                              ]);
                        owned = λ q j z. elim ((after q j).0 z) [
                          | inl y ↦ ap own y.0 ∙ y.1
                          | inr y ↦ h.owned q j y
                        ];
                      },
                      after,
                    )
              ]
        ]
      ]
    ]
