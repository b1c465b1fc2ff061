-- ===== src/Inode/Scan.antt =====
-- The loop of `iget` over the entries of the cache.
use operating_systems_three.Prelude.{
  ℕ, zero, suc, ◌+◌, ◌≡◌, ◌≢◌, ◌≤◌, ◌<◌, ◌⊎◌, refl, subst, arith, inl, inr, true, false, Bool-cases,
  Option, none, some, ℕ_discrete,
}
use operating_systems_three.Inode.{Inode, cached, vacant, is_for, remember, iget_scan}

-- What the loop finds from entry `i` on.
pub scan-cached :
    (r i : ℕ) (o : Option ℕ) (dev inum k : ℕ) (inode : ℕ → Inode)
    → iget_scan r i o dev inum inode ≡ cached k
    → (k < i + r) × (is_for dev inum (inode k) ≡ true)
unfolding iget_scan
scan-cached zero i o dev inum k inode e = absurd (ground arith)
scan-cached (suc r) i o dev inum k inode e = elim (Bool-cases (is_for dev inum (inode i))) [
  | inl hit ↦
      let same : i ≡ k = ground arith in
      (omega arith, subst (λ k. is_for dev inum (inode k) ≡ true) same hit)
  | inr miss ↦
      let (l, hit) =
        scan-cached r (i + 1) (remember o i (inode i)) dev inum k inode (ground arith) in
      (omega arith, hit)
]

pub scan-absent :
    (r i : ℕ) (o p : Option ℕ) (dev inum : ℕ) (inode : ℕ → Inode)
    → iget_scan r i o dev inum inode ≡ vacant p
    → (j : ℕ) → i ≤ j
    → j < i + r
    → is_for dev inum (inode j) ≡ false
unfolding iget_scan
scan-absent zero i o p dev inum inode e j lo hi = absurd (omega arith)
scan-absent (suc r) i o p dev inum inode e j lo hi = elim (Bool-cases (is_for dev inum (inode i))) [
  | inl hit ↦ absurd (ground arith)
  | inr miss ↦ elim (ℕ_discrete i j) [
    | yes same ↦ subst (λ j. is_for dev inum (inode j) ≡ false) same miss
    | no ne ↦
        scan-absent r (i + 1) (remember o i (inode i)) p dev inum inode (ground arith) j
          (omega arith) (omega arith)
  ]
]

pub scan-vacant :
    (r i : ℕ) (o : Option ℕ) (dev inum k : ℕ) (inode : ℕ → Inode)
    → iget_scan r i o dev inum inode ≡ vacant (some k)
    → (o ≡ some k) ⊎ ((k < i + r) × ((inode k).ref ≡ 0))
unfolding iget_scan remember
scan-vacant zero i o dev inum k inode e = ground arith
scan-vacant (suc r) i (some x) dev inum k inode e =
    ground (arith, scan-vacant r (i + 1) (some x) dev inum k inode)
scan-vacant (suc r) i none dev inum k inode e = ground (
  arith,
  scan-vacant r (i + 1) none dev inum k inode,
  scan-vacant r (i + 1) (some i) dev inum k inode,
)

pub scan-full :
    (r i : ℕ) (o : Option ℕ) (dev inum : ℕ) (inode : ℕ → Inode)
    → iget_scan r i o dev inum inode ≡ vacant none
    → (o ≡ none) × ((j : ℕ) → i ≤ j → j < i + r → (inode j).ref ≢ 0)
unfolding iget_scan remember
scan-full zero i o dev inum inode e = (ground arith, λ j lo hi. absurd (omega arith))
scan-full (suc r) i o dev inum inode e =
    let miss : is_for dev inum (inode i) ≡ false = ground arith in
    let (nothing, rest) =
      scan-full r (i + 1) (remember o i (inode i)) dev inum inode (ground arith) in
    let (was, busy) = at o nothing in
    (
      was,
      λ j lo hi. elim (ℕ_discrete i j) [
        | yes same ↦ subst (λ j. (inode j).ref ≢ 0) same busy
        | no ne ↦ rest j (omega arith) (omega arith)
      ],
    )
  where
    at : (o : Option ℕ) → remember o i (inode i) ≡ none → (o ≡ none) × ((inode i).ref ≢ 0)
    at (some x) e = cc
    at none e = (refl, ground arith)
