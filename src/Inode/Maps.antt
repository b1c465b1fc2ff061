-- ===== src/Inode/Maps.antt =====
-- What `bmap` does to the block numbers of the file.
use operating_systems_three.Prelude.{
  ℕ, ◌+◌, ◌-◌, ◌*◌, ◌≡◌, ◌≢◌, ◌≤◌, ◌<◌, refl, sym, ap, ◌∙◌, arith, ◌==◌, ltb, true, false, update,
  update_self, update_ne, ℕ_discrete, dec_lt,
}
use operating_systems_three.Bytes.{store_word}
use operating_systems_three.Fs.{Disk, log_block}
use operating_systems_three.Fs.Free.{used}
use operating_systems_three.Fs.Alloc.{Taken}
use operating_systems_three.Syscall.{word}
use operating_systems_three.Inode.{ndirect, nindirect}
use operating_systems_three.Inode.Words.{word-store_self, word-store_ne}
use operating_systems_three.Inode.Slots.{
  slot, IsMapped, IsPlaced, taken_ne, Taken-IsMapped, Taken-IsPlaced, Taken-IsPlaced_self,
  Taken-kept, used-log_block,
}
use operating_systems_three.Inode.Laid.{
  IsLaid, Extended, same-Extended, placed_ne, add-IsLaid, log-IsMapped, log-IsPlaced,
}

pub slot-direct : (n : ℕ) (addrs : ℕ → ℕ) (d : Disk) → n < ndirect → slot n addrs d ≡ addrs n
unfolding slot
slot-direct n addrs d l = ground arith

pub slot-hole :
    (n : ℕ) (addrs : ℕ → ℕ) (d : Disk) → ndirect ≤ n → addrs ndirect ≡ 0 → slot n addrs d ≡ 0
unfolding slot
slot-hole n addrs d l z = ground arith

pub slot-entry :
    (n last : ℕ) (addrs : ℕ → ℕ) (d : Disk)
    → ndirect ≤ n
    → addrs ndirect ≡ last
    → last ≢ 0
    → slot n addrs d ≡ word (d.blocks last) (4 * (n - ndirect))
unfolding slot
slot-entry n last addrs d l e nz =
    let far : ltb n ndirect ≡ false = ground arith in
    let some_last : (last == 0) ≡ false = ground arith in rw (far, e, some_last) refl

-- The file and the disk after block `n` of the file was mapped to `a`.
pub record Mapped (n : ℕ) (addrs : ℕ → ℕ) (d : Disk) (a : ℕ) (addrs' : ℕ → ℕ) (d' : Disk)
    : Type 0 where
  pub here : slot n addrs' d' ≡ a
  pub nonzero : a ≢ 0
  pub others : (m : ℕ) → m < ndirect + nindirect → m ≢ n → slot m addrs' d' ≡ slot m addrs d
  pub kept : slot n addrs d ≢ 0 → (addrs' ≡ addrs) × (d' ≡ d)
  pub fresh :
      slot n addrs d ≡ 0
      → (a < d.size) × (used a d ≡ false) × (used a d' ≡ true) × ((k : ℕ) → d'.blocks a k ≡ 0)
  pub more : n < ndirect + nindirect → IsLaid addrs d → Extended addrs d addrs' d'

nonzero-Taken : (b : ℕ) (d d' : Disk) → IsMapped d → Taken d b d' → b ≢ 0
nonzero-Taken b d d' h t e = taken_ne 0 b d h.boot t.free (sym e)

-- A block that the file already has.
pub old-Mapped :
    (n a : ℕ) (addrs : ℕ → ℕ) (d : Disk) → slot n addrs d ≡ a → a ≢ 0 → Mapped n addrs d a addrs d
old-Mapped n a addrs d e nz = record {
  here = e;
  nonzero = nz;
  others = λ m l ne. refl;
  kept = λ _. (refl, refl);
  fresh = λ z. absurd (nz (sym e ∙ z));
  more = λ _ h. same-Extended addrs d h;
}

-- A new block is not the indirect block.
new_ne :
    (b : ℕ) (addrs : ℕ → ℕ) (d d' : Disk)
    → IsMapped d
    → (addrs ndirect ≢ 0 → IsPlaced (addrs ndirect) d)
    → Taken d b d'
    → b ≢ addrs ndirect
new_ne b addrs d d' h p t e = elim (ℕ_discrete (addrs ndirect) 0) [
  | yes z ↦ nonzero-Taken b d d' h t (e ∙ z)
  | no nz ↦ placed_ne (addrs ndirect) b d (p nz) t.free (sym e)
]

-- A direct block that is taken.
pub direct-Mapped :
    (n b : ℕ) (addrs : ℕ → ℕ) (d d' : Disk)
    → n < ndirect
    → addrs n ≡ 0
    → IsMapped d
    → (addrs ndirect ≢ 0 → IsPlaced (addrs ndirect) d)
    → Taken d b d'
    → Mapped n addrs d b (update addrs n b) d'
direct-Mapped n b addrs d d' l z h p t =
    let last : update addrs n b ndirect ≡ addrs ndirect =
      update_ne addrs n ndirect b (omega arith) in
    let here : slot n (update addrs n b) d' ≡ b =
      slot-direct n (update addrs n b) d' l ∙ update_self addrs n b in
    let others : (m : ℕ)
        → m < ndirect + nindirect
        → m ≢ n
        → slot m (update addrs n b) d' ≡ slot m addrs d =
      λ m lm ne. elim (dec_lt m ndirect) [
        | yes low ↦
            slot-direct m (update addrs n b) d' low
            ∙ update_ne addrs n m b ne
            ∙ sym (slot-direct m addrs d low)
        | no high ↦ elim (ℕ_discrete (addrs ndirect) 0) [
          | yes none_yet ↦
              slot-hole m (update addrs n b) d' (omega arith) (last ∙ none_yet)
              ∙ sym (slot-hole m addrs d (omega arith) none_yet)
          | no nz ↦
              slot-entry m (addrs ndirect) (update addrs n b) d' (omega arith) last nz
              ∙ ap (λ f. word f (4 * (m - ndirect))) (Taken-kept b (addrs ndirect) d d' t (p nz))
              ∙ sym (slot-entry m (addrs ndirect) addrs d (omega arith) refl nz)
        ]
      ] in
    record {
      here = here;
      nonzero = nonzero-Taken b d d' h t;
      others = others;
      kept = λ nz. absurd (nz (slot-direct n addrs d l ∙ z));
      fresh = λ _. (t.inside, t.free, t.bit, λ k. ap (λ f. f k) t.zeroed);
      more = λ ln laid. record {
        laid =
            add-IsLaid n b addrs (update addrs n b) d d' ln laid (Taken-IsMapped b d d' t h)
              (λ c q. Taken-IsPlaced b c d d' t q) (Taken-IsPlaced_self b d d' t h) t.free
              (new_ne b addrs d d' h p t) last here others;
        kept = λ c q ne. Taken-kept b c d d' t q;
        placed = λ c q. Taken-IsPlaced b c d d' t q;
      };
    }

-- An entry of the indirect block that is taken.
pub entry-Mapped :
    (n last b : ℕ) (addrs : ℕ → ℕ) (d d' : Disk)
    → ndirect ≤ n
    → addrs ndirect ≡ last
    → last ≢ 0
    → IsMapped d
    → IsPlaced last d
    → word (d.blocks last) (4 * (n - ndirect)) ≡ 0
    → Taken d b d'
    → Mapped n addrs d b addrs
        (log_block last (store_word (4 * (n - ndirect)) b (d'.blocks last)) d')
unfolding log_block
entry-Mapped n last b addrs d d' l e nz h p z t =
    let at = 4 * (n - ndirect) in
    let bytes = store_word at b (d'.blocks last) in
    let d₂ = log_block last bytes d' in
    let now : d₂.blocks last ≡ bytes = update_self d'.blocks last bytes in
    let apart : b ≢ last = λ q. taken_ne last b d p.busy t.free (sym q) in
    let here : slot n addrs d₂ ≡ b =
      slot-entry n last addrs d₂ l e nz
      ∙ ap (λ f. word f at) now
      ∙ word-store_self at b (d'.blocks last)
          (let i = t.inside in let s = h.small in omega arith) in
    let others : (m : ℕ) → m < ndirect + nindirect → m ≢ n → slot m addrs d₂ ≡ slot m addrs d =
      λ m lm ne. elim (dec_lt m ndirect) [
        | yes low ↦ slot-direct m addrs d₂ low ∙ sym (slot-direct m addrs d low)
        | no high ↦
            slot-entry m last addrs d₂ (omega arith) e nz
            ∙ ap (λ f. word f (4 * (m - ndirect))) now
            ∙ word-store_ne at b (4 * (m - ndirect)) (d'.blocks last) (omega arith)
            ∙ ap (λ f. word f (4 * (m - ndirect))) (Taken-kept b last d d' t p)
            ∙ sym (slot-entry m last addrs d (omega arith) e nz)
      ] in
    let placed : (c : ℕ) → IsPlaced c d → IsPlaced c d₂ = λ c q.
      log-IsPlaced last c bytes d' (Taken-IsPlaced b last d d' t p) (Taken-IsPlaced b c d d' t q) in
    record {
      here = here;
      nonzero = nonzero-Taken b d d' h t;
      others = others;
      kept = λ n0. absurd (n0 (slot-entry n last addrs d l e nz ∙ z));
      fresh = λ _. (
        t.inside,
        t.free,
        used-log_block b last bytes d' (
              (Taken-IsPlaced b last d d' t p).apart b
                (let i = t.inside in let (s, _) = t.layout in omega arith))
            ∙ t.bit,
        λ k. ap (λ f. f k) (update_ne d'.blocks last b bytes apart ∙ t.zeroed),
      );
      more = λ ln laid. record {
        laid =
            add-IsLaid n b addrs addrs d d₂ ln laid
              (log-IsMapped last bytes d' (Taken-IsPlaced b last d d' t p)
                (Taken-IsMapped b d d' t h))
              placed
              (log-IsPlaced last b bytes d' (Taken-IsPlaced b last d d' t p)
                (Taken-IsPlaced_self b d d' t h))
              t.free (λ q. apart (q ∙ e)) refl here others;
        kept = λ c q ne.
            update_ne d'.blocks last c bytes (λ x. ne (x ∙ sym e)) ∙ Taken-kept b c d d' t q;
        placed = placed;
      };
    }
