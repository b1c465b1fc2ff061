-- ===== src/Cache/Examples.antt =====
-- A cache of two buffers over a disk of four blocks.
use operating_systems_three.Prelude.{
  ℕ, ◌≡◌, ◌⊎◌, refl, arith, true, false, List, [], ◌∷◌, some, update, Outcome, ok, panic, ◌>>=◌,
}
use operating_systems_three.Locks.{initsleeplock, holdingsleep}
use operating_systems_three.Cache.{Buf, Bcache, bget, bread, brelse}
use operating_systems_three.Cache.Order.{In}
use operating_systems_three.Cache.Gets.{IsCache, Hit, Recycled, Full, bget_lem}
use operating_systems_three.Cache.Views.{view, IsCoherent}
use operating_systems_three.Cache.Reads.{bread-view}

abbrev empty : Buf
empty = record {
  valid = false;
  dirty = false;
  dev = 0;
  blockno = 0;
  lock = initsleeplock;
  refcnt = 0;
  contents = λ _. 0;
}

abbrev two : Bcache
two = record {
  locked = false;
  buf =
      update (λ _. empty) 1
        (record empty { dev = 1; blockno = 3; valid = true; contents = λ _. 7 });
  order = 1 ∷ 0 ∷ [];
  disk = λ _ _. 7;
  disksize = 4;
}

-- Block 2 is read into the buffer at the end of the list, which is then the first.
order_after : Outcome (List ℕ)
unfolding bread brelse
order_after = bread 5 1 2 two >>= λ (_, c). brelse 5 0 c >>= λ c. ok c.order

order_after_lem : order_after ≡ ok (0 ∷ 1 ∷ [])
unfolding order_after update
order_after_lem = refl

two-IsCoherent : IsCoherent two
unfolding In update
two-IsCoherent = record {
  cache = record { free = refl; one = λ a b i j d n nz. ground arith };
  clean = λ a i u v d. ground arith;
  dirty = λ a i d. ground arith;
}

bget_lem_example :
    ((b : ℕ) × (c' : Bcache) × (bget 1 2 two ≡ ok (b, c'))
      × (Hit 1 2 two b c' ⊎ Recycled 1 2 two b c')
      × IsCache c')
    ⊎ ((bget 1 2 two ≡ panic) × Full 1 2 two)
bget_lem_example = bget_lem 1 2 two (two-IsCoherent.cache)

abbrev got : Bcache
got = record two { buf = update two.buf 0 (record empty { dev = 1; blockno = 2; refcnt = 1 }) }

bread-view_example :
    (d : Bcache) × (bread 5 1 2 two ≡ ok (some 0, d))
    × ((d.buf 0).valid ≡ true)
    × ((d.buf 0).contents ≡ view two 2)
    × (holdingsleep 5 (d.buf 0).lock ≡ true)
    × ((m : ℕ) → view d m ≡ view two m)
    × IsCoherent d
unfolding bget update
bread-view_example = bread-view 5 2 0 two got two-IsCoherent (omega arith) refl refl
