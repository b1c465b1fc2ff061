-- ===== src/Inode/Examples.antt =====
-- The inode cache with one entry that two references share.
use operating_systems_three.Prelude.{
  ℕ, ◌/◌, ◌%◌, ◌+◌, ◌^◌, ◌≤◌, ◌<◌, ◌⊎◌, List, Option, none, some, refl, sym, subst, arith, ◌≡◌, ◌≢◌,
  true, ◌==◌, if◌then◌else◌, false, [], ◌∷◌, update, ok, ◌>>=◌,
}
use operating_systems_three.File.Refs.{count}
use operating_systems_three.Locks.{initsleeplock}
use operating_systems_three.Inode.{Dinode, Inode, Icache, is_for, iget, iget_scan, iput}
use operating_systems_three.Inode.Puts.{Fate, iput-Holds}
use operating_systems_three.Inode.Loops.{pointers}
use operating_systems_three.Inode.Trunc.{indirect, file_blocks, IsFile}
use operating_systems_three.Fs.{Disk, bblock, has, mask, bpb}
use operating_systems_three.Fs.Alloc.{IsMarked}
use operating_systems_three.Inode.Ialloc.{Allocs, ialloc-Holds}
use operating_systems_three.Inode.Bmap.{bmap}
use operating_systems_three.Inode.Slots.{IsMapped, slot}
use operating_systems_three.Inode.Reads.{readi, file_bytes, IsDense, readi_lem}
use operating_systems_three.Inode.Dirs.{
  same_name, dirent_size, dirent_inum, dirent_name, matches, dirlookup,
}
use operating_systems_three.Inode.Lookup.{IsDir, IsEntry, dirent_at, dirlookup_lem}
use operating_systems_three.Inode.Mapping.{MapsTo, bmap_lem}
use operating_systems_three.Fs.Free.{used}
use operating_systems_three.Inode.Refs.{Holds}

abbrev no_dinode : Dinode
no_dinode = record { kind = 0; major = 0; minor = 0; nlink = 1; size = 0; addrs = λ _. 0 }

abbrev no_inode : Inode
no_inode = record {
  dev = 0;
  inum = 0;
  ref = 0;
  lock = initsleeplock;
  valid = false;
  copy = no_dinode;
}

abbrev cache : Icache
cache = record {
  locked = false;
  inode = λ i. if i == 0 then record no_inode { dev = 1; inum = 7; ref = 2 } else no_inode;
  dinode = λ _. no_dinode;
  disk = record { size = 16; bmapstart = 2; blocks = λ _ _. 0; logged = [] };
}

cache-Holds : Holds (0 ∷ 0 ∷ []) cache
unfolding is_for count
cache-Holds = record {
  free = refl;
  counted = λ i l. ground arith;
  one = λ i j d n l m a b. ground arith;
}

-- Inode 7 is found in its entry, and a new inode gets the next.
entries_lem :
    ◌>>=◌ {B = ℕ × ℕ} (iget 1 7 cache) (λ (i, t). iget 1 9 t >>= λ (j, t). ok (i, j)) ≡ ok (0, 1)
unfolding iget update iget_scan
entries_lem = refl

abbrev addrs : ℕ → ℕ
addrs k = if k == 0 then 5 else 0

-- The free map has the blocks below 6 in use.
abbrev mapped : Disk
mapped = record { size = 16; bmapstart = 2; blocks = λ n k. if k == 0 then 63 else 0; logged = [] }

-- Inode 7 has one reference left, no links, and block 5.
abbrev doomed : Icache
doomed = record {
  locked = false;
  inode = λ i.
      if i == 0
      then record no_inode {
        dev = 1;
        inum = 7;
        ref = 1;
        valid = true;
        copy = record no_dinode { kind = 2; nlink = 0; size = 3; addrs = addrs };
      }
      else no_inode;
  dinode = λ _. no_dinode;
  disk = mapped;
}

doomed-Holds : Holds (0 ∷ []) doomed
unfolding is_for count
doomed-Holds = record {
  free = refl;
  counted = λ i l. ground arith;
  one = λ i j d n l m a b. ground arith;
}

file_blocks_five : file_blocks addrs mapped ≡ 5 ∷ []
unfolding file_blocks pointers indirect
file_blocks_five = refl

five-used : used 5 mapped ≡ true
unfolding used bblock has mask
five-used = refl

only_five : (b : ℕ) → count b (5 ∷ []) ≢ 0 → b ≡ 5
unfolding count
only_five b n = ground arith

addrs-IsFile : IsFile addrs mapped
addrs-IsFile = record {
  named = rw file_blocks_five (record {
    once = λ b. unfold count in ground arith;
    busy = λ b n. subst (λ b. used b mapped ≡ true) (sym (only_five b n)) five-used;
  });
  apart = λ b n. unfold bblock in omega arith;
}

iput-Holds_example :
    (t' : Icache) × (iput 4 0 doomed ≡ ok (true, t'))
    × Holds [] t'
    × ((t'.inode 0).lock.locked ≡ false)
    × Fate true 7 addrs mapped t'.disk doomed.dinode t'.dinode
unfolding count
iput-Holds_example = iput-Holds 4 0 [] doomed (omega arith) doomed-Holds refl (λ _. addrs-IsFile)

mapped-IsMapped : IsMapped mapped
unfolding IsMarked bblock used has mask
mapped-IsMapped = record {
  marked = λ a l. let first : a / bpb ≡ 0 = omega arith in rw first refl;
  inside = λ a l. omega arith;
  boot = refl;
  small = omega arith;
}

bmap_lem_example : MapsTo 20 addrs mapped (bmap 20 addrs mapped)
bmap_lem_example = bmap_lem 20 addrs mapped (omega arith) mapped-IsMapped (λ nz. absurd (nz refl))

ialloc-Holds_example : Allocs 1 2 16 (0 ∷ 0 ∷ []) cache
ialloc-Holds_example = ialloc-Holds 1 2 16 (0 ∷ 0 ∷ []) cache cache-Holds

-- A file of three bytes, in block 5.
abbrev three : Dinode
three = record no_dinode { kind = 2; size = 3; addrs = addrs }

abbrev no_device : ℕ → Option (ℕ → Option (List ℕ))
no_device major = none

three-IsDense : IsDense 3 addrs mapped
unfolding IsDense slot
three-IsDense n l = let first : n ≡ 0 = omega arith in rw first (λ e. omega (arith, e))

readi_lem_example :
    (1 ≤ 3
      → 1 + 10 < 2 ^ 32
      → readi no_device 1 10 three mapped ≡ ok (some (file_bytes 2 1 addrs mapped), addrs, mapped))
    × ((3 < 1) ⊎ (2 ^ 32 ≤ 1 + 10) → readi no_device 1 10 three mapped ≡ ok (none, addrs, mapped))
readi_lem_example =
    readi_lem no_device 1 10 three mapped (omega arith) (omega arith) (λ e. omega (arith, e))
      (omega arith) mapped-IsMapped (λ nz. absurd (nz refl)) three-IsDense

abbrev one_file : Icache
one_file = record doomed {
  inode = λ i.
      if i == 0 then record no_inode { dev = 1; inum = 7; ref = 1; copy = three } else no_inode;
}

-- The blocks have an entry for inode 63 with the name "a" in front, and the free map as before.
abbrev listed : Disk
listed = record mapped { blocks = λ n k. if k == 0 then 63 else (if k == 2 then 97 else 0) }

listed-IsMapped : IsMapped listed
unfolding IsMarked bblock used has mask
listed-IsMapped = record {
  marked = λ a l. let first : a / bpb ≡ 0 = omega arith in rw first refl;
  inside = λ a l. omega arith;
  boot = refl;
  small = omega arith;
}

abbrev folder : Dinode
folder = record no_dinode { kind = 1; size = 32; addrs = addrs }

folder-IsDense : IsDense 32 addrs listed
unfolding IsDense slot
folder-IsDense n l = let first : n ≡ 0 = omega arith in rw first (λ e. omega (arith, e))

folder-IsDir : IsDir folder listed
folder-IsDir = record {
  kind = refl;
  whole = refl;
  small = omega arith;
  mapped = listed-IsMapped;
  last = λ nz. absurd (nz refl);
  dense = folder-IsDense;
}

abbrev opened : Icache
opened = record cache {
  inode = update cache.inode 0 (record no_inode { ref = 1; copy = folder });
  disk = listed;
}

opened-IsDir : IsDir (opened.inode 0).copy opened.disk
unfolding update
opened-IsDir = folder-IsDir

abbrev name_a : List ℕ
name_a = 97 ∷ []

dirlookup_lem_example :
    ((o : ℕ) × (dirlookup no_device 0 name_a opened
        ≡ iget (opened.inode 0).dev (dirent_inum (dirent_at o (opened.inode 0).copy listed)) opened
          >>= λ (j, u). ok (some (j, o), u))
      × (o % dirent_size ≡ 0)
      × (o < (opened.inode 0).copy.size)
      × IsEntry name_a (dirent_at o (opened.inode 0).copy listed)
      × ((p : ℕ)
          → p < o
          → p % dirent_size ≡ 0
          → ¬ IsEntry name_a (dirent_at p (opened.inode 0).copy listed)))
    ⊎ ((dirlookup no_device 0 name_a opened ≡ ok (none, opened))
        × ((p : ℕ)
            → p < (opened.inode 0).copy.size
            → p % dirent_size ≡ 0
            → ¬ IsEntry name_a (dirent_at p (opened.inode 0).copy listed)))
dirlookup_lem_example = dirlookup_lem no_device 0 name_a opened opened-IsDir

a_matches : matches name_a (dirent_at 0 folder listed) ≡ true
unfolding matches file_bytes slot same_name dirent_inum dirent_name
a_matches = refl
