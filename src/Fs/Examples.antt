-- ===== src/Fs/Examples.antt =====
-- A disk of 16 blocks, of which the first three are in use, the last of them for the free map.
use operating_systems_three.Prelude.{
  ℕ, ◌/◌, ◌≡◌, refl, arith, ◌==◌, if◌then◌else◌, List, [], ◌∷◌, some, map, take, c_str, IsText,
}
use operating_systems_three.Fs.{bpb, Disk, bblock, balloc, has, mask, find_bit}
use operating_systems_three.Fs.Free.{used}
use operating_systems_three.Fs.Names.{dirsiz, walk}
use operating_systems_three.Fs.Split.{split, nonempty, walk-split}
use operating_systems_three.Fs.Alloc.{IsMarked, Allocates, balloc_lem}

abbrev small : Disk
small = record {
  size = 16;
  bmapstart = 2;
  blocks = λ n i. if n == 2 then (if i == 0 then 7 else 0) else 9;
  logged = [];
}

small-IsMarked : IsMarked small
unfolding IsMarked bblock used has mask
small-IsMarked a l = let first : a / bpb ≡ 0 = omega arith in rw first refl

balloc_lem_example : Allocates small (balloc small)
balloc_lem_example = balloc_lem small small-IsMarked

-- Block 3 is the first free one.
first_free : find_bit 8 0 0 (small.blocks 2) 16 ≡ some 3
unfolding find_bit
first_free = refl

-- "/a//bb".
abbrev path : List ℕ
path = 47 ∷ 97 ∷ 47 ∷ 47 ∷ 98 ∷ 98 ∷ []

names : walk 7 path [] ≡ (97 ∷ []) ∷ (98 ∷ 98 ∷ []) ∷ []
unfolding walk c_str
names = refl

path-IsText : IsText path
path-IsText = ground arith

walk-split_example : walk 7 path [] ≡ map (take dirsiz) (nonempty (split path))
walk-split_example = walk-split 7 path [] path-IsText (omega arith)
