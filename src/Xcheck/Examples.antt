-- ===== src/Xcheck/Examples.antt =====
-- A small image: its bitmap is block 3, and inode 0 has block 5.
use operating_systems_three.Prelude.{◌≡◌, refl, ◌==◌, if◌then◌else◌, update}
use operating_systems_three.Fs.{has}
use operating_systems_three.Xcheck.{pass, Image, get_int, get_short, Super, node_at}
use operating_systems_three.Xcheck.Blocks.{
  mark, mark_reserved, mark_node, mark_add, mark_used_blocks, check_byte, check_bytes, check_bitmap,
}

abbrev super_block : Super
super_block = record { size = 1000; nblocks = 996; ninodes = 1; inodestart = 2; bmapstart = 3 }

abbrev image : Image
image p = if p == 1036 then 5 else (if p == 1536 then 47 else 0)

image_accepted : check_bitmap super_block image (λ _. 0) ≡ pass tt
unfolding check_bitmap mark_used_blocks mark_add mark_node mark mark_reserved check_bytes check_byte
    node_at get_int get_short update has
image_accepted = refl

-- The third and the fourth byte of a number are read as if they were the second.
misread : get_int (λ p. if p == 2 then 1 else 0) 0 ≡ 256
unfolding get_int
misread = refl
