-- ===== src/Mount/Format.antt =====
-- lib/xxfs.c: `xxfs_mkfs`. The time is an argument; close and sync change nothing.
use xxfs.Base.{
  ℕ, ◌+◌, ◌-◌, ◌*◌, ◌/◌, not, Option, none, some, List, [], ◌∷◌, ◌++◌, ◌==◌, ltb, if◌then◌else◌,
  replicate, set, bit_and, u32, u64, sub64,
}
use xxfs.Check.Inode.{inode_set_checksum_ecc}
use xxfs.Fs.Disk.{magic, version, super_size, word_at, long_at, super_bytes, with_sum}
use xxfs.Fs.Field.{Field, put_all}
use xxfs.Fs.Inode.{
  inode_size, zero_inode, name_off, i_mode, i_file_type, i_nlinks, i_atime, i_mtime, i_ctime,
  i_btime, i_generation, ft_dir,
}
use xxfs.Os.{Os, file_open, file_create, file_truncate, file_size, file_pwrite}
use xxfs.Os.Image.{put_bytes}
use xxfs.Paged.Hash.{xxh64}
use xxfs.Paged.Index.{Rc, ok, eio, einval}
use xxfs.Paged.Page.{Page, Slot, zero_slot, empty_page, page_bytes, le}
use xxfs.PathName.{slash}
use xxfs.Super.{Super, block_size}

-- `XXFS_WAL_BLOCKS`, `XXFS_PP_BLOCKS` and `XXFS_BG_BLOCKS`
abbrev pub wal_blocks : ℕ
wal_blocks = 2048

abbrev pub pp_blocks : ℕ
pp_blocks = 512

abbrev pub bg_blocks : ℕ
bg_blocks = 8192

abbrev pub megabyte : ℕ
megabyte = 1024 * 1024

-- `total_blocks`
unfoldable pub blocks_of : ℕ → ℕ
blocks_of size_mb = let n = u64 (size_mb * megabyte) / block_size in if ltb n 100 then 100 else n

abbrev pub bg_count : ℕ → ℕ
bg_count total = u32 ((total + bg_blocks - 1) / bg_blocks)

abbrev pub bg_desc_off : ℕ
bg_desc_off = (1 + wal_blocks + 2 * pp_blocks) * block_size

-- `s_data_off`, where the record of the root lies; its page and the directory follow.
unfoldable pub first_data : ℕ → ℕ
first_data total = bg_desc_off + (bg_count total * 64 + block_size - 1) / block_size * block_size

abbrev pub root_page_off : ℕ → ℕ
root_page_off total = first_data total + block_size

unfoldable pub first_pdir : ℕ → ℕ
first_pdir total = (root_page_off total + block_size + block_size - 1) / block_size * block_size

-- The super block before and behind the directory was written.
unfoldable pub new_super : ℕ → Super
new_super total = record {
  block_count = total;
  free_blocks = total - 4;
  inodes_count = 1;
  free_inodes = total / 4;
  cow_generation = 1;
  data_off = first_data total;
  pdir_off = 0;
  pdir_size = 0;
  pdir_depth = 0;
}

unfoldable pub final_super : ℕ → Super
final_super total = record (new_super total) {
  pdir_off = first_pdir total;
  pdir_size = 1;
  pdir_depth = 0;
  free_blocks =
      sub64 (sub64 total (u32 ((first_pdir total + block_size - first_data total) / block_size))) 4;
}

-- The fields that `Super` leaves out, in zeroed memory.
abbrev pub zero_super : List ℕ
zero_super = replicate super_size 0

abbrev pub fixed_list : ℕ → ℕ → List (Field × ℕ)
fixed_list total now =
    ((word_at 192), 1)
    ∷ ((long_at 184), now)
    ∷ ((long_at 176), now)
    ∷ ((long_at 160), bg_desc_off)
    ∷ ((word_at 156), bg_blocks)
    ∷ ((word_at 152), bg_count total)
    ∷ ((word_at 116), pp_blocks)
    ∷ ((long_at 108), (1 + wal_blocks + pp_blocks) * block_size)
    ∷ ((long_at 100), (1 + wal_blocks) * block_size)
    ∷ ((word_at 80), wal_blocks)
    ∷ ((long_at 72), block_size)
    ∷ ((long_at 48), 1)
    ∷ ((word_at 12), 12)
    ∷ ((word_at 8), block_size)
    ∷ ((word_at 4), version)
    ∷ ((word_at 0), magic)
    ∷ []

unfoldable pub fixed_fields : ℕ → ℕ → List ℕ
fixed_fields total now = put_all (fixed_list total now) zero_super

abbrev pub super_image : ℕ → ℕ → Super → List ℕ
super_image total now sb = with_sum (super_bytes (fixed_fields total now) sb)

unfoldable pub root_inode : ℕ → List ℕ
root_inode now = inode_set_checksum_ecc (
    put_bytes
      (put_all
        ((i_generation, 1)
          ∷ (i_btime, now)
          ∷ (i_ctime, now)
          ∷ (i_mtime, now)
          ∷ (i_atime, now)
          ∷ (i_nlinks, 2)
          ∷ (i_file_type, ft_dir)
          ∷ (i_mode, 493)
          ∷ [])
        zero_inode)
      name_off (slash ∷ 0 ∷ []))

abbrev pub root_slot : ℕ → Slot
root_slot off = record zero_slot {
  hash = xxh64 (slash ∷ []);
  file_off = off;
  klen = 1;
  vlen = inode_size;
  key_prefix = put_bytes (replicate 16 0) 0 (slash ∷ []);
}

unfoldable pub root_page : ℕ → Page
root_page total = record (empty_page 0) {
  count = 1;
  slots = set (empty_page 0).slots 0 (root_slot (first_data total));
}

-- Writes at offsets, one after the other; nothing of it is checked.
abbrev pub write_all : List (ℕ × List ℕ) → Os → Os
write_all [] os = os
write_all ((off, buf) ∷ ws) os = write_all ws (file_pwrite os buf off).1

-- What follows the first write of the super block.
abbrev pub root_writes : ℕ → ℕ → List (ℕ × List ℕ)
root_writes total now =
    (first_data total, le 4 1 ++ le 4 inode_size)
    ∷ (first_data total + 8, slash ∷ [])
    ∷ (first_data total + 9, root_inode now)
    ∷ (root_page_off total, page_bytes (root_page total))
    ∷ (first_pdir total, le 8 (root_page_off total))
    ∷ (0, super_image total now (final_super total))
    ∷ []

unfoldable pub write_root : ℕ → ℕ → Os → Os
write_root total now os = write_all (root_writes total now) os

unfoldable pub format : ℕ → ℕ → Os → Rc × Os
unfolding write_root
format size_mb now os =
    let total = blocks_of size_mb in
    let (written, os1) = file_pwrite os (super_image total now (new_super total)) 0 in
    if written then (ok, write_root total now os1) else (eio, os1)

-- A block device keeps its size; an image file is emptied and gets `size_mb` megabytes.
unfoldable pub xxfs_mkfs : ℕ → ℕ → ℕ → Os → Rc × Os
unfolding format
xxfs_mkfs size_mb flags now os =
    let (opened, os1) = file_open os in
    let (size, os2) = file_size os1 in
    let (created, os3) = file_create os in
    let (cut, os4) = file_truncate os3 (u64 (size_mb * megabyte)) in
    if not (bit_and flags 0x100 == 0)
    then if not opened then (eio, os1) else device size os2
    else if ltb size_mb 1
    then (einval, os)
    else if not created
    then (eio, os3)
    else if not cut
    then (eio, os4)
    else format size_mb now os4
  where
    device : Option ℕ → Os → Rc × Os
    device none os2 = (eio, os2)
    device (some n) os2 =
        if n == 0
        then (eio, os2)
        else format (if ltb (n / megabyte) 1 then 1 else n / megabyte) now os2
