-- ===== src/Examples/Images.antt =====
-- lib/xxfs.c: an image of eight megabytes that is formatted and mounted, and one that is written
-- and mounted again.
use xxfs.Base.{ℕ, none, ◌≡◌, refl, ◌∙◌, arith, some, List, [], ◌∷◌}
use xxfs.Examples.Files.{small_index, no_dir}
use xxfs.Fs.{Fs}
use xxfs.Fs.Disk.{with_sum, word_at, magic, super_of, super_write}
use xxfs.Fs.Field.{Field, put_all, get-put_all, length-put_all}
use xxfs.Icache.{fresh_icache, cap_init}
use xxfs.Mount.Answers.{Answers}
use xxfs.Mount.Ends.{deepen_hangs}
use xxfs.Mount.{deepen, start_dir, mounts, mounted, xxfs_mount}
use xxfs.Mount.Format.{blocks_of, final_super, zero_super, xxfs_mkfs}
use xxfs.Mount.Formatted.{root_dir, xxfs_mount-xxfs_mkfs, length-zero_super}
use xxfs.Mount.Remount.{noted, IsPlaced, xxfs_mount-super_write}
use xxfs.Os.{failed, Os, quiet}
use xxfs.Paged.Index.{ok}

xxfs_mount-xxfs_mkfs_example :
    (os' : Os) × (mem : List ℕ) × (xxfs_mkfs 8 0 1000 (quiet []) ≡ (ok, os'))
    × (super_of mem ≡ final_super (blocks_of 8))
    × ((pages fuel fs_flags : ℕ) (times : List ℕ)
        → xxfs_mount pages fuel fs_flags times os'
          ≡ mounts
              (mounted mem (fresh_icache cap_init) (root_dir (blocks_of 8)) fs_flags times os'))
xxfs_mount-xxfs_mkfs_example =
    xxfs_mount-xxfs_mkfs 8 0 1000 (quiet []) refl (omega arith) (omega arith) refl

abbrev marks : List (Field × ℕ)
marks = (word_at 0, magic) ∷ []

abbrev marked : List ℕ
marked = put_all marks zero_super

abbrev small_fs : Fs
small_fs = record {
  inodes = record { ix = small_index []; ic = fresh_icache 16; times = [] };
  dcache = λ _. no_dir;
  flags = 0;
  cow_gen = 1;
  sb_bytes = marked;
}

small_fs-IsPlaced : IsPlaced small_fs
small_fs-IsPlaced = record {
  size = length-put_all marks zero_super refl ∙ length-zero_super;
  has_magic = get-put_all marks zero_super (word_at 0) magic refl (omega arith);
  fits = record {
    block_count = omega arith;
    free_blocks = omega arith;
    inodes_count = omega arith;
    free_inodes = omega arith;
    cow_generation = omega arith;
    data_off = omega arith;
    pdir_off = omega arith;
    pdir_size = omega arith;
    pdir_depth = omega arith;
  };
  behind = omega arith;
  low = omega arith;
  some_page = omega arith;
  one_block = omega arith;
  length_is = refl;
  all = (omega arith, tt);
}

xxfs_mount-super_write_example :
    (fs' : Fs) × (super_write small_fs ≡ some (tt, fs'))
    × (super_of fs'.sb_bytes ≡ noted small_fs.inodes.ix.sb small_fs.inodes.ix.pdir)
    × ((pages fuel flags : ℕ) (times : List ℕ)
        → xxfs_mount pages fuel flags times fs'.inodes.ix.os
          ≡ mounts (
              mounted fs'.sb_bytes
                (fresh_icache cap_init)
                small_fs.inodes.ix.pdir
                flags
                times
                fs'.inodes.ix.os))
xxfs_mount-super_write_example = xxfs_mount-super_write small_fs [] refl small_fs-IsPlaced

-- The two halves of the magic.
abbrev halves : List (Field × ℕ)
halves = (record { off = 0; width = 2 }, 0x5346) ∷ (record { off = 2; width = 2 }, 0x5858) ∷ []

-- An image with nothing but a super block that has its checksum.
summed : List ℕ
summed = with_sum (put_all halves zero_super)

deepen_hangs_example :
    (deepen 3 start_dir 2 (record { image = []; outcomes = failed ∷ failed ∷ failed ∷ [] })).0
    ≡ none
deepen_hangs_example = deepen_hangs 3 start_dir 2 [] [] (omega arith)
