-- ===== src/Mount/Remount.antt =====
-- `xxfs_mount` of what `super_write` leaves, for a directory of at most one block.
use xxfs.Base.{
  ℕ, ◌*◌, ◌^◌, ◌≤◌, ◌<◌, ◌≡◌, inl, inr, refl, sym, ap, ◌∙◌, arith, false, some, List, ◌==◌, ltb,
  length, take_all, ne→==, u32,
}
use xxfs.Fs.{Fs, with_os, with_sb}
use xxfs.Fs.Disk.{
  super_size, word_at, magic, super_fields, super_bytes, super_of, sealed, offsets_bytes,
  pdir_write, super_write,
}
use xxfs.Fs.Disk.Codec.{
  Fits, super_of-Agrees, sealed-Agrees, sum_agrees-sealed, length-sealed, length-super_bytes,
}
use xxfs.Fs.Field.{get, slice-put_all}
use xxfs.Icache.{fresh_icache, cap_init}
use xxfs.Mount.{mounts, mounted, xxfs_mount}
use xxfs.Mount.Reads.{AllOffsets, length-offsets_bytes, IsMountable, xxfs_mount-stored}
use xxfs.Os.{quiet, file_pwrite-quiet}
use xxfs.Os.Image.{put_bytes, slice, slice-put_bytes_self, slice-put_bytes_apart, put_bytes_reaches}
use xxfs.Paged.Dir.{Dir}
use xxfs.Paged.Page.{of_le}
use xxfs.Super.{Super, block_size}

-- The super block with what `pdir_write` notes in it.
abbrev pub noted : Super → Dir → Super
noted sb d = record sb { pdir_size = d.dir_size; pdir_depth = d.global_depth }

-- A file system whose directory has its block behind the super block.
pub record IsPlaced (fs : Fs) : Type 0 where
  pub size : length fs.sb_bytes ≡ super_size
  pub has_magic : get (word_at 0) fs.sb_bytes ≡ magic
  pub fits : Fits (noted fs.inodes.ix.sb fs.inodes.ix.pdir)
  pub behind : super_size ≤ fs.inodes.ix.sb.pdir_off
  pub low : fs.inodes.ix.sb.pdir_off < 2 ^ 63
  pub some_page : 0 < fs.inodes.ix.pdir.dir_size
  pub one_block : fs.inodes.ix.pdir.dir_size * 8 ≤ block_size
  pub length_is : length fs.inodes.ix.pdir.page_off ≡ fs.inodes.ix.pdir.dir_size
  pub all : AllOffsets fs.inodes.ix.pdir.page_off

module _ (fs : Fs) (image : List ℕ) (calm : fs.inodes.ix.os ≡ quiet image) (is : IsPlaced fs) where
  abbrev d : Dir
  d = fs.inodes.ix.pdir

  abbrev sb : Super
  sb = fs.inodes.ix.sb

  abbrev table : List ℕ
  table = offsets_bytes d.page_off

  abbrev with_table : List ℕ
  with_table = put_bytes image sb.pdir_off table

  abbrev base : List ℕ
  base = super_bytes fs.sb_bytes (noted sb d)

  abbrev mem : List ℕ
  mem = sealed base

  abbrev with_super : List ℕ
  with_super = put_bytes with_table 0 mem

  abbrev noted_fs : Fs
  noted_fs = with_sb (with_os fs (quiet with_table)) (noted sb d)

  pdir_written : pdir_write fs ≡ some (tt, noted_fs)
  unfolding pdir_write
  pdir_written =
      let n : (d.dir_size == 0) ≡ false =
        let h = is.some_page in ne→== _ _ (λ e. absurd (omega (arith, e, h))) in
      let o : (sb.pdir_off == 0) ≡ false =
        let h = is.behind in ne→== _ _ (λ e. absurd (omega (arith, e, h))) in
      let b : u32 (d.dir_size * 8) ≡ d.dir_size * 8 = omega (arith, is.one_block) in
      let f : ltb block_size (d.dir_size * 8) ≡ false = let h = is.one_block in ground arith in
      let all = take_all d.dir_size d.page_off is.length_is in
      let whole =
        take_all (d.dir_size * 8) table
          (omega (arith, length-offsets_bytes d.page_off, is.length_is)) in
      let w = file_pwrite-quiet image table sb.pdir_off is.low in
      rw (n, o, b, f, all, whole, calm, o, o, ap (λ r. r.1) w) refl

  mem-length : length mem ≡ super_size
  mem-length = length-sealed base (length-super_bytes fs.sb_bytes (noted sb d) is.size)

  mem_super : super_of mem ≡ noted sb d
  mem_super = super_of-Agrees fs.sb_bytes (noted sb d) is.fits mem (sealed-Agrees base)

  mem-magic : get (word_at 0) mem ≡ magic
  unfolding super_bytes
  mem-magic =
      sealed-Agrees base (word_at 0) (inl (omega arith))
      ∙ ap of_le (slice-put_all (super_fields (noted sb d)) fs.sb_bytes 0 4 refl)
      ∙ is.has_magic

  abbrev written_fs : Fs
  written_fs = record (with_os noted_fs (quiet with_super)) { sb_bytes = mem }

  super_written : super_write fs ≡ some (tt, written_fs)
  unfolding super_write
  super_written =
      let w = file_pwrite-quiet with_table mem 0 (omega arith) in
      rw (pdir_written, ap (λ r. r.1) w) refl

  mountable : IsMountable with_super mem d
  mountable =
      let off : (super_of mem).pdir_off ≡ sb.pdir_off = ap (λ s. s.pdir_off) mem_super in
      let n : (super_of mem).pdir_size ≡ d.dir_size = ap (λ s. s.pdir_size) mem_super in
      let len : length table ≡ d.dir_size * 8 =
        omega (arith, length-offsets_bytes d.page_off, is.length_is) in
      let reach = put_bytes_reaches image sb.pdir_off table (omega (arith, len, is.some_page)) in
      let reach' = put_bytes_reaches with_table 0 mem (omega (arith, mem-length)) in
      record {
        size = mem-length;
        stored = ap (slice with_super 0) (sym mem-length) ∙ slice-put_bytes_self with_table 0 mem;
        sum = sum_agrees-sealed base;
        has_magic = mem-magic;
        there = λ e. absurd (omega (arith, off, e, is.behind));
        low = omega (arith, off, is.low);
        front = omega (arith, reach'.0, mem-length);
        inside = omega (arith, off, n, reach.0, len, reach'.1);
        same_size = n;
        same_depth = ap (λ s. s.pdir_depth) mem_super;
        some_page = is.some_page;
        length_is = is.length_is;
        all = is.all;
        table =
            rw (off, n, ← len)
              (slice-put_bytes_apart with_table 0 mem sb.pdir_off (length table)
                  (inr (omega (arith, mem-length, is.behind)))
                ∙ slice-put_bytes_self image sb.pdir_off table);
      }

  -- `super_write`, where no call fails, of a file system whose directory of pages fits one block that
  -- lies behind the super block: `xxfs_mount` of the image it leaves succeeds, with the counters and
  -- the directory of the file system that was written, and an empty inode cache.
  pub xxfs_mount-super_write :
      (fs' : Fs) × (super_write fs ≡ some (tt, fs'))
      × (super_of fs'.sb_bytes ≡ noted sb d)
      × ((pages fuel flags : ℕ) (times : List ℕ)
          → xxfs_mount pages fuel flags times fs'.inodes.ix.os
            ≡ mounts (mounted fs'.sb_bytes (fresh_icache cap_init) d flags times fs'.inodes.ix.os))
  xxfs_mount-super_write = (
    written_fs,
    super_written,
    mem_super,
    xxfs_mount-stored (quiet with_super) mem d refl mountable,
  )
