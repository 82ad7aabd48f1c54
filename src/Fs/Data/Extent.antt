-- ===== src/Fs/Data/Extent.antt =====
-- `xxfs_read` after an `xxfs_write` into the blocks that a file has.
use xxfs.Base.{
  ℕ, ◌+◌, ◌^◌, ◌≤◌, ◌<◌, ◌≡◌, ◌≢◌, ◌⊎◌, inr, refl, ap, ◌∙◌, arith, Bool, true, false, some, List,
  [], ◌==◌, ◌&&◌, ltb, leb, length, ne→==, take_all, u64, ==_refl,
}
use xxfs.Fs.{Fs, with_os}
use xxfs.Fs.Data.{
  xxfs_write, xxfs_read, reaching, blocks_for, leave_inline, grow_extent, write_inode,
}
use xxfs.Fs.Data.Reading.{read_found, read_extent, reaching_size, reaching_other, write_found}
use xxfs.Fs.Field.{get}
use xxfs.Fs.Inode.{i_file_type, i_size, i_blocks, i_extent_off, inline_max, ft_dir}
use xxfs.Fs.Keep.{
  IsRoomy, shown_inode, kept, keep_inode-kept, shown_inode-kept, IsNear, shown_inode-IsNear,
  kept_os, IsRoomy-with_os,
}
use xxfs.Os.{Os, file_pwrite}
use xxfs.Os.Image.{put_bytes, slice, slice-put_bytes_self, slice-put_bytes_apart}
use xxfs.Paged.Index.{ok, done}
use xxfs.PathName.{path_normalize}

and_false : (b : Bool) → (b && false) ≡ false
and_false true = refl
and_false false = refl

module _ (fs : Fs) (k fuel : ℕ) (path ino buf : List ℕ) (off : ℕ) (roomy : IsRoomy fs k)
    (cached : shown_inode fs (path_normalize path) ≡ some ino)
    (is_file : get i_file_type ino ≢ ft_dir) (some_bytes : 0 < length buf) where
  abbrev norm : List ℕ
  norm = path_normalize path

  near : IsNear fs norm
  near = shown_inode-IsNear fs norm ino cached

  abbrev end : ℕ
  end = off + length buf

  abbrev place : ℕ
  place = get i_extent_off ino + off

  abbrev os : Os
  os = fs.inodes.ix.os

  module _ (long : inline_max < end) (has_blocks : 0 < get i_blocks ino)
      (fits : blocks_for end ≤ get i_blocks ino) (there : get i_extent_off ino ≢ 0)
      (low : get i_extent_off ino + get i_size ino + end < 2 ^ 63) (calm : os.outcomes ≡ []) where
    abbrev on_disk : Fs
    on_disk = with_os fs (record { image = put_bytes os.image place buf; outcomes = [] })

    roomy' : IsRoomy on_disk k
    roomy' =
        IsRoomy-with_os fs k (record { image = put_bytes os.image place buf; outcomes = [] }) roomy

    abbrev written : Fs
    written = kept on_disk k fuel norm (reaching end ino) roomy' near

    no_move : leave_inline ino fs ≡ some (done ino, fs)
    unfolding leave_inline
    no_move =
        let c : (get i_blocks ino == 0) ≡ false =
          ne→== _ _ (λ e. absurd (omega (arith, e, has_blocks))) in
        rw (c, and_false (ltb 0 (get i_size ino))) refl

    no_growth : grow_extent (blocks_for end) ino fs ≡ some (done ino, fs)
    unfolding grow_extent
    no_growth = let c : ltb (get i_blocks ino) (blocks_for end) ≡ false = ground arith in rw c refl

    write_disk : xxfs_write fuel path buf off fs ≡ some (ok, written)
    unfolding write_inode file_pwrite
    write_disk =
        let f : u64 end ≡ end = omega arith in
        let a : leb end inline_max ≡ false = ground arith in
        let g : u64 place ≡ place = omega arith in
        let h : leb (2 ^ 63) place ≡ false = ground arith in
        write_found fs fuel path ino buf off cached is_file some_bytes
        ∙ rw
            (
              f,
              a,
              no_move,
              no_growth,
              g,
              h,
              calm,
              take_all (length buf) buf refl,
              ==_refl (length buf),
              keep_inode-kept on_disk k fuel norm (reaching end ino) roomy' near,
            )
            refl

    written_os : written.inodes.ix.os ≡ on_disk.inodes.ix.os
    written_os = kept_os on_disk k fuel norm (reaching end ino) roomy' near refl

    read_back :
        (b n : ℕ)
        → 0 < n
        → b + n ≤ get i_size (reaching end ino)
        → xxfs_read fuel path b n written
          ≡ some (done (slice (put_bytes os.image place buf) (get i_extent_off ino + b) n), written)
    read_back b n h inside =
        let size = reaching_size ino end (omega (arith, low)) in
        let same_off : get i_extent_off (reaching end ino) ≡ get i_extent_off ino =
          reaching_other i_extent_off ino end (inr (omega arith)) in
        let same_blocks : get i_blocks (reaching end ino) ≡ get i_blocks ino =
          reaching_other i_blocks ino end (inr (omega arith)) in
        let bound : get i_size (reaching end ino) ≤ get i_size ino + end =
          size.2 (get i_size ino + end) (omega arith) (omega arith) in
        read_found written fuel path (reaching end ino) b n
          (shown_inode-kept on_disk k fuel norm (reaching end ino) roomy' near) h
        ∙ read_extent written (reaching end ino) b n (omega (arith, size.0, long))
            (rw same_off there) (rw same_blocks has_blocks) h inside (rw same_off (omega arith))
            (ap (λ o. o.outcomes) written_os)
        ∙ rw (written_os, same_off) refl

    -- A write that ends behind the first 128 bytes of a file, whose inode is in the cache, and within
    -- the blocks of its extent, where the cache has room and the kernel fails no call: it succeeds, a
    -- read of the same range then gives what was written, and a read of a range of the old data
    -- beside it gives what the image held.
    pub xxfs_read-xxfs_write_extent :
        (fs' : Fs) × (xxfs_write fuel path buf off fs ≡ some (ok, fs'))
        × (xxfs_read fuel path off (length buf) fs' ≡ some (done buf, fs'))
        × ((b n : ℕ)
            → 0 < n
            → b + n ≤ get i_size ino
            → (b + n ≤ off) ⊎ (end ≤ b)
            → xxfs_read fuel path b n fs'
              ≡ some (done (slice os.image (get i_extent_off ino + b) n), fs'))
    xxfs_read-xxfs_write_extent =
        let size = reaching_size ino end (omega (arith, low)) in
        (
          written,
          write_disk,
          read_back off (length buf) some_bytes size.0
              ∙ ap (λ bs. some (done bs, written)) (slice-put_bytes_self os.image place buf),
          λ b n h inside apart.
              read_back b n h (omega (arith, size.1))
              ∙ ap (λ bs. some (done bs, written))
                  (slice-put_bytes_apart os.image place buf (get i_extent_off ino + b) n
                    (omega arith)),
        )
