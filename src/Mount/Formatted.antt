-- ===== src/Mount/Formatted.antt =====
-- `xxfs_mount` of an image that `xxfs_mkfs` made.
use xxfs.Base.{
  ℕ, ◌+◌, ◌*◌, ◌^◌, ◌%◌, ◌≤◌, ◌<◌, ◌≡◌, inl, inr, refl, sym, ap, ◌∙◌, arith, true, false, List, [],
  ◌∷◌, ◌==◌, ltb, leb, length, take, append-nil, length-replicate, bit_and, u64,
}
use xxfs.Fs.Disk.{super_size, word_at, magic, super_fields, super_bytes, super_of}
use xxfs.Fs.Disk.Codec.{
  Fits, super_of-Agrees, with_sum-Agrees, sum_agrees-with_sum, length-with_sum, length-super_bytes,
}
use xxfs.Fs.Field.{get, get-put_all, slice-put_all, length-put_all}
use xxfs.Mount.{mounts, mounted, xxfs_mount}
use xxfs.Mount.Format.{
  megabyte, blocks_of, first_data, root_page_off, first_pdir, new_super, final_super, fixed_list,
  fixed_fields, zero_super, write_all, root_writes, super_image, write_root, format, xxfs_mkfs,
}
use xxfs.Mount.Reads.{IsMountable, xxfs_mount-stored}
use xxfs.Icache.{fresh_icache, cap_init}
use xxfs.Os.{Os, grow_to, quiet, file_pwrite-quiet, file_create, file_truncate}
use xxfs.Os.Image.{put_bytes, slice, slice-put_bytes_self, slice-put_bytes_apart, put_bytes_reaches}
use xxfs.Paged.Dir.{Dir}
use xxfs.Paged.Index.{ok}
use xxfs.Paged.Page.{le, of_le}
use xxfs.Paged.Page.Codec.{length-le}
use xxfs.Super.{block_size}

-- The layout, for less than 2 ^ 40 blocks: the record of the root, its page and the directory lie one behind the other in blocks of their own, behind the super block.
record Layout (total : ℕ) : Type 0 where
  pub behind : super_size ≤ first_data total
  pub aligned : first_data total % block_size ≡ 0
  pub pdir : first_pdir total ≡ first_data total + 2 * block_size
  pub low : first_pdir total < 2 ^ 62

layout : (total : ℕ) → total < 2 ^ 40 → Layout total
unfolding first_data first_pdir
layout total h = record {
  behind = omega arith;
  aligned = omega arith;
  pdir = omega arith;
  low = omega arith;
}

-- The image behind such writes, at offsets that a file can have.
abbrev put_list : List (ℕ × List ℕ) → List ℕ → List ℕ
put_list [] image = image
put_list ((off, buf) ∷ ws) image = put_list ws (put_bytes image off buf)

abbrev AllLow : List (ℕ × List ℕ) → Type 0
AllLow [] = Unit
AllLow ((off, buf) ∷ ws) = (off < 2 ^ 63) × AllLow ws

write_all-quiet :
    (ws : List (ℕ × List ℕ)) (image : List ℕ)
    → AllLow ws
    → write_all ws (quiet image) ≡ quiet (put_list ws image)
write_all-quiet [] image low = refl
write_all-quiet ((off, buf) ∷ ws) image (h, low) =
    ap (λ r. write_all ws r.1) (file_pwrite-quiet image buf off h)
    ∙ write_all-quiet ws (put_bytes image off buf) low

pub length-zero_super : length zero_super ≡ super_size
length-zero_super = length-replicate super_size zero_byte
  where
    zero_byte : ℕ
    zero_byte = 0

-- The directory of a new file system.
abbrev pub root_dir : ℕ → Dir
root_dir total = record { page_off = root_page_off total ∷ []; dir_size = 1; global_depth = 0 }

module _ (total now : ℕ) (small : total < 2 ^ 40) where
  abbrev mem : List ℕ
  mem = super_image total now (final_super total)

  abbrev table : List ℕ
  table = le 8 (root_page_off total)

  rooted :
      (image : List ℕ)
      → write_root total now (quiet image) ≡ quiet (put_list (root_writes total now) image)
  unfolding write_root
  rooted image =
      let lay = layout total small in
      let at : first_data total + 2 * block_size < 2 ^ 62 = omega (arith, lay.pdir, lay.low) in
      write_all-quiet (root_writes total now) image (
        omega (arith, at),
        (
          omega (arith, at),
          (omega (arith, at), (omega (arith, at), (omega (arith, lay.low), (omega arith, tt)))),
        ),
      )

  fits : Fits (final_super total)
  unfolding final_super new_super
  fits =
      let lay = layout total small in
      record {
        block_count = omega (arith, small);
        free_blocks = omega arith;
        inodes_count = omega arith;
        free_inodes = omega (arith, small);
        cow_generation = omega arith;
        data_off = omega (arith, lay.pdir, lay.low);
        pdir_off = omega (arith, lay.low);
        pdir_size = omega arith;
        pdir_depth = omega arith;
      }

  base_length : length (super_bytes (fixed_fields total now) (final_super total)) ≡ super_size
  unfolding fixed_fields
  base_length =
      length-super_bytes (fixed_fields total now) (final_super total)
        (length-put_all (fixed_list total now) zero_super refl ∙ length-zero_super)

  mem-length : length mem ≡ super_size
  mem-length =
      length-with_sum (super_bytes (fixed_fields total now) (final_super total)) base_length

  mem_super : super_of mem ≡ final_super total
  mem_super =
      super_of-Agrees (fixed_fields total now) (final_super total) fits mem
        (with_sum-Agrees (super_bytes (fixed_fields total now) (final_super total)))

  mem-magic : get (word_at 0) mem ≡ magic
  unfolding super_bytes fixed_fields
  mem-magic =
      with_sum-Agrees (super_bytes (fixed_fields total now) (final_super total)) (word_at 0)
        (inl (omega arith))
      ∙ ap of_le
          (slice-put_all (super_fields (final_super total)) (fixed_fields total now) 0 4 refl)
      ∙ get-put_all (fixed_list total now) zero_super (word_at 0) magic refl (omega arith)

  mountable :
      (image : List ℕ) → IsMountable (put_list (root_writes total now) image) mem (root_dir total)
  unfolding final_super
  mountable image =
      let lay = layout total small in
      let below = put_list (take 4 (root_writes total now)) image in
      let rooted_image = put_bytes below (first_pdir total) table in
      let eight = length-le 8 (root_page_off total) in
      let reach = put_bytes_reaches below (first_pdir total) table (omega (arith, eight)) in
      let reach' = put_bytes_reaches rooted_image 0 mem (omega (arith, mem-length)) in
      let off : (super_of mem).pdir_off ≡ first_pdir total = ap (λ sb. sb.pdir_off) mem_super in
      let one : (super_of mem).pdir_size ≡ 1 = ap (λ sb. sb.pdir_size) mem_super in
      record {
        size = mem-length;
        stored =
            ap (slice (put_bytes rooted_image 0 mem) 0) (sym mem-length)
            ∙ slice-put_bytes_self rooted_image 0 mem;
        sum = sum_agrees-with_sum (super_bytes (fixed_fields total now) (final_super total));
        has_magic = mem-magic;
        there = λ e. absurd (omega (arith, off, e, lay.pdir));
        low = omega (arith, off, lay.low);
        front = omega (arith, reach'.0, mem-length);
        inside = omega (arith, off, one, reach.0, eight, reach'.1);
        same_size = one;
        same_depth = ap (λ sb. sb.pdir_depth) mem_super;
        some_page = omega arith;
        length_is = refl;
        all = (omega (arith, lay.pdir, lay.low), tt);
        table =
            rw (off, one)
              (slice-put_bytes_apart rooted_image 0 mem (first_pdir total) 8
                  (inr (omega (arith, mem-length, lay.pdir, lay.behind)))
                ∙ ap (slice rooted_image (first_pdir total)) (sym eight)
                ∙ slice-put_bytes_self below (first_pdir total) table
                ∙ sym (append-nil table));
      }

module _ (size_mb flags now : ℕ) (os : Os) (calm : os.outcomes ≡ []) (some_mb : 0 < size_mb)
    (small : size_mb < 2 ^ 32) (is_file : bit_and flags 0x100 ≡ 0) where
  abbrev total : ℕ
  total = blocks_of size_mb

  few : total < 2 ^ 40
  unfolding blocks_of
  few = ground arith

  abbrev bytes : ℕ
  bytes = size_mb * megabyte

  abbrev start : List ℕ
  start = take bytes (grow_to [] bytes)

  abbrev image : List ℕ
  image =
      put_list (root_writes total now) (put_bytes start 0 (super_image total now (new_super total)))

  formatted : xxfs_mkfs size_mb flags now os ≡ (ok, quiet image)
  unfolding xxfs_mkfs format file_create file_truncate
  formatted =
      let f : (bit_and flags 0x100 == 0) ≡ true = rw is_file refl in
      let s : ltb size_mb 1 ≡ false = ground arith in
      let b : u64 bytes ≡ bytes = omega arith in
      let low : leb (2 ^ 63) bytes ≡ false = ground arith in
      let first =
        file_pwrite-quiet start (super_image total now (new_super total)) 0 (omega arith) in
      rw
        (
          f,
          s,
          calm,
          b,
          low,
          ap (λ r. r.0) first,
          ap (λ r. r.1) first,
          rooted total now few (put_bytes start 0 (super_image total now (new_super total))),
        )
        refl

  -- `xxfs_mkfs` of an image file of `size_mb` megabytes, where no call fails and the size is below
  -- 2 ^ 32: it succeeds, and `xxfs_mount` of what it leaves then succeeds, whatever its flags are,
  -- with the counters of `xxfs_mkfs`, an empty inode cache and a directory whose only page is that
  -- of the root.
  pub xxfs_mount-xxfs_mkfs :
      (os' : Os) × (mem : List ℕ) × (xxfs_mkfs size_mb flags now os ≡ (ok, os'))
      × (super_of mem ≡ final_super total)
      × ((pages fuel fs_flags : ℕ) (times : List ℕ)
          → xxfs_mount pages fuel fs_flags times os'
            ≡ mounts (mounted mem (fresh_icache cap_init) (root_dir total) fs_flags times os'))
  xxfs_mount-xxfs_mkfs = (
    quiet image,
    mem total now few,
    formatted,
    mem_super total now few,
    xxfs_mount-stored (quiet image) (mem total now few) (root_dir total) refl
        (mountable total now few (put_bytes start 0 (super_image total now (new_super total)))),
  )
