-- ===== src/Fs/Data/RoundTrip.antt =====
-- `xxfs_read` after `xxfs_write`.
use xxfs.Base.{
  ℕ, ◌+◌, ◌≤◌, ◌<◌, ◌≡◌, ◌≢◌, refl, ap, ◌∙◌, arith, true, some, List, leb, length, u64, inl, inr,
  ◌⊎◌,
}
use xxfs.Fs.{Fs}
use xxfs.Fs.Data.{xxfs_write, xxfs_read, reaching, write_inode}
use xxfs.Fs.Data.Reading.{
  read_found, read_inline, reaching_size, reaching_other, slice-reaching, write_found,
}
use xxfs.Fs.Field.{Field, get}
use xxfs.Fs.Inode.{i_file_type, i_size, i_blocks, inline_off, inline_max, ft_dir}
use xxfs.Fs.Keep.{
  IsRoomy, shown_inode, kept, keep_inode-kept, shown_inode-kept, IsNear, shown_inode-IsNear,
}
use xxfs.Os.Image.{put_bytes, slice, slice-put_bytes_self, slice-put_bytes_apart}
use xxfs.Paged.Page.{of_le}
use xxfs.Paged.Index.{ok, done}
use xxfs.PathName.{path_normalize}

module _ (fs : Fs) (k fuel : ℕ) (path ino buf : List ℕ) (off : ℕ) (roomy : IsRoomy fs k)
    (cached : shown_inode fs (path_normalize path) ≡ some ino)
    (is_file : get i_file_type ino ≢ ft_dir) (some_bytes : 0 < length buf) where
  abbrev end : ℕ
  end = off + length buf

  abbrev norm : List ℕ
  norm = path_normalize path

  near : IsNear fs norm
  near = shown_inode-IsNear fs norm ino cached

  abbrev short_inode : List ℕ
  short_inode = reaching end (put_bytes ino (inline_off + off) buf)

  module _ (short : end ≤ inline_max) (size : get i_size ino ≤ inline_max)
      (none_yet : get i_blocks ino ≡ 0) where
    same_field :
        (f : Field)
        → f.off + f.width ≤ inline_off
        → get f (put_bytes ino (inline_off + off) buf) ≡ get f ino
    same_field f h =
        ap of_le
          (slice-put_bytes_apart ino (inline_off + off) buf f.off f.width (inl (omega arith)))

    abbrev written_inline : Fs
    written_inline = kept fs k fuel norm short_inode roomy near

    write_inline : xxfs_write fuel path buf off fs ≡ some (ok, written_inline)
    unfolding write_inode
    write_inline =
        let f : u64 end ≡ end = omega arith in
        let a : leb end inline_max ≡ true = ground arith in
        let at : u64 (inline_off + off) ≡ inline_off + off = omega arith in
        write_found fs fuel path ino buf off cached is_file some_bytes
        ∙ rw (f, a, at, keep_inode-kept fs k fuel norm short_inode roomy near) refl

    longer : (b n : ℕ) → b + n ≤ get i_size ino → b + n ≤ get i_size short_inode
    longer b n h = omega (
      arith,
      (reaching_size (put_bytes ino (inline_off + off) buf) end (omega arith)).1,
      same_field i_size (omega arith),
    )

    -- What a read finds then, inside the size.
    read_back :
        (b n : ℕ)
        → 0 < n
        → b + n ≤ get i_size short_inode
        → xxfs_read fuel path b n written_inline
          ≡ some (
            done (slice (put_bytes ino (inline_off + off) buf) (inline_off + b) n),
            written_inline,
          )
    read_back b n h inside =
        let small : get i_size short_inode ≤ inline_max =
          (reaching_size (put_bytes ino (inline_off + off) buf) end (omega arith)).2 inline_max
            short (rw (same_field i_size (omega arith)) size) in
        let none : get i_blocks short_inode ≡ 0 =
          reaching_other i_blocks (put_bytes ino (inline_off + off) buf) end (inr (omega arith))
          ∙ same_field i_blocks (omega arith)
          ∙ none_yet in
        read_found written_inline fuel path short_inode b n
          (shown_inode-kept fs k fuel norm short_inode roomy near) h
        ∙ read_inline written_inline short_inode b n small none h inside
        ∙ ap (λ bs. some (done bs, written_inline))
            (slice-reaching (put_bytes ino (inline_off + off) buf) end (inline_off + b) n
              (omega arith))

    -- A write that ends within the first 128 bytes of a file whose inode is in the cache and which
    -- has no block, where the cache has room: it succeeds, a read of the same range then gives what
    -- was written, and a read of a range of the old data beside it gives the old data.
    pub xxfs_read-xxfs_write_inline :
        (fs' : Fs) × (xxfs_write fuel path buf off fs ≡ some (ok, fs'))
        × (xxfs_read fuel path off (length buf) fs' ≡ some (done buf, fs'))
        × ((b n : ℕ)
            → 0 < n
            → b + n ≤ get i_size ino
            → (b + n ≤ off) ⊎ (end ≤ b)
            → xxfs_read fuel path b n fs' ≡ some (done (slice ino (inline_off + b) n), fs'))
    xxfs_read-xxfs_write_inline = (
      written_inline,
      write_inline,
      read_back off (length buf) some_bytes
            ((reaching_size (put_bytes ino (inline_off + off) buf) end (omega arith)).0)
          ∙ ap (λ bs. some (done bs, written_inline))
              (slice-put_bytes_self ino (inline_off + off) buf),
      λ b n h inside apart.
          read_back b n h (longer b n inside)
          ∙ ap (λ bs. some (done bs, written_inline))
              (slice-put_bytes_apart ino (inline_off + off) buf (inline_off + b) n (omega arith)),
    )
