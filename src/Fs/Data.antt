-- ===== src/Fs/Data.antt =====
-- lib/xxfs.c: `xxfs_write` and `xxfs_read`. A file of at most 128 bytes is kept in its inode, a longer
-- one in an extent.
pub mod Extent
pub mod Reading
pub mod RoundTrip
use xxfs.Base.{
  ℕ, ◌+◌, ◌-◌, ◌*◌, ◌/◌, ◌^◌, min, Bool, true, false, not, ◌&&◌, Option, none, some, List, [], ◌∷◌,
  ◌==◌, ltb, leb, if◌then◌else◌, length, u32, u64,
}
use xxfs.Fs.{
  Fs, Call, ◌>>=◌, ◌>>◌, or_else, pure, memory, pwrite, pread, alloc, alloc_n, keep_inode,
  find_inode,
}
use xxfs.Fs.Field.{get, put}
use xxfs.Fs.Inode.{
  i_file_type, i_size, i_blocks, i_extent_off, i_extent_len, inline_off, inline_max, ft_dir,
}
use xxfs.Os.Image.{put_bytes, slice, padded}
use xxfs.Paged.Index.{Rc, ok, enoent, enospc, eio, einval, eisdir, Result, done, error}
use xxfs.PathName.{path_normalize}
use xxfs.Super.{block_size}

-- `if (end > ino.i_size) ino.i_size = end;`
abbrev pub reaching : ℕ → List ℕ → List ℕ
reaching end ino = if ltb (get i_size ino) end then put i_size end ino else ino

abbrev pub on_extent : ℕ → ℕ → List ℕ → List ℕ
on_extent off blocks ino =
    put i_blocks blocks (put i_extent_len (u32 blocks) (put i_extent_off off ino))

-- The inline data moves to a block of its own.
unfoldable pub leave_inline : List ℕ → Call (Result (List ℕ))
leave_inline ino =
    if ltb 0 (get i_size ino) && get i_blocks ino == 0
    then (do
      off ← alloc
      if off == 0 then pure (error enospc) else (do
        written ← pwrite (slice ino inline_off (min (get i_size ino) inline_max)) off
        pure (if written then done (on_extent off 1 ino) else error eio)))
    else pure (done ino)

-- `n` bytes go from one place of the image to another, if there is memory. If the read fails, C
-- writes memory that it never set, and zeros here.
unfoldable pub copy_blocks : ℕ → ℕ → ℕ → Call (Unit {0})
copy_blocks n from to = do
  room ← memory
  if room then (do bytes ← pread n from; pwrite (copied bytes) to; pure tt) else pure tt
  where
    copied : Option (List ℕ) → List ℕ
    copied none = padded [] n
    copied (some bs) = bs

abbrev pub blocks_for : ℕ → ℕ
blocks_for end = u64 (end + block_size - 1) / block_size

-- New blocks, if the extent has fewer than `need`.
unfoldable pub grow_extent : ℕ → List ℕ → Call (Result (List ℕ))
unfolding copy_blocks
grow_extent need ino =
    let blocks = get i_blocks ino in
    let old = get i_extent_off ino in
    let n = u64 (blocks * block_size) in
    if ltb blocks need
    then (do
      off ← alloc_n (need - blocks)
      if off == 0 then pure (error enospc) else (do
        if ltb 0 blocks && (not (old == 0) && not (off == u64 (old + n)))
            then copy_blocks n old off
            else pure tt
        pure (done (on_extent off need ino))))
    else pure (done ino)

-- `xxfs_write` once it has an inode that is not a directory's. The place in `i_inline` is an address, which
-- wraps where `off` is near 2 ^ 64, as `end` does.
unfoldable pub write_inode : ℕ → List ℕ → List ℕ → List ℕ → ℕ → Call Rc
unfolding leave_inline grow_extent
write_inode fuel norm ino buf off =
    let end = u64 (off + length buf) in
    if leb end inline_max
    then (do
      keep_inode fuel norm (reaching end (put_bytes ino (u64 (inline_off + off)) buf))
      pure ok)
    else (do
      moved ← leave_inline ino
      or_else moved pure (λ ino1. do
        grown ← grow_extent (blocks_for end) ino1
        or_else grown pure (λ ino2. do
          written ← pwrite buf (u64 (get i_extent_off ino2 + off))
          if written then keep_inode fuel norm (reaching end ino2) >> pure ok else pure eio)))

-- `*written` is all of `buf` where the code is `XXFS_OK`.
unfoldable pub xxfs_write : ℕ → List ℕ → List ℕ → ℕ → Call Rc
unfolding write_inode
xxfs_write fuel path buf off =
    let norm = path_normalize path in
    if length buf == 0 then pure einval else (do
      found ← find_inode fuel false norm
      or_else found (λ _. pure enoent)
          (λ ino.
            if get i_file_type ino == ft_dir
            then pure eisdir
            else write_inode fuel norm ino buf off))

-- `xxfs_read` once it has the inode; `len` is not 0. Zeros stand for bytes that the read of the
-- image did not reach.
unfoldable pub read_inode : List ℕ → ℕ → ℕ → Call (Result (List ℕ))
read_inode ino off len =
    let size = get i_size ino in
    let len' = if ltb (size - off) len then u32 (size - off) else len in
    if leb size off
    then pure (done [])
    else if leb size inline_max && get i_blocks ino == 0
    then pure (done (slice ino (inline_off + off) len'))
    else if not (get i_extent_off ino == 0) && ltb 0 (get i_blocks ino)
    then (do bytes ← pread len' (u64 (get i_extent_off ino + off)); pure (read_bytes bytes))
    else pure (error eio)
  where
    read_bytes : Option (List ℕ) → Result (List ℕ)
    read_bytes none = error eio
    read_bytes (some bs) = done bs

-- The bytes that were read; `*read_bytes` is their number.
unfoldable pub xxfs_read : ℕ → List ℕ → ℕ → ℕ → Call (Result (List ℕ))
unfolding read_inode
xxfs_read fuel path off len = if len == 0 then pure (error einval) else (do
  found ← find_inode fuel true (path_normalize path)
  or_else found (λ _. pure (error enoent)) (λ ino. read_inode ino off len))
