-- ===== src/Fs/Handle.antt =====
-- lib/xxfs.c: open files: `xxfs_open`, `xxfs_close`, `xxfs_read_fd` and `xxfs_write_fd`.
use xxfs.Base.{
  ℕ, ◌+◌, ◌-◌, ◌*◌, false, not, ◌&&◌, Option, none, some, List, [], ◌==◌, ltb, leb, if◌then◌else◌,
  length, set, u64, sub64,
}
use xxfs.Check.Inode.{inode_set_checksum_ecc}
use xxfs.Fs.{
  Call, ◌>>=◌, ◌>>◌, or_else, pure, with_inodes, os_time, memory, pwrite, pread, alloc_n, put_inode,
  find_inode,
}
use xxfs.Fs.Data.{blocks_for, copy_blocks}
use xxfs.Fs.Field.{get, put}
use xxfs.Fs.Inode.{
  i_file_type, i_size, i_blocks, i_mtime, i_ctime, i_extent_off, inline_max, ft_dir,
}
use xxfs.Icache.{entry_at, icache_lookup}
use xxfs.Paged.Hash.{xxh64}
use xxfs.Paged.Index.{Rc, ok, enoent, enospc, eio, enomem, einval, eisdir, Result, done, error}
use xxfs.PathName.{path_normalize}
use xxfs.Super.{block_size}

-- `struct xxfs_file`
pub record File : Type 0 where
  pub hash : ℕ
  pub extent_off : ℕ
  pub size : ℕ
  pub blocks : ℕ
  pub path : List ℕ
  pub flags : ℕ

abbrev pub file_of : List ℕ → List ℕ → ℕ → File
file_of norm ino flags = record {
  hash = xxh64 norm;
  extent_off = get i_extent_off ino;
  size = get i_size ino;
  blocks = get i_blocks ino;
  path = norm;
  flags = flags;
}

unfoldable pub xxfs_open : ℕ → List ℕ → ℕ → Call (Result File)
xxfs_open fuel path flags = do
  let norm = path_normalize path
  found ← find_inode fuel false norm
  or_else found (λ _. pure (error enoent))
      (λ ino. if get i_file_type ino == ft_dir then pure (error eisdir) else (do
        room ← memory
        pure (if room then done (file_of norm ino flags) else error enomem)))

-- The inode in the cache at `xxfs_close`.
abbrev pub closed_inode : File → ℕ → List ℕ → List ℕ
closed_inode fp now ino =
    inode_set_checksum_ecc
      (put i_ctime now (put i_mtime now (put i_blocks fp.blocks (put i_size fp.size ino))))

abbrev set_inode : ℕ → List ℕ → Call (Unit {0})
set_inode i ino fs =
    let ic = fs.inodes.ic in
    let e = entry_at ic.table i in
    some (
      tt,
      with_inodes fs (record (fs.inodes) {
        ic = record ic { table = set ic.table i (record e { inode = ino }) };
      }),
    )

-- The inode is changed where it lies in the cache; what `paged_put` returns is not used.
unfoldable pub xxfs_close : ℕ → File → Call Rc
xxfs_close fuel fp fs = closing (icache_lookup fs.inodes.ic fp.hash) fs
  where
    closing : Option ℕ → Call Rc
    closing none = pure ok
    closing (some i) = do
      now ← os_time
      let val = closed_inode fp now (entry_at fs.inodes.ic.table i).inode
      set_inode i val
      put_inode fuel fp.path val
      pure ok

unfoldable pub xxfs_read_fd : File → ℕ → ℕ → Call (Result (List ℕ))
xxfs_read_fd fp off count =
    let count' = if ltb (fp.size - off) count then fp.size - off else count in
    if count == 0
    then pure (error einval)
    else if leb fp.size off
    then pure (done [])
    else (do bytes ← pread count' (u64 (fp.extent_off + off)); pure (read_bytes bytes))
  where
    read_bytes : Option (List ℕ) → Result (List ℕ)
    read_bytes none = error eio
    read_bytes (some bs) = done bs

abbrev pub moved_file : File → ℕ → ℕ → File
moved_file fp off blocks = record fp { extent_off = off; blocks = blocks }

-- The room for a write that ends at `end`: the file, on new blocks if it needs them.
unfoldable pub reserve : File → ℕ → Call (Result File)
unfolding copy_blocks
reserve fp end =
    let need = blocks_for end in
    let n = u64 (fp.blocks * block_size) in
    if ltb inline_max end && fp.blocks == 0
    then (do
      off ← alloc_n need
      pure (if off == 0 then error enospc else done (moved_file fp off need)))
    else if ltb n end
    then (do
      off ← alloc_n (sub64 need fp.blocks)
      if off == 0 then pure (error enospc) else (do
        if ltb 0 fp.blocks && (not (fp.extent_off == 0) && not (off == u64 (fp.extent_off + n)))
            then copy_blocks n fp.extent_off off
            else pure tt
        pure (done (moved_file fp off need))))
    else pure (done fp)

-- The code or `ok` for all of `buf`, and the open file behind the call.
unfoldable pub xxfs_write_fd : File → List ℕ → ℕ → Call (Rc × File)
unfolding reserve
xxfs_write_fd fp buf off =
    let end = u64 (off + length buf) in
    if length buf == 0 then pure (einval, fp) else (do
      reserved ← reserve fp end
      or_else reserved (λ rc. pure (rc, fp))
          (λ fp'. do
            written ← pwrite buf (u64 (fp'.extent_off + off))
            pure (
                if written
                then (ok, if ltb fp'.size end then record fp' { size = end } else fp')
                else (eio, fp'))))
