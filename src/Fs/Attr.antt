-- ===== src/Fs/Attr.antt =====
-- lib/xxfs.c: the calls on the fields of an inode: `xxfs_stat`, `xxfs_chmod`, `xxfs_chown`,
-- `xxfs_utime` and `xxfs_readlink`.
use xxfs.Base.{ℕ, true, List, ◌==◌, ltb, if◌then◌else◌, u32, sub32}
use xxfs.Check.Inode.{inode_set_checksum_ecc}
use xxfs.Fs.{
  Call, ◌>>=◌, ◌>>◌, or_else, pure, os_time, inode_paged_get, put_inode, keep_inode, find_inode,
}
use xxfs.Fs.Field.{get, put}
use xxfs.Fs.Inode.{
  i_mode, i_uid, i_gid, i_file_type, i_size, i_atime, i_mtime, i_ctime, inline_off, ft_lnk,
}
use xxfs.Os.Image.{slice}
use xxfs.Paged.Index.{Rc, ok, enoent, einval, Result, done, error}
use xxfs.PathName.{path_normalize}

unfoldable pub xxfs_stat : ℕ → List ℕ → Call (Result (List ℕ))
xxfs_stat fuel path = find_inode fuel true (path_normalize path)

-- What `xxfs_chmod`, `xxfs_chown` and `xxfs_utime` share: the inode comes from the index, its fields
-- are set by `change`, and it goes to the index and then to the cache.
unfoldable pub set_attributes : ℕ → List ℕ → (List ℕ → List ℕ) → Call Rc
set_attributes fuel path change = do
  let norm = path_normalize path
  found ← inode_paged_get fuel norm
  or_else found (λ _. pure enoent)
      (λ ino. do
        now ← os_time
        let val = inode_set_checksum_ecc (put i_ctime now (change ino))
        rc ← put_inode fuel norm val
        kept norm val rc
        pure rc)
  where
    kept : List ℕ → List ℕ → Rc → Call (Unit {0})
    kept norm val ok = keep_inode fuel norm val
    kept norm val rc = pure tt

unfoldable pub xxfs_chmod : ℕ → List ℕ → ℕ → Call Rc
unfolding set_attributes
xxfs_chmod fuel path mode = set_attributes fuel path (put i_mode mode)

unfoldable pub xxfs_chown : ℕ → List ℕ → ℕ → ℕ → Call Rc
unfolding set_attributes
xxfs_chown fuel path uid gid = set_attributes fuel path (λ ino. put i_gid gid (put i_uid uid ino))

unfoldable pub xxfs_utime : ℕ → List ℕ → ℕ → ℕ → Call Rc
unfolding set_attributes
xxfs_utime fuel path atime mtime =
    set_attributes fuel path (λ ino. put i_mtime mtime (put i_atime atime ino))

-- The target, cut to the room of the caller less one byte; `*len - 1` wraps.
unfoldable pub xxfs_readlink : ℕ → List ℕ → ℕ → Call (Result (List ℕ))
unfolding xxfs_stat
xxfs_readlink fuel path room = do
  found ← xxfs_stat fuel path
  or_else found (λ rc. pure (error rc))
      (λ ino. pure (
        let size = u32 (get i_size ino) in
        let copy_len = if ltb (sub32 room 1) size then sub32 room 1 else size in
        if get i_file_type ino == ft_lnk
        then done (slice ino inline_off copy_len)
        else error einval))
