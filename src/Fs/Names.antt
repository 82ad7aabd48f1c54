-- ===== src/Fs/Names.antt =====
-- lib/xxfs.c: the calls that make, remove and rename inodes: `xxfs_create`, `xxfs_mkdir`,
-- `xxfs_unlink`, `xxfs_rmdir`, `xxfs_rename` and `xxfs_symlink`.
use xxfs.Base.{
  ℕ, ◌+◌, Bool, true, false, Option, none, some, List, [], ◌∷◌, ◌==◌, ltb, if◌then◌else◌, length,
  u64, sub64, bit_and,
}
use xxfs.Check.Inode.{inode_set_checksum_ecc}
use xxfs.Fs.{
  Fs, Call, ◌>>=◌, ◌>>◌, or_else, pure, get_sb, set_sb, os_time, cached_inode, inode_paged_get,
  put_inode, insert_inode, delete_inode, keep_inode, drop_inode, find_inode,
}
use xxfs.Fs.DirCache.{dir_add_child, dir_remove_child}
use xxfs.Fs.Disk.{super_write}
use xxfs.Fs.Field.{Field, get, put, put_all}
use xxfs.Fs.Inode.{
  i_mode, i_uid, i_gid, i_file_type, i_nlinks, i_size, i_atime, i_mtime, i_ctime, i_btime,
  i_generation, inline_off, inline_max, ft_reg, ft_dir, ft_lnk, zero_inode, with_name,
  with_name_ended,
}
use xxfs.Os.Image.{put_bytes}
use xxfs.Paged.Index.{Rc, ok, enoent, eexist, einval, enotdir, eisdir, enametoolong}
use xxfs.PathName.{slash, path_normalize, get_parent_path, get_basename}

-- `XXFS_FLAG_SYNC`
abbrev pub flag_sync : ℕ
flag_sync = 1

abbrev get_fs : Call Fs
get_fs fs = some (fs, fs)

-- The inode that `xxfs_create` and `xxfs_mkdir` fill, up to its name.
abbrev pub made_fields : ℕ → ℕ → ℕ → ℕ → ℕ → ℕ → List (Field × ℕ)
made_fields mode uid gid type nlinks generation =
    (i_generation, generation)
    ∷ (i_nlinks, nlinks)
    ∷ (i_file_type, type)
    ∷ (i_gid, gid)
    ∷ (i_uid, uid)
    ∷ (i_mode, mode)
    ∷ []

abbrev pub made_inode : ℕ → ℕ → ℕ → ℕ → ℕ → ℕ → List ℕ
made_inode mode uid gid type nlinks generation =
    put_all (made_fields mode uid gid type nlinks generation) zero_inode

-- The counters behind a new regular file, a new directory, and an inode that is gone.
abbrev file_added : Call (Unit {0})
file_added = do
  sb ← get_sb
  set_sb
      (record sb { inodes_count = u64 (sb.inodes_count + 1); free_inodes = sub64 sb.free_inodes 1 })

abbrev dir_added : Call (Unit {0})
dir_added = do sb ← get_sb; set_sb (record sb { inodes_count = u64 (sb.inodes_count + 1) })

abbrev inode_gone : Call (Unit {0})
inode_gone = do sb ← get_sb; set_sb (record sb { inodes_count = sub64 sb.inodes_count 1 })

-- What `xxfs_create` and `xxfs_mkdir` do with the inode; the result of `dir_add_child` is not used.
unfoldable pub enter : ℕ → List ℕ → List ℕ → ℕ → Call (Unit {0}) → Call Rc
enter fuel norm ino type added = do
  let val = inode_set_checksum_ecc ino
  rc ← insert_inode fuel norm val
  entered rc val
  pure rc
  where
    entered : Rc → List ℕ → Call (Unit {0})
    entered ok val = do
      keep_inode fuel norm val
      dir_add_child fuel (get_parent_path norm) (get_basename norm) type
      added
    entered rc val = pure tt

abbrev unless_cached : Option (List ℕ) → Call Rc → Call Rc
unless_cached none k = k
unless_cached (some ino) k = pure eexist

unfoldable pub xxfs_create : ℕ → List ℕ → ℕ → ℕ → ℕ → Call Rc
unfolding enter
xxfs_create fuel path mode uid gid = do
  let norm = path_normalize path
  cached ← cached_inode norm
  unless_cached cached (do
    fs ← get_fs
    let ino = with_name (get_basename norm) (made_inode mode uid gid ft_reg 1 fs.cow_gen)
    enter fuel norm ino ft_reg file_added)

unfoldable pub xxfs_mkdir : ℕ → List ℕ → ℕ → ℕ → ℕ → Call Rc
unfolding enter
xxfs_mkdir fuel path mode uid gid = do
  let norm = path_normalize path
  cached ← cached_inode norm
  unless_cached cached (do
    fs ← get_fs
    let ino = with_name_ended (get_basename norm) (made_inode mode uid gid ft_dir 2 fs.cow_gen)
    enter fuel norm ino ft_dir dir_added)

-- What `xxfs_unlink` and `xxfs_rmdir` do once they know the type; `done` stands for what follows.
unfoldable pub leave : ℕ → List ℕ → Call (Unit {0}) → Call Rc
leave fuel norm behind = do rc ← delete_inode fuel norm; left rc; pure rc
  where
    left : Rc → Call (Unit {0})
    left ok = do
      drop_inode norm
      dir_remove_child fuel (get_parent_path norm) (get_basename norm)
      inode_gone
      behind
    left rc = pure tt

unfoldable pub xxfs_unlink : ℕ → List ℕ → Call Rc
unfolding leave
xxfs_unlink fuel path = do
  let norm = path_normalize path
  found ← find_inode fuel true norm
  or_else found (λ _. pure enoent)
      (λ ino. if get i_file_type ino == ft_dir then pure eisdir else leave fuel norm (pure tt))

-- `if (fs->flags & XXFS_FLAG_SYNC) super_write(fs);`
abbrev sync_super : Call (Unit {0})
sync_super fs = (if bit_and fs.flags flag_sync == 0 then pure tt else super_write) fs

abbrev pub is_root : List ℕ → Bool
is_root (c ∷ []) = c == slash
is_root path = false

unfoldable pub xxfs_rmdir : ℕ → List ℕ → Call Rc
unfolding leave
xxfs_rmdir fuel path = do
  let norm = path_normalize path
  if is_root norm then pure einval else (do
    found ← find_inode fuel true norm
    or_else found (λ _. pure enoent)
        (λ ino. if get i_file_type ino == ft_dir then leave fuel norm sync_super else pure enotdir))

unfoldable pub xxfs_rename : ℕ → List ℕ → List ℕ → Call Rc
xxfs_rename fuel old_path new_path = do
  let old_norm = path_normalize old_path
  let new_norm = path_normalize new_path
  found ← inode_paged_get fuel old_norm
  or_else found (λ _. pure enoent)
      (λ ino. do
        now ← os_time
        let val =
            inode_set_checksum_ecc (with_name_ended (get_basename new_norm) (put i_ctime now ino))
        delete_inode fuel old_norm
        drop_inode old_norm
        rc ← put_inode fuel new_norm val
        renamed old_norm new_norm val rc
        pure rc)
  where
    renamed : List ℕ → List ℕ → List ℕ → Rc → Call (Unit {0})
    renamed old_norm new_norm val ok = keep_inode fuel new_norm val
    renamed old_norm new_norm val rc = do put_inode fuel old_norm val; keep_inode fuel old_norm val

abbrev pub link_inode : List ℕ → ℕ → List ℕ
link_inode target now =
    put_bytes
      (put_all
        ((i_btime, now)
          ∷ (i_ctime, now)
          ∷ (i_mtime, now)
          ∷ (i_atime, now)
          ∷ (i_size, length target)
          ∷ (i_nlinks, 1)
          ∷ (i_file_type, ft_lnk)
          ∷ [])
        zero_inode)
      inline_off target

unfoldable pub xxfs_symlink : ℕ → List ℕ → List ℕ → Call Rc
xxfs_symlink fuel target linkpath =
    if ltb inline_max (length target)
    then pure enametoolong
    else (find_inode fuel true norm >>= λ found. or_else found make (λ _. pure eexist))
  where
    norm : List ℕ
    norm = path_normalize linkpath

    kept : List ℕ → Rc → Call (Unit {0})
    kept val ok = keep_inode fuel norm val
    kept val rc = pure tt

    make : Rc → Call Rc
    make _ = do
      now ← os_time
      let val = inode_set_checksum_ecc (link_inode target now)
      rc ← put_inode fuel norm val
      kept val rc
      pure rc
