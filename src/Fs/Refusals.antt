-- ===== src/Fs/Refusals.antt =====
-- The calls that refuse a path because of the inode that the cache has for it.
use xxfs.Base.{ℕ, ◌≤◌, ◌≡◌, ◌≢◌, refl, arith, false, some, List, ◌==◌, ltb, length, ne→==}
use xxfs.Fs.{Fs}
use xxfs.Fs.Field.{get}
use xxfs.Fs.Inode.{i_file_type, inline_max, ft_dir}
use xxfs.Fs.Keep.{shown_inode}
use xxfs.Fs.Names.{is_root, xxfs_create, xxfs_mkdir, xxfs_symlink, xxfs_rmdir}
use xxfs.Paged.Index.{eexist, enotdir}
use xxfs.PathName.{path_normalize}

module _ (fs : Fs) (fuel : ℕ) (path ino : List ℕ)
    (cached : shown_inode fs (path_normalize path) ≡ some ino) where
  -- Where the cache has an inode for the path, nothing is made there: `xxfs_create`, `xxfs_mkdir` and,
  -- for a target that an inode can hold, `xxfs_symlink` return `XXFS_EEXIST` and leave the state as
  -- it was.
  pub made_twice :
      (mode uid gid : ℕ) (target : List ℕ)
      → length target ≤ inline_max
      → (xxfs_create fuel path mode uid gid fs ≡ some (eexist, fs))
        × (xxfs_mkdir fuel path mode uid gid fs ≡ some (eexist, fs))
        × (xxfs_symlink fuel target path fs ≡ some (eexist, fs))
  unfolding xxfs_create xxfs_mkdir xxfs_symlink
  made_twice mode uid gid target short =
      let s : ltb inline_max (length target) ≡ false = ground arith in
      (rw cached refl, rw cached refl, rw (s, cached) refl)

  -- What the cache has as no directory, `xxfs_rmdir` does not remove.
  pub no_dir :
      is_root (path_normalize path) ≡ false
      → get i_file_type ino ≢ ft_dir
      → xxfs_rmdir fuel path fs ≡ some (enotdir, fs)
  unfolding xxfs_rmdir
  no_dir root other =
      let t : (get i_file_type ino == ft_dir) ≡ false = ne→== _ _ other in rw (root, cached, t) refl
