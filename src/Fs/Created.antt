-- ===== src/Fs/Created.antt =====
-- What `xxfs_create` leaves behind: `xxfs_stat` and the directory show the new file.
use xxfs.Base.{
  ℕ, suc, ◌+◌, ◌^◌, ◌≤◌, ◌<◌, ◌≡◌, refl, sym, ap, ◌∙◌, arith, false, none, some, List, [], ◌∷◌,
  ◌++◌, ◌==◌, length, length-append, u64, sub64, ==_refl, ne→==,
}
use xxfs.Check.Inode.{inode_set_checksum_ecc}
use xxfs.Fs.{Fs, with_ix, with_sb, with_dcache}
use xxfs.Fs.Attr.{xxfs_stat}
use xxfs.Fs.DirCache.{dcache_index, dcache_find, new_child, xxfs_readdir}
use xxfs.Fs.DirCache.Listing.{with_child, dir_at, IsLoaded, dir_add_child_cached}
use xxfs.Fs.Disk.{xxfs_count}
use xxfs.Fs.Field.{Field, get, value_in, get-put_all}
use xxfs.Fs.Inode.{
  i_mode, i_uid, i_gid, i_file_type, inline_max, name_off, ft_reg, zero_inode, with_name,
  get-with_name, get-inode_set_checksum_ecc,
}
use xxfs.Fs.Keep.{IsRoomy, IsNear, shown_inode, kept, keep_inode-kept, shown_inode-kept, kept_os}
use xxfs.Fs.Names.{
  made_fields, made_inode, enter, is_root, xxfs_create, xxfs_mkdir, xxfs_rmdir, xxfs_symlink,
}
use xxfs.Fs.Refusals.{made_twice, no_dir}
use xxfs.Fsck.{check_path}
use xxfs.Fsck.Sound.{check_path_file}
use xxfs.Os.{os_alloc_calm}
use xxfs.Paged.Index.{ok, eexist, enotdir, Index, done}
use xxfs.Paged.Index.Put.{paged_insert}
use xxfs.Paged.Index.Put.Kept.{paged_insert_keeps}
use xxfs.PathName.{path_normalize, get_parent_path, get_basename}

module _ (fs : Fs) (k fuel : ℕ) (path dir : List ℕ) (mode uid gid : ℕ) (ix : Index) where
  abbrev norm : List ℕ
  norm = path_normalize path

  abbrev parent : List ℕ
  parent = get_parent_path norm

  abbrev val : List ℕ
  val =
      inode_set_checksum_ecc
        (with_name (get_basename norm) (made_inode mode uid gid ft_reg 1 fs.cow_gen))

  abbrev child : List ℕ
  child = new_child (get_basename norm) ft_reg

  module _ (is_new : shown_inode fs norm ≡ none)
      (inserted : paged_insert fuel fs.inodes.ix norm val ≡ (some ok, ix)) (roomy : IsRoomy fs k)
      (near : IsNear fs norm) (loaded : IsLoaded fs parent) (calm : ix.os.outcomes ≡ [])
      (its_dir : path_normalize dir ≡ parent) where
    roomy' : IsRoomy (with_ix fs ix) k
    roomy' = record {
      is_cache = roomy.is_cache;
      below_max = roomy.below_max;
      no_growth = roomy.no_growth;
    }

    abbrev stored : Fs
    stored = kept (with_ix fs ix) k fuel norm val roomy' near

    abbrev listed : Fs
    listed = with_dcache stored (dcache_index parent) (with_child (dir_at fs parent) child)

    abbrev created : Fs
    created = with_sb listed (record (ix.sb) {
      inodes_count = u64 (ix.sb.inodes_count + 1);
      free_inodes = sub64 ix.sb.free_inodes 1;
    })

    enter_file : xxfs_create fuel path mode uid gid fs ≡ some (ok, created)
    unfolding xxfs_create enter
    enter_file =
        rw
          (
            is_new,
            inserted,
            keep_inode-kept (with_ix fs ix) k fuel norm val roomy' near,
            dir_add_child_cached fuel stored parent (get_basename norm) ft_reg
                (record { its_own = loaded.its_own; room = loaded.room }),
          )
          refl

    stat_finds : xxfs_stat fuel path created ≡ some (done val, created)
    unfolding xxfs_stat
    stat_finds = rw (shown_inode-kept (with_ix fs ix) k fuel norm val roomy' near) refl

    dir_after : dir_at created parent ≡ with_child (dir_at fs parent) child
    dir_after = rw (==_refl (dcache_index parent)) refl

    dir_found : dcache_find created parent ≡ some (with_child (dir_at fs parent) child)
    unfolding dcache_find
    dir_found = rw (dir_after, loaded.its_own) refl

    readdir_shows :
        xxfs_readdir fuel dir created
        ≡ some (done ((dir_at fs parent).children ++ child ∷ []), created)
    unfolding xxfs_readdir
    readdir_shows =
        let n : (length ((dir_at fs parent).children ++ child ∷ []) == 0) ≡ false = ne→== _ _ (λ e.
          absurd (omega (arith, e, length-append (dir_at fs parent).children (child ∷ [])))) in
        let os : created.inodes.ix.os.outcomes ≡ [] =
          ap (λ o. o.outcomes) (kept_os (with_ix fs ix) k fuel norm val roomy' near calm) ∙ calm in
        let alloc = os_alloc_calm created.inodes.ix.os os in
        rw (its_dir, dir_found, n, ap (λ t. t.0) alloc, ap (λ t. t.1) alloc) refl

    head_field :
        (f : Field) (v : ℕ)
        → value_in (made_fields mode uid gid ft_reg 1 fs.cow_gen) f ≡ some v
        → v < 256 ^ f.width
        → f.off + f.width ≤ name_off
        → get f val ≡ v
    head_field f v has bound h =
        get-inode_set_checksum_ecc f _ (omega (arith, h))
        ∙ get-with_name f (get_basename norm) (made_inode mode uid gid ft_reg 1 fs.cow_gen) h
        ∙ get-put_all (made_fields mode uid gid ft_reg 1 fs.cow_gen) zero_inode f v has bound

    count_kept : ix.sb.inodes_count ≡ fs.inodes.ix.sb.inodes_count
    count_kept =
        sym (ap (λ r. r.1.sb.inodes_count) inserted) ∙ paged_insert_keeps fuel fs.inodes.ix norm val

    -- `xxfs_create` of a path that the cache does not have, where `paged_insert` succeeds, the cache
    -- has room near the place of the path, the parent is in the directory cache with room for a
    -- child, and no later call fails: it succeeds, `xxfs_stat` of the path then gives a regular file
    -- with the mode, the user and the group of the call, `xxfs_readdir` of the parent lists the old
    -- children and behind them the new one, and the count of inodes, of 64 bits, has grown by one.
    pub xxfs_create_shows :
        mode < 2 ^ 16
        → uid < 2 ^ 16
        → gid < 2 ^ 16
        → (fs' : Fs) × (ino : List ℕ) × (xxfs_create fuel path mode uid gid fs ≡ some (ok, fs'))
          × (xxfs_stat fuel path fs' ≡ some (done ino, fs'))
          × (get i_file_type ino ≡ ft_reg)
          × (get i_mode ino ≡ mode)
          × (get i_uid ino ≡ uid)
          × (get i_gid ino ≡ gid)
          × (xxfs_readdir fuel dir fs'
              ≡ some (
                done ((dir_at fs parent).children ++ new_child (get_basename norm) ft_reg ∷ []),
                fs',
              ))
          × (xxfs_count fs' ≡ u64 (xxfs_count fs + 1))
    unfolding xxfs_count
    xxfs_create_shows m u g = (
      created,
      val,
      enter_file,
      stat_finds,
      head_field i_file_type ft_reg refl (omega arith) (omega arith),
      head_field i_mode mode refl (omega (arith, m)) (omega arith),
      head_field i_uid uid refl (omega (arith, u)) (omega arith),
      head_field i_gid gid refl (omega (arith, g)) (omega arith),
      readdir_shows,
      ap (λ (n : ℕ). u64 (n + 1)) count_kept,
    )

    -- Under the conditions of `xxfs_create_shows` but for those on the mode, the user and the group,
    -- `check_path` of `xxfs-fsck` then reports no error for the new file, and leaves the state as it
    -- is.
    pub check_path-xxfs_create :
        (levels : ℕ)
        → (fs' : Fs) × (xxfs_create fuel path mode uid gid fs ≡ some (ok, fs'))
          × (check_path (suc levels) fuel path fs' ≡ some (0, fs'))
    check_path-xxfs_create levels =
        let is_file = head_field i_file_type ft_reg refl (omega arith) (omega arith) in
        (
          created,
          enter_file,
          check_path_file levels fuel path _ created created stat_finds (omega (arith, is_file)),
        )

    shown : shown_inode created norm ≡ some val
    shown = shown_inode-kept (with_ix fs ix) k fuel norm val roomy' near

    -- Under the conditions of `xxfs_create_shows` but for those on the mode, the user and the group,
    -- and for a path that is not the root: the path of the new file is then taken. `xxfs_create`,
    -- `xxfs_mkdir` and, for a target that an inode can hold, `xxfs_symlink` of it return
    -- `XXFS_EEXIST`, `xxfs_rmdir` returns `XXFS_ENOTDIR`, and each leaves the state as it is.
    pub xxfs_create_refuses :
        (mode' uid' gid' : ℕ) (target : List ℕ)
        → length target ≤ inline_max
        → is_root norm ≡ false
        → (fs' : Fs) × (xxfs_create fuel path mode uid gid fs ≡ some (ok, fs'))
          × (xxfs_create fuel path mode' uid' gid' fs' ≡ some (eexist, fs'))
          × (xxfs_mkdir fuel path mode' uid' gid' fs' ≡ some (eexist, fs'))
          × (xxfs_symlink fuel target path fs' ≡ some (eexist, fs'))
          × (xxfs_rmdir fuel path fs' ≡ some (enotdir, fs'))
    xxfs_create_refuses mode' uid' gid' target short not_root =
        let is_file = head_field i_file_type ft_reg refl (omega arith) (omega arith) in
        let (again, as_dir, as_link) =
          made_twice created fuel path val shown mode' uid' gid' target short in
        (
          created,
          enter_file,
          again,
          as_dir,
          as_link,
          no_dir created fuel path val shown not_root (omega (arith, is_file)),
        )
