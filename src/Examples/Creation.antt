-- ===== src/Examples/Creation.antt =====
-- lib/xxfs.c: a file that is created beside the entry of a small index.
use xxfs.Base.{
  ℕ, zero, suc, ◌+◌, ◌≡◌, inl, false, refl, sym, ap, ◌∙◌, arith, none, some, List, [], ◌∷◌, length,
  replicate, bit_and, bit_and_bound, u32, u64,
}
use xxfs.Examples.Chains.{
  small, pages, small-Shows, home-IsChain, some_page, entries_4096, room_4096, old_key, old_val,
}
use xxfs.Examples.Directories.{root, loaded}
use xxfs.Examples.Files.{entry_at-replicate}
use xxfs.Fs.{Fs}
use xxfs.Fs.Attr.{xxfs_stat}
use xxfs.Fs.Created.{xxfs_create_shows, check_path-xxfs_create, xxfs_create_refuses}
use xxfs.Fs.DirCache.{new_child, xxfs_readdir}
use xxfs.Fs.DirCache.Listing.{IsLoaded}
use xxfs.Fs.Disk.{xxfs_count}
use xxfs.Fs.Field.{get, length-put_all}
use xxfs.Fs.Inode.{
  inode_size, zero_inode, i_mode, i_uid, i_gid, i_file_type, ft_reg, with_name, length-with_name,
  length-inode_set_checksum_ecc,
}
use xxfs.Fs.Keep.{IsRoomy, IsNear, shown_inode}
use xxfs.Fs.Names.{
  made_fields, made_inode, is_root, xxfs_create, xxfs_mkdir, xxfs_rmdir, xxfs_symlink,
}
use xxfs.Check.Inode.{inode_set_checksum_ecc}
use xxfs.Fsck.{check_path}
use xxfs.Icache.{entry_at, empty_entry, fresh_icache, icache_lookup, lookup_from}
use xxfs.Paged.Entries.{lookup, chain_entries}
use xxfs.Paged.Hash.{xxh64}
use xxfs.Paged.Index.{Index, ok, eexist, enotdir, done}
use xxfs.Paged.Index.Get.Chain.{home}
use xxfs.Paged.Index.Put.{paged_insert}
use xxfs.Paged.Index.Put.Insert.{Inserted, paged_insert-Inserted}
use xxfs.PathName.{path_normalize, get_parent_path, get_basename}

abbrev path : List ℕ
path = b'/' ∷ b'b' ∷ []

abbrev fs : Fs
fs = record {
  inodes = record { ix = small; ic = fresh_icache 16; times = [] };
  dcache = λ _. loaded [];
  flags = 0;
  cow_gen = 1;
  sb_bytes = [];
}

abbrev norm : List ℕ
norm = path_normalize path

norm_is : norm ≡ path
unfolding path_normalize
norm_is = refl

parent_is : get_parent_path norm ≡ root
unfolding get_parent_path path_normalize
parent_is = refl

root_is : path_normalize root ≡ root
unfolding path_normalize
root_is = refl

abbrev val : List ℕ
val = inode_set_checksum_ecc (with_name (get_basename norm) (made_inode 420 1000 1000 ft_reg 1 1))

val-length : length val ≡ inode_size
val-length =
    length-inode_set_checksum_ecc
      (with_name (get_basename norm) (made_inode 420 1000 1000 ft_reg 1 1))
      (length-with_name (get_basename norm) (made_inode 420 1000 1000 ft_reg 1 1)
        (length-put_all (made_fields 420 1000 1000 ft_reg 1 1) zero_inode refl))

empty_place : entry_at (replicate 16 empty_entry) (u32 (bit_and (xxh64 norm) 15)) ≡ empty_entry
empty_place =
    entry_at-replicate 16 (u32 (bit_and (xxh64 norm) 15)) empty_entry
      (omega (arith, bit_and_bound 4 (xxh64 norm) 15 (omega arith)))

fresh : lookup (chain_entries pages (4096 ∷ [])) norm ≡ none
fresh =
    ap (λ es. lookup es norm) entries_4096
    ∙ ap (lookup ((old_key, old_val) ∷ [])) norm_is
    ∙ (unfold lookup in refl)

inserted :
    Inserted pages (home small norm) (4096 ∷ []) norm val small (paged_insert 2 small norm val)
inserted =
    paged_insert-Inserted pages small norm val 2 (4096 ∷ []) small-Shows (some_page norm)
      (home-IsChain norm)
      (room_4096 (length norm + length val) (omega (arith, val-length, ap length norm_is))) fresh
      (omega arith)

is_new : shown_inode fs norm ≡ none
unfolding icache_lookup lookup_from
is_new = rw empty_place refl

near : IsNear fs norm
near = inl (rw empty_place refl)

abbrev ix : Index
ix = (paged_insert 2 small norm val).1

roomy : IsRoomy fs 4
roomy = record {
  is_cache = record {
    size = refl;
    cap = refl;
    mask = refl;
    wide = omega arith;
    tagged = λ i used. absurd (used (ap (λ e. e.ctrl) (all_empty 16 i)));
  };
  below_max = refl;
  no_growth = refl;
}
  where
    all_empty : (n i : ℕ) → entry_at (replicate n empty_entry) i ≡ empty_entry
    all_empty zero i = refl
    all_empty (suc n) zero = refl
    all_empty (suc n) (suc i) = all_empty n i

its_parent : IsLoaded fs (get_parent_path norm)
its_parent = rw parent_is (record { its_own = refl; room = omega arith })

xxfs_create_shows_example :
    (fs' : Fs) × (ino : List ℕ) × (xxfs_create 2 path 420 1000 1000 fs ≡ some (ok, fs'))
    × (xxfs_stat 2 path fs' ≡ some (done ino, fs'))
    × (get i_file_type ino ≡ ft_reg)
    × (get i_mode ino ≡ 420)
    × (get i_uid ino ≡ 1000)
    × (get i_gid ino ≡ 1000)
    × (xxfs_readdir 2 root fs' ≡ some (done (new_child (get_basename norm) ft_reg ∷ []), fs'))
    × (xxfs_count fs' ≡ u64 (xxfs_count fs + 1))
xxfs_create_shows_example =
    xxfs_create_shows fs 4 2 path root 420 1000 1000 ix is_new (ap (λ o. (o, ix)) inserted.returns)
      roomy near its_parent inserted.shows.coherent.quiet (root_is ∙ sym parent_is) (omega arith)
      (omega arith) (omega arith)

check_path-xxfs_create_example :
    (fs' : Fs) × (xxfs_create 2 path 420 1000 1000 fs ≡ some (ok, fs'))
    × (check_path 1 2 path fs' ≡ some (0, fs'))
check_path-xxfs_create_example =
    check_path-xxfs_create fs 4 2 path root 420 1000 1000 ix is_new
      (ap (λ o. (o, ix)) inserted.returns) roomy near its_parent inserted.shows.coherent.quiet
      (root_is ∙ sym parent_is) 0

not_root : is_root norm ≡ false
unfolding path_normalize
not_root = refl

xxfs_create_refuses_example :
    (fs' : Fs) × (xxfs_create 2 path 420 1000 1000 fs ≡ some (ok, fs'))
    × (xxfs_create 2 path 384 0 0 fs' ≡ some (eexist, fs'))
    × (xxfs_mkdir 2 path 384 0 0 fs' ≡ some (eexist, fs'))
    × (xxfs_symlink 2 root path fs' ≡ some (eexist, fs'))
    × (xxfs_rmdir 2 path fs' ≡ some (enotdir, fs'))
xxfs_create_refuses_example =
    xxfs_create_refuses fs 4 2 path root 420 1000 1000 ix is_new
      (ap (λ o. (o, ix)) inserted.returns) roomy near its_parent inserted.shows.coherent.quiet
      (root_is ∙ sym parent_is) 384 0 0 root (omega arith) not_root
