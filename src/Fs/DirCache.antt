-- ===== src/Fs/DirCache.antt =====
-- lib/xxfs.c: the directory cache, one entry for each value of the hash: `dcache_find`,
-- `dcache_alloc`, `dcache_flush_entry`, `dcache_flush_all`, `dir_add_child`, `dir_remove_child` and
-- `xxfs_readdir`. A child is its 272 bytes.
pub mod Children
pub mod Listing
use xxfs.Base.{
  ℕ, zero, suc, ◌+◌, ◌-◌, ◌*◌, ◌/◌, ◌%◌, ◌^◌, Bool, true, false, not, ◌&&◌, ◌||◌, Option, none,
  some, List, [], ◌∷◌, ◌++◌, ◌==◌, leb, if◌then◌else◌, length, get_or, set, take, drop, replicate,
  u8, u32, u64,
}
use xxfs.Check.Inode.{inode_set_checksum_ecc}
use xxfs.Fs.{
  Fs, DirEntry, Call, ◌>>=◌, ◌>>◌, or_else, pure, with_dcache, os_time, memory, pwrite, pread,
  alloc, cached_inode, inode_paged_get, put_inode, keep_inode, find_inode,
}
use xxfs.Fs.Field.{get, put}
use xxfs.Fs.Inode.{
  i_file_type, i_size, i_blocks, i_mtime, i_ctime, i_extent_off, i_extent_len, max_name, ft_dir,
}
use xxfs.Os.Image.{put_bytes, slice}
use xxfs.Paged.Hash.{xxh64}
use xxfs.Paged.Index.{Rc, ok, enoent, eio, enomem, enotdir, Result, done, error}
use xxfs.Paged.Page.{le, of_le}
use xxfs.Paged.Slots.{bytes_eq}
use xxfs.PathName.{path_normalize}
use xxfs.Super.{block_size}

-- `DIR_CACHE_SIZE`
abbrev pub dir_cache_size : ℕ
dir_cache_size = 256

-- `sizeof(struct xxfs_dir_child)`
abbrev pub child_size : ℕ
child_size = 272

abbrev pub dc_hash : List ℕ → ℕ
dc_hash c = of_le (slice c 0 8)

abbrev pub dcache_index : List ℕ → ℕ
dcache_index path = xxh64 path % dir_cache_size

-- `dcache_find` on the entry where the path belongs.
abbrev pub holds : DirEntry → List ℕ → Bool
holds e path = e.valid && (length e.path == length path && bytes_eq e.path path)

unfoldable pub dcache_find : Fs → List ℕ → Option DirEntry
dcache_find fs path = let e = fs.dcache (dcache_index path) in if holds e path then some e else none

-- The array of children as memory, and memory as the first `n` children.
abbrev pub children_bytes : List (List ℕ) → List ℕ
children_bytes [] = []
children_bytes (c ∷ cs) = c ++ children_bytes cs

abbrev pub children_of : ℕ → List ℕ → List (List ℕ)
children_of zero bytes = []
children_of (suc n) bytes = slice bytes 0 child_size ∷ children_of n (drop child_size bytes)

abbrev new_bytes : List (List ℕ) → ℕ
new_bytes cs = u64 (length cs * child_size)

abbrev new_blocks : List (List ℕ) → ℕ
new_blocks cs = u32 ((new_bytes cs + block_size - 1) / block_size)

-- The last part of `dcache_flush_entry`.
abbrev save_dir : ℕ → ℕ → DirEntry → List ℕ → Call (Unit {0})
save_dir fuel i e dino = do
  now ← os_time
  let dino' = inode_set_checksum_ecc (put i_ctime now (put i_mtime now dino))
  rc ← put_inode fuel e.path dino'
  kept rc dino'
  λ fs. some (tt, with_dcache fs i (record e { dirty = false }))
  where
    kept : Rc → List ℕ → Call (Unit {0})
    kept ok ino = keep_inode fuel e.path ino
    kept rc ino = pure tt

abbrev dir_entry : ℕ → Call DirEntry
dir_entry i fs = some (fs.dcache i, fs)

abbrev no_children : List ℕ → List ℕ
no_children dino = put i_blocks 0 (put i_extent_len 0 (put i_extent_off 0 (put i_size 0 dino)))

abbrev moved_to : ℕ → List (List ℕ) → List ℕ → List ℕ
moved_to off cs dino =
    put i_size (new_bytes cs)
      (put i_blocks (new_blocks cs) (put i_extent_len (new_blocks cs) (put i_extent_off off dino)))

-- `dcache_flush_entry` once it has the inode.
unfoldable pub flush_children : ℕ → ℕ → DirEntry → List ℕ → Call (Unit {0})
flush_children fuel i e dino =
    let bytes = children_bytes e.children in
    if length e.children == 0
    then save_dir fuel i e (no_children dino)
    else if not (get i_extent_off dino == 0) && leb (new_blocks e.children) (get i_blocks dino)
    then (do
      pwrite bytes (get i_extent_off dino)
      save_dir fuel i e (put i_size (new_bytes e.children) dino))
    else (do
      off ← alloc
      if off == 0 then pure tt else (do
        written ← pwrite bytes off
        if written then save_dir fuel i e (moved_to off e.children dino) else pure tt))

unfoldable pub dcache_flush_entry : ℕ → ℕ → Call (Unit {0})
unfolding flush_children
dcache_flush_entry fuel i = do
  e ← dir_entry i
  if not e.dirty || not e.valid then pure tt else (do
    dino ← find_inode fuel false e.path
    or_else dino (λ _. pure tt) (flush_children fuel i e))

-- The loop of `dcache_flush_all` from entry `i` on.
unfoldable pub flush_dirs_from : ℕ → ℕ → ℕ → Call (Unit {0})
unfolding dcache_flush_entry
flush_dirs_from fuel zero i = pure tt
flush_dirs_from fuel (suc left) i =
    let rest = flush_dirs_from fuel left (i + 1) in
    dir_entry i >>= λ e. if e.dirty then dcache_flush_entry fuel i >> rest else rest

unfoldable pub dcache_flush_all : ℕ → Call (Unit {0})
unfolding flush_dirs_from
dcache_flush_all fuel = flush_dirs_from fuel dir_cache_size 0

abbrev pub fresh_dir : List ℕ → DirEntry
fresh_dir path = record { path = path; children = []; child_cap = 0; dirty = false; valid = true }

-- `dcache_alloc` for a path that `dcache_find` does not find.
unfoldable pub dcache_alloc : ℕ → List ℕ → Call (Unit {0})
unfolding dcache_flush_entry
dcache_alloc fuel path = do
  let i = dcache_index path
  e ← dir_entry i
  if e.valid && e.dirty then dcache_flush_entry fuel i else pure tt
  λ fs. some (tt, with_dcache fs i (fresh_dir path))

-- The children are read from the extent of the directory. If the read fails, C goes on with memory
-- that it never wrote, and zeros here.
unfoldable pub read_children : List ℕ → List ℕ → Call (Unit {0})
read_children path dino =
    let child_bytes = get i_size dino in
    let cnt = u32 (child_bytes / child_size) in
    if not (child_bytes == 0) && not (get i_extent_off dino == 0)
    then (do
      room ← memory
      if room
          then (do
            bytes ← pread child_bytes (get i_extent_off dino)
            λ fs. some (
              tt,
              with_dcache fs (dcache_index path) (record (fs.dcache (dcache_index path)) {
                children = children_of cnt (read_bytes bytes);
                child_cap = cnt;
              }),
            ))
          else pure tt)
    else pure tt
  where
    read_bytes : Option (List ℕ) → List ℕ
    read_bytes none = []
    read_bytes (some bs) = bs

-- The cached inode of a directory; one of another type is not used.
abbrev dir_inode : ℕ → List ℕ → Option (List ℕ) → Call (Result (List ℕ))
dir_inode fuel path none = inode_paged_get fuel path
dir_inode fuel path (some ino) =
    if get i_file_type ino == ft_dir then pure (done ino) else inode_paged_get fuel path

-- What `dir_add_child` and `dir_remove_child` begin with: the entry is in the cache behind it.
unfoldable pub dir_load : ℕ → List ℕ → Call Rc
unfolding dcache_find dcache_alloc read_children
dir_load fuel path fs = found (dcache_find fs path) fs
  where
    found : Option DirEntry → Call Rc
    found (some e) = pure ok
    found none = do
      dcache_alloc fuel path
      cached ← cached_inode path
      dino ← dir_inode fuel path cached
      or_else dino (λ _. pure enoent) (λ ino. read_children path ino >> pure ok)

abbrev pub new_child : List ℕ → ℕ → List ℕ
new_child name type =
    let shown = take max_name name in
    put_bytes (put_bytes (put_bytes (replicate child_size 0) 0 (le 8 (xxh64 shown))) 8 shown) 264
      (u8 type ∷ [])

-- The rest of `dir_add_child`: the array grows if it is full.
unfoldable pub push_child : List ℕ → List ℕ → ℕ → Call Rc
push_child path name type = do
  let i = dcache_index path
  e ← dir_entry i
  let full = leb e.child_cap (length e.children)
  room ← if full then memory else pure true
  let cap = if full then if e.child_cap == 0 then 16 else u32 (e.child_cap * 2) else e.child_cap
  if room
      then (λ fs. some (
        ok,
        with_dcache fs i (record e {
          children = e.children ++ new_child name type ∷ [];
          child_cap = cap;
          dirty = true;
        }),
      ))
      else pure enomem

unfoldable pub dir_add_child : ℕ → List ℕ → List ℕ → ℕ → Call Rc
unfolding dir_load push_child
dir_add_child fuel path name type = dir_load fuel path >>= loaded
  where
    loaded : Rc → Call Rc
    loaded ok = push_child path name type
    loaded rc = pure rc

-- Whether a child has the name, with the 0 behind it.
abbrev pub is_child : List ℕ → List ℕ → Bool
is_child name c = dc_hash c == xxh64 name && bytes_eq (slice c 8 (length name + 1)) (name ++ 0 ∷ [])

unfoldable pub find_child : ℕ → List (List ℕ) → List ℕ → Option ℕ
find_child i [] name = none
find_child i (c ∷ cs) name = if is_child name c then some i else find_child (suc i) cs name

-- The last child takes the place of child `i`.
unfoldable pub remove_at : List (List ℕ) → ℕ → List (List ℕ)
remove_at cs i = take (length cs - 1) (set cs i (get_or cs (length cs - 1) []))

-- The rest of `dir_remove_child`.
unfoldable pub pull_child : List ℕ → List ℕ → Call Rc
unfolding find_child remove_at
pull_child path name =
    dir_entry (dcache_index path) >>= λ e. pulled e (find_child 0 e.children name)
  where
    pulled : DirEntry → Option ℕ → Call Rc
    pulled e none = pure enoent
    pulled e (some i) = λ fs. some (
      ok,
      with_dcache fs (dcache_index path)
          (record e { children = remove_at e.children i; dirty = true }),
    )

unfoldable pub dir_remove_child : ℕ → List ℕ → List ℕ → Call Rc
unfolding dir_load pull_child
dir_remove_child fuel path name = dir_load fuel path >>= loaded
  where
    loaded : Rc → Call Rc
    loaded ok = pull_child path name
    loaded rc = pure rc

-- `xxfs_readdir`: the entries of the context.
unfoldable pub xxfs_readdir : ℕ → List ℕ → Call (Result (List (List ℕ)))
unfolding dcache_find
xxfs_readdir fuel path fs = listed (dcache_find fs norm) fs
  where
    norm : List ℕ
    norm = path_normalize path

    read : ℕ → Option (List ℕ) → Result (List (List ℕ))
    read size none = error eio
    read size (some bytes) = done (children_of (u32 (size / child_size)) bytes)

    of_inode : List ℕ → Call (Result (List (List ℕ)))
    of_inode ino =
        let size = get i_size ino in
        if not (get i_file_type ino == ft_dir)
        then pure (error enotdir)
        else if size == 0 || get i_extent_off ino == 0
        then pure (done [])
        else (do
          room ← memory
          if room
              then (do bytes ← pread size (get i_extent_off ino); pure (read size bytes))
              else pure (error enomem))

    listed : Option DirEntry → Call (Result (List (List ℕ)))
    listed (some e) =
        if length e.children == 0
        then pure (done [])
        else (do room ← memory; pure (if room then done e.children else error enomem))
    listed none = do
      ino ← inode_paged_get fuel norm
      or_else ino (λ _. pure (error enoent)) of_inode
