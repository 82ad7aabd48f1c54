-- ===== src/Fs/DirCache/Listing.antt =====
-- `dir_add_child` and `dir_remove_child` on a directory that is in the directory cache.
use mathlib.Core.List.{Perm}
use xxfs.Base.{
  ℕ, ◌+◌, ◌≤◌, ◌<◌, ◌≡◌, ◌⊎◌, inl, inr, refl, sym, ap, ◌∙◌, arith, true, false, none, some,
  Option-cases, List, [], ◌∷◌, ◌++◌, leb, length, get_or, ==_refl, ap₂, replicate, take_within, u8,
}
use xxfs.Fs.{Fs, DirEntry, with_dcache}
use xxfs.Fs.DirCache.{
  dcache_index, dcache_find, dir_load, push_child, pull_child, dir_add_child, dir_remove_child,
  new_child, child_size, dc_hash, is_child, find_child, remove_at, holds,
}
use xxfs.Fs.DirCache.Children.{
  Found, find_child-Found, find_child-append, remove_at-Perm, remove_at_last,
}
use xxfs.Fs.Inode.{max_name}
use xxfs.Os.Image.{put_bytes, slice, slice-put_bytes_self, slice-put_bytes_apart}
use xxfs.Os.Parts.{slice_split, slice_zeros}
use xxfs.Paged.Entries.Match.{eq→bytes_eq}
use xxfs.Paged.Hash.{xxh64}
use xxfs.Paged.Hash.Range.{xxh64_bounds}
use xxfs.Paged.Index.{ok, enoent}
use xxfs.Paged.Page.{le, of_le}
use xxfs.Paged.Page.Codec.{length-le, of_le-le}

-- A child more in an entry that has room.
abbrev pub with_child : DirEntry → List ℕ → DirEntry
with_child e c = record e { children = e.children ++ c ∷ []; dirty = true }

-- The entry of a path, and whether it is the path's and has room for a child.
abbrev pub dir_at : Fs → List ℕ → DirEntry
dir_at fs path = fs.dcache (dcache_index path)

pub record IsLoaded (fs : Fs) (path : List ℕ) : Type 0 where
  pub its_own : holds (dir_at fs path) path ≡ true
  pub room : length (dir_at fs path).children < (dir_at fs path).child_cap

pub dir_add_child_cached :
    (fuel : ℕ) (fs : Fs) (path name : List ℕ) (type : ℕ)
    → IsLoaded fs path
    → dir_add_child fuel path name type fs
      ≡ some (
        ok,
        with_dcache fs (dcache_index path) (with_child (dir_at fs path) (new_child name type)),
      )
unfolding dir_add_child dir_load dcache_find push_child
dir_add_child_cached fuel fs path name type is =
    let r : leb (dir_at fs path).child_cap (length (dir_at fs path).children) ≡ false =
      let h = is.room in ground arith in
    rw (is.its_own, r) refl

-- An entry without the child at `i`.
abbrev pub without_child : DirEntry → ℕ → DirEntry
without_child e i = record e { children = remove_at e.children i; dirty = true }

module _ (fuel : ℕ) (fs : Fs) (path name : List ℕ) (own : holds (dir_at fs path) path ≡ true) where
  abbrev children : List (List ℕ)
  children = (dir_at fs path).children

  remove_some :
      (i : ℕ)
      → find_child 0 children name ≡ some i
      → dir_remove_child fuel path name fs
        ≡ some (ok, with_dcache fs (dcache_index path) (without_child (dir_at fs path) i))
  unfolding dir_remove_child dir_load dcache_find pull_child
  remove_some i found = rw (own, found) refl

  remove_none :
      find_child 0 children name ≡ none → dir_remove_child fuel path name fs ≡ some (enoent, fs)
  unfolding dir_remove_child dir_load dcache_find pull_child
  remove_none absent = rw (own, absent) refl

  -- `dir_remove_child` of a directory in the directory cache: either no child has the name, and it
  -- returns `XXFS_ENOENT` and changes nothing; or it takes away one child that has the name and keeps
  -- all others, in some order, and marks the directory as changed.
  pub dir_remove_child-Perm :
      (dir_remove_child fuel path name fs ≡ some (enoent, fs)) × Found children name none
      ⊎ ((fs' : Fs) × (c : List ℕ) × (dir_remove_child fuel path name fs ≡ some (ok, fs'))
          × (is_child name c ≡ true)
          × Perm children (c ∷ (dir_at fs' path).children)
          × ((dir_at fs' path).dirty ≡ true))
  dir_remove_child-Perm = elim (Option-cases (find_child 0 children name)) [
    | inl e ↦ inl (remove_none e, rw e at (find_child-Found children name))
    | inr (i, e) ↦
        let (h, has) : Found children name (some i) = rw e at (find_child-Found children name) in
        let same = ==_refl (dcache_index path) in
        inr (
          with_dcache fs (dcache_index path) (without_child (dir_at fs path) i),
          get_or children i [],
          remove_some i e,
          has,
          rw same (remove_at-Perm children i h),
          rw same refl,
        )
  ]

module _ (name : List ℕ) (type : ℕ) (short : length name ≤ max_name) where
  abbrev hashed : List ℕ
  hashed = put_bytes (replicate child_size 0) 0 (le 8 (xxh64 name))

  abbrev named : List ℕ
  named = put_bytes hashed 8 name

  abbrev child : List ℕ
  child = put_bytes named 264 (u8 type ∷ [])

  child_hash : dc_hash child ≡ xxh64 name
  child_hash =
      ap of_le (
        slice-put_bytes_apart named 264 (u8 type ∷ []) 0 8 (inl (omega arith))
        ∙ slice-put_bytes_apart hashed 8 name 0 8 (inl (omega arith))
        ∙ ap (slice hashed 0) (sym (length-le 8 (xxh64 name)))
        ∙ slice-put_bytes_self (replicate child_size 0) 0 (le 8 (xxh64 name)))
      ∙ of_le-le 8 (xxh64 name) (omega (arith, (xxh64_bounds name).1))

  child-name : slice child 8 (length name + 1) ≡ name ++ 0 ∷ []
  child-name =
      slice-put_bytes_apart named 264 (u8 type ∷ []) 8 (length name + 1) (inl (omega arith))
      ∙ slice_split named 8 (length name) 1
      ∙ ap₂ ◌++◌ (slice-put_bytes_self hashed 8 name) (
          slice-put_bytes_apart hashed 8 name (8 + length name) 1 (inr (omega arith))
          ∙ slice-put_bytes_apart (replicate child_size 0) 0 (le 8 (xxh64 name)) (8 + length name) 1
              (inr (omega (arith, length-le 8 (xxh64 name))))
          ∙ slice_zeros child_size (8 + length name) 1)

  name_found : is_child name (new_child name type) ≡ true
  name_found =
      rw (take_within max_name name short, child_hash, child-name, ==_refl (xxh64 name))
        (eq→bytes_eq (name ++ 0 ∷ []) (name ++ 0 ∷ []) refl)

module _ (fuel : ℕ) (fs : Fs) (path name : List ℕ) (type : ℕ) (is : IsLoaded fs path) where
  abbrev added : Fs
  added = with_dcache fs (dcache_index path) (with_child (dir_at fs path) (new_child name type))

  dir_at-added : dir_at added path ≡ with_child (dir_at fs path) (new_child name type)
  dir_at-added = rw (==_refl (dcache_index path)) refl

  -- For a directory in the directory cache that has room, and a name of at most 255 bytes that no
  -- child has: `dir_add_child` succeeds, and `dir_remove_child` of the name then succeeds and gives
  -- back the same children.
  pub dir_remove_child-dir_add_child :
      length name ≤ max_name
      → find_child 0 (dir_at fs path).children name ≡ none
      → (fs1 fs2 : Fs) × (dir_add_child fuel path name type fs ≡ some (ok, fs1))
        × (dir_remove_child fuel path name fs1 ≡ some (ok, fs2))
        × ((dir_at fs2 path).children ≡ (dir_at fs path).children)
  dir_remove_child-dir_add_child short absent =
      let old = (dir_at fs path).children in
      let own : holds (dir_at added path) path ≡ true = rw dir_at-added is.its_own in
      let found : find_child 0 (dir_at added path).children name ≡ some (length old) =
        rw dir_at-added (
          find_child-append 0 old (new_child name type) name absent (name_found name type short)
          ∙ ap some (omega arith)) in
      (
        added,
        with_dcache added (dcache_index path) (without_child (dir_at added path) (length old)),
        dir_add_child_cached fuel fs path name type is,
        remove_some fuel added path name own (length old) found,
        rw (==_refl (dcache_index path)) (remove_at_last old (new_child name type)),
      )
