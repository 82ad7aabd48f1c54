-- ===== src/Fs/Keep.antt =====
-- What `icache_put` does to the state where the path is in the cache and the cache has room.
use xxfs.Base.{
  ℕ, ◌*◌, ◌≡◌, refl, ap, ◌∙◌, Bool, true, false, Option, none, some, List, [], leb, u32,
  if◌then◌else◌,
}
use xxfs.Fs.{Fs, with_inodes, with_os, inode_at, keep_inode}
use xxfs.Icache.{Icache, icache_lookup, icache_place, icache_put, make_room, place_in, max_entries}
use xxfs.Icache.Lookup.{IsCache, first_place, icache_lookup-icache_place}
use xxfs.Icache.Put.{lookup_from-StopsWithin, StopsWithin}
use xxfs.Os.{Os, later, os_alloc}
use xxfs.Paged.Hash.{xxh64}

-- The cache neither gives up an entry nor grows.
pub record IsRoomy (fs : Fs) (k : ℕ) : Type 0 where
  pub is_cache : IsCache fs.inodes.ic k
  pub below_max : leb max_entries fs.inodes.ic.count ≡ false
  pub no_growth : leb fs.inodes.ic.cap (u32 (fs.inodes.ic.count * 2)) ≡ false

pub IsRoomy-with_os : (fs : Fs) (k : ℕ) (os : Os) → IsRoomy fs k → IsRoomy (with_os fs os) k
IsRoomy-with_os fs k os r = record {
  is_cache = r.is_cache;
  below_max = r.below_max;
  no_growth = r.no_growth;
}

its_place :
    (ic : Icache) (o : Option ℕ) (ino : List ℕ) → inode_at ic o ≡ some ino → (i : ℕ) × (o ≡ some i)
its_place ic none ino h = absurd (cc h)
its_place ic (some i) ino h = (i, refl)

-- The inode of the path in the cache.
abbrev pub shown_inode : Fs → List ℕ → Option (List ℕ)
shown_inode fs norm = inode_at fs.inodes.ic (icache_lookup fs.inodes.ic (xxh64 norm))

-- The path is in the cache, or a place is free where the search for it begins.
abbrev pub IsNear : Fs → List ℕ → Type 0
IsNear fs norm =
    StopsWithin 16 fs.inodes.ic.table fs.inodes.ic.mask (first_place fs.inodes.ic (xxh64 norm))
      (xxh64 norm)

pub shown_inode-IsNear :
    (fs : Fs) (norm ino : List ℕ) → shown_inode fs norm ≡ some ino → IsNear fs norm
unfolding icache_lookup
shown_inode-IsNear fs norm ino cached =
    let (i, e) = its_place fs.inodes.ic (icache_lookup fs.inodes.ic (xxh64 norm)) ino cached in
    lookup_from-StopsWithin 16 fs.inodes.ic.table fs.inodes.ic.mask
      (first_place fs.inodes.ic (xxh64 norm)) (xxh64 norm) i e

module _ (fs : Fs) (k fuel : ℕ) (norm ino : List ℕ) (roomy : IsRoomy fs k)
    (near : IsNear fs norm) where
  abbrev pub kept : Fs
  kept = with_inodes fs (place_in fs.inodes (xxh64 norm) norm ino)

  room : make_room fuel fs.inodes ≡ some fs.inodes
  unfolding make_room
  room = rw (roomy.below_max, roomy.no_growth) refl

  pub keep_inode-kept : keep_inode fuel norm ino fs ≡ some (tt, kept)
  unfolding icache_put
  keep_inode-kept = rw (room, icache_put) refl

  pub shown_inode-kept : shown_inode kept norm ≡ some ino
  shown_inode-kept =
      let (j, found, same, _, _) =
        icache_lookup-icache_place fs.inodes.ic k fs.inodes.ix.os (xxh64 norm) norm ino
          roomy.is_cache near in
      ap (inode_at kept.inodes.ic) found ∙ ap some same

  -- No call of the kernel is answered by a failure, then or later.
  pub kept_os : fs.inodes.ix.os.outcomes ≡ [] → kept.inodes.ix.os ≡ fs.inodes.ix.os
  unfolding icache_place os_alloc
  kept_os calm = either_way _ _ _ (
      let e : later fs.inodes.ix.os.outcomes ≡ fs.inodes.ix.os.outcomes = rw calm refl in
      ap (λ t. record (fs.inodes.ix.os) { outcomes = t }) e)
    where
      either_way : (b : Bool) (x y : Os) → x ≡ y → (if b then x else y) ≡ y
      either_way true x y e = e
      either_way false x y e = refl
