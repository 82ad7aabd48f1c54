-- ===== src/Fs.antt =====
-- lib/xxfs.c: the state `struct xxfs` as the calls from `xxfs_create` on use it, and what they share:
-- the bytes of an inode, `inode_paged_get` and the calls of the layers below.
--
-- A call runs on the state and gives its result with the state behind it, or `none` if the fuel of
-- a loop of the index is used up.
pub mod Attr
pub mod Created
pub mod Data
pub mod DirCache
pub mod Disk
pub mod Field
pub mod Handle
pub mod Inode
pub mod Keep
pub mod Names
pub mod Refusals
use Inode.{inode_size}
use xxfs.Base.{
  ℕ, ◌+◌, ◌%◌, ◌^◌, Bool, true, false, Option, none, some, List, [], ◌∷◌, ◌==◌, if◌then◌else◌,
  update,
}
use xxfs.Check.Inode.{inode_verify_ecc}
use xxfs.Icache.{
  Icache, Inodes, entry_at, icache_lookup, icache_put, icache_del, next_time, later_times,
}
use xxfs.Os.{Os, file_pread, file_pwrite, os_alloc}
use xxfs.Os.Image.{padded}
use xxfs.Paged.Hash.{xxh64}
use xxfs.Paged.Index.{Rc, Result, done, error, Index}
use xxfs.Paged.Index.Delete.{paged_del}
use xxfs.Paged.Index.Get.{paged_get}
use xxfs.Paged.Index.Put.{paged_insert, paged_put}
use xxfs.Super.{Super, Volume, page_alloc, page_alloc_n, page_alloc_raw}

-- `struct dir_cache_entry`: `children` are the first `child_count` of the array, as their bytes,
-- and `child_cap` is the room of the array.
pub record DirEntry : Type 0 where
  pub path : List ℕ
  pub children : List (List ℕ)
  pub child_cap : ℕ
  pub dirty : Bool
  pub valid : Bool

-- `sb_bytes` is `fs->sb` as memory: the fields of `Super` are kept beside it.
pub record Fs : Type 0 where
  pub inodes : Inodes
  pub dcache : ℕ → DirEntry
  pub flags : ℕ
  pub cow_gen : ℕ
  pub sb_bytes : List ℕ

abbrev pub Call : Type 0 → Type 0
Call A = Fs → Option (A × Fs)

module _ {A B : Type 0} where
  abbrev pub and_then : Option (A × Fs) → (A → Call B) → Option (B × Fs)
  and_then none k = none
  and_then (some (a, fs)) k = k a fs

  infixl 5 ◌>>=◌ ◌>>◌
  abbrev pub ◌>>=◌ : Call A → (A → Call B) → Call B
  m >>= k = λ fs. and_then (m fs) k

  abbrev pub ◌>>◌ : Call A → Call B → Call B
  m >> n = m >>= λ _. n

  -- An early return with an error, or the way on.
  abbrev pub or_else : Result A → (Rc → Call B) → (A → Call B) → Call B
  or_else (error rc) f k = f rc
  or_else (done a) f k = k a

abbrev pub pure : {A : Type 0} → A → Call A
pure a fs = some (a, fs)

-- The parts of the state, changed.
abbrev pub with_inodes : Fs → Inodes → Fs
with_inodes fs st = record fs { inodes = st }

abbrev pub with_ix : Fs → Index → Fs
with_ix fs ix = record fs { inodes = record (fs.inodes) { ix = ix } }

abbrev pub with_os : Fs → Os → Fs
with_os fs os = with_ix fs (record (fs.inodes.ix) { os = os })

abbrev pub with_sb : Fs → Super → Fs
with_sb fs sb = with_ix fs (record (fs.inodes.ix) { sb = sb })

abbrev pub with_volume : Fs → Volume → Fs
with_volume fs v = with_ix fs (record (fs.inodes.ix) { sb = v.sb; os = v.os })

abbrev pub with_dcache : Fs → ℕ → DirEntry → Fs
with_dcache fs i e = record fs { dcache = update fs.dcache i e }

abbrev pub volume_of : Fs → Volume
volume_of fs = record { sb = fs.inodes.ix.sb; os = fs.inodes.ix.os }

abbrev pub get_sb : Call Super
get_sb fs = some (fs.inodes.ix.sb, fs)

abbrev pub set_sb : Super → Call (Unit {0})
set_sb sb fs = some (tt, with_sb fs sb)

-- `xxfs_os_time`
abbrev pub os_time : Call ℕ
os_time fs = some (
  next_time fs.inodes.times,
  with_inodes fs (record (fs.inodes) { times = later_times fs.inodes.times }),
)

-- Whether there is memory.
abbrev pub memory : Call Bool
memory fs = let (room, os) = os_alloc fs.inodes.ix.os in some (room, with_os fs os)

-- `xxfs_os_file_pwrite`: whether it wrote all.
abbrev pub pwrite : List ℕ → ℕ → Call Bool
pwrite buf off fs =
    let (written, os) = file_pwrite fs.inodes.ix.os buf off in some (written, with_os fs os)

-- `xxfs_os_file_pread`: the buffer behind the read, where zeros stand for what was not read, or
-- `none` for -1.
abbrev pub pread : ℕ → ℕ → Call (Option (List ℕ))
pread len off fs =
    let (bytes, os) = file_pread fs.inodes.ix.os len off in
    some (elim bytes [ none ↦ none | some bs ↦ some (padded bs len) ], with_os fs os)

abbrev pub alloc : Call ℕ
alloc fs = let (off, v) = page_alloc (volume_of fs) in some (off, with_volume fs v)

abbrev pub alloc_n : ℕ → Call ℕ
alloc_n n fs = let (off, v) = page_alloc_n (volume_of fs) n in some (off, with_volume fs v)

abbrev pub alloc_raw : Call ℕ
alloc_raw fs = let (off, v) = page_alloc_raw (volume_of fs) in some (off, with_volume fs v)

-- The inode that `icache_lookup` finds.
abbrev pub inode_at : Icache → Option ℕ → Option (List ℕ)
inode_at ic none = none
inode_at ic (some i) = some ((entry_at ic.table i).inode)

abbrev pub cached_inode : List ℕ → Call (Option (List ℕ))
cached_inode norm fs = some (inode_at fs.inodes.ic (icache_lookup fs.inodes.ic (xxh64 norm)), fs)

abbrev from_index : {A : Type 0} → Fs → Option A × Index → Option (A × Fs)
from_index fs (none, ix) = none
from_index fs (some a, ix) = some (a, with_ix fs ix)

abbrev pub put_inode : ℕ → List ℕ → List ℕ → Call Rc
put_inode fuel norm val fs = from_index fs (paged_put fuel fs.inodes.ix norm val)

abbrev pub insert_inode : ℕ → List ℕ → List ℕ → Call Rc
insert_inode fuel norm val fs = from_index fs (paged_insert fuel fs.inodes.ix norm val)

abbrev pub delete_inode : ℕ → List ℕ → Call Rc
delete_inode fuel norm fs = from_index fs (paged_del fuel fs.inodes.ix norm)

-- `icache_put`
abbrev from_inodes : Fs → Option Inodes → Option (Unit {0} × Fs)
from_inodes fs none = none
from_inodes fs (some st) = some (tt, with_inodes fs st)

abbrev pub keep_inode : ℕ → List ℕ → List ℕ → Call (Unit {0})
keep_inode fuel norm ino fs = from_inodes fs (icache_put fuel fs.inodes (xxh64 norm) norm ino)

-- `icache_del`
abbrev pub drop_inode : List ℕ → Call (Unit {0})
drop_inode norm fs =
    some (tt, with_inodes fs (record (fs.inodes) { ic = icache_del fs.inodes.ic (xxh64 norm) }))

abbrev verified : Result (List ℕ) → Result (List ℕ)
verified (error rc) = error rc
verified (done ino) = done (inode_verify_ecc ino).1

abbrev pub get_inode : ℕ → List ℕ → Call (Result (List ℕ))
get_inode fuel norm fs = from_index fs (paged_get fuel fs.inodes.ix norm inode_size)

unfoldable pub inode_paged_get : ℕ → List ℕ → Call (Result (List ℕ))
inode_paged_get fuel norm = get_inode fuel norm >>= λ r. pure (verified r)

-- An inode from the cache, or else from the index. With `keeps` the cache then gets it.
abbrev pub find_inode : ℕ → Bool → List ℕ → Call (Result (List ℕ))
find_inode fuel keeps norm = cached_inode norm >>= λ cached. found cached
  where
    missed : Result (List ℕ) → Call (Result (List ℕ))
    missed (error rc) = pure (error rc)
    missed (done ino) =
        if keeps then keep_inode fuel norm ino >> pure (done ino) else pure (done ino)

    found : Option (List ℕ) → Call (Result (List ℕ))
    found (some ino) = pure (done ino)
    found none = inode_paged_get fuel norm >>= missed
