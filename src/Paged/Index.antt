-- ===== src/Paged/Index.antt =====
-- lib/xxfs.c: the state that the paged hash index works on, `write_record`, and the parts that its
-- operations share.
pub mod Delete
pub mod Get
pub mod Put
pub mod RoundTrip
use xxfs.Base.{
  ℕ, ◌+◌, ◌-◌, ◌^◌, Bool, true, false, Option, none, some, List, ◌++◌, ◌==◌, leb, if◌then◌else◌,
  length, set, u32,
}
use xxfs.Os.{Os, file_pwrite, os_alloc}
use xxfs.Paged.Cache.{
  Cached, Pages, cache_index, hit, page_load, page_writeback, page_cache_invalidate,
}
use xxfs.Paged.Dir.{Dir, entry, no_offset}
use xxfs.Paged.Hash.{dir_index}
use xxfs.Paged.Page.{Page, empty_page, le, page_bytes}
use xxfs.Super.{Super, Volume, page_alloc}

-- The return codes `XXFS_OK` to `XXFS_ENAMETOOLONG` that the code returns.
pub data Rc : Type 0 where
  ok enoent enospc eio enomem eexist einval enotdir eisdir enametoolong : Rc

-- What a C function gives through its arguments, or its code.
pub data Result {ℓ} (A : Type ℓ) : Type ℓ where
  done : A → Result A
  error : Rc → Result A

-- The parts of `struct xxfs` that the index works on.
pub record Index : Type 0 where
  pub sb : Super
  pub os : Os
  pub pcache : ℕ → Cached
  pub pdir : Dir

abbrev pub pages_of : Index → Pages
pages_of ix = record { os = ix.os; pcache = ix.pcache }

abbrev pub with_pages : Index → Pages → Index
with_pages ix st = record ix { os = st.os; pcache = st.pcache }

unfoldable pub load : Index → ℕ → Option Page × Index
load ix off = let (page, st) = page_load (pages_of ix) off in (page, with_pages ix st)

unfoldable pub write_back : Index → Page → ℕ → Index
write_back ix pg off = with_pages ix (page_writeback (pages_of ix) pg off)

unfoldable pub allocate : Index → ℕ × Index
allocate ix =
    let (off, v) = page_alloc (record { sb = ix.sb; os = ix.os }) in
    (off, record ix { sb = v.sb; os = v.os })

-- A page that C changed in the cache without a `page_writeback`.
unfoldable pub touch : Index → Page → ℕ → Index
touch ix pg off =
    let i = cache_index off in
    elim (hit (ix.pcache i) off) [
      | none ↦ ix
      | some old ↦ record ix {
        pcache = λ j. if i == j then record (ix.pcache i) { page = some pg } else ix.pcache j;
      }
    ]

-- The record of an entry: the two lengths, the key and the value.
pub record_bytes : List ℕ → List ℕ → List ℕ
record_bytes key val = le 4 (length key) ++ (le 4 (length val) ++ (key ++ val))

-- A buffer of `n` bytes: the stack has room for 512.
unfoldable pub buffer : Os → ℕ → Bool × Os
buffer os n = if leb n 512 then (true, os) else os_alloc os

unfoldable pub write_record : Index → List ℕ → List ℕ → Result ℕ × Index
unfolding buffer
write_record ix key val =
    let (off, ix1) = allocate ix in
    let (room, os2) = buffer ix1.os (u32 (8 + length key + length val)) in
    let (written, os3) = file_pwrite os2 (record_bytes key val) off in
    if off == 0
    then (error enospc, ix1)
    else if room
    then (if written then done off else error eio, record ix1 { os = os3 })
    else (error enomem, record ix1 { os = os2 })

-- An empty page in a new block.
unfoldable pub make_page : Index → ℕ → ℕ → Bool × Index
make_page ix off depth =
    let (written, os) = file_pwrite ix.os (page_bytes (empty_page depth)) off in
    let ix1 = record ix { os = os } in
    if written
    then (true, with_pages ix1 (page_cache_invalidate (pages_of ix1) off))
    else (false, ix1)

-- The page where `paged_put` and `paged_insert` begin, made if there is none yet.
unfoldable pub start_page : Index → ℕ → Result ℕ × Index
unfolding allocate make_page
start_page ix h =
    let i = dir_index h ix.pdir.global_depth in
    let (off, ix1) = allocate ix in
    let ix2 = record ix1 { pdir = record (ix1.pdir) { page_off = set ix1.pdir.page_off i off } } in
    let (made, ix3) = make_page ix2 off ix2.pdir.global_depth in
    if entry ix.pdir i == no_offset
    then (if off == 0
        then (error enospc, ix1)
        else if made
        then (done (entry ix3.pdir i), ix3)
        else (error eio, ix3))
    else (done (entry ix.pdir i), ix)
