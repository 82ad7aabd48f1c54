-- ===== src/Paged/Cache.antt =====
-- lib/xxfs.c: the page cache `pcache`, direct mapped, with `page_load`, `page_writeback`,
-- `pcache_flush_all` and `page_cache_invalidate`. A page that C code changes through the pointer
-- that `page_load` gave it is handed to `page_writeback` as a value.
pub mod Coherent
pub mod Evict
pub mod Flush
pub mod Load
pub mod Writeback
use mathlib.Core.Option
use xxfs.Base.{
  ℕ, zero, suc, ◌+◌, ◌/◌, ◌%◌, ◌^◌, ◌>>>◌, Bool, true, false, ◌&&◌, Option, none, some, ◌==◌,
  if◌then◌else◌, update,
}
use xxfs.Os.{Os, file_pwrite, file_pread, os_alloc}
use xxfs.Os.Image.{padded, slice}
use xxfs.Paged.Page.{Page, page_bytes, page_of}
use xxfs.Super.{Volume, block_size}

-- `PCACHE_SIZE`
abbrev pub pcache_size : ℕ
pcache_size = 2 ^ 12

-- `struct paged_cache`
pub record Cached : Type 0 where
  pub page_off : ℕ
  pub page : Option Page
  pub dirty : Bool

-- The parts of `struct xxfs` that the cache works on.
pub record Pages : Type 0 where
  pub os : Os
  pub pcache : ℕ → Cached

-- `(off >> XXFS_BLOCK_BITS) & PCACHE_MASK`
unfoldable pub cache_index : ℕ → ℕ
cache_index off = (off >>> 12) % pcache_size

-- The page in a slot, if it is the one at `off`.
abbrev pub hit : Cached → ℕ → Option Page
hit c off = if c.page_off == off then c.page else none

-- A dirty page goes to its place in the image, whether or not that succeeds, and is dropped.
unfoldable pub evict : Os → Cached → Os × Cached
evict os c = elim (c.page) [
  | none ↦ (os, c)
  | some pg ↦
      if c.dirty
      then ((file_pwrite os (page_bytes pg) c.page_off).1, record c { page = none; dirty = false })
      else (os, record c { page = none })
]

-- A zeroed page, read over.
unfoldable pub fill : Os → ℕ → Option Page × Os
fill os off =
    let (room, os1) = os_alloc os in
    let (bytes, os2) = file_pread os1 block_size off in
    if room then (Option.map (λ bs. page_of (padded bs block_size)) bytes, os2) else (none, os1)

unfoldable pub page_load : Pages → ℕ → Option Page × Pages
unfolding cache_index evict fill
page_load st off =
    let i = cache_index off in
    elim (hit (st.pcache i) off) [
      | some pg ↦ (some pg, st)
      | none ↦
          let (os1, c) = evict st.os (st.pcache i) in
          let (page, os2) = fill os1 off in
          elim page [
            | none ↦ (none, record { os = os2; pcache = update st.pcache i c })
            | some pg ↦ (
              some pg,
              record {
                os = os2;
                pcache =
                    update st.pcache i (record { page_off = off; page = some pg; dirty = false });
              },
            )
          ]
    ]

-- The changed page `pg` of `off`: kept in its slot, or written through if it is not there.
unfoldable pub page_writeback : Pages → Page → ℕ → Pages
unfolding cache_index
page_writeback st pg off =
    let i = cache_index off in
    elim (hit (st.pcache i) off) [
      | some old ↦ record st {
        pcache = update st.pcache i (record { page_off = off; page = some pg; dirty = true });
      }
      | none ↦ record st { os = (file_pwrite st.os (page_bytes pg) off).1 }
    ]

-- One round of `pcache_flush_all`.
unfoldable pub flush_slot : Pages → ℕ → Pages
flush_slot st i = elim ((st.pcache i).page) [
  | none ↦ st
  | some pg ↦
      if (st.pcache i).dirty
      then record {
        os = (file_pwrite st.os (page_bytes pg) (st.pcache i).page_off).1;
        pcache = update st.pcache i (record (st.pcache i) { dirty = false });
      }
      else st
]

-- The rounds that are left, from slot `i` on.
unfoldable pub flush_from : ℕ → ℕ → Pages → Pages
unfolding flush_slot
flush_from zero i st = st
flush_from (suc left) i st = flush_from left (i + 1) (flush_slot st i)

unfoldable pub pcache_flush_all : Pages → Pages
pcache_flush_all st = flush_from pcache_size 0 st

-- The slot of `off`, if it holds that page, is written out and emptied.
unfoldable pub page_cache_invalidate : Pages → ℕ → Pages
unfolding cache_index
page_cache_invalidate st off =
    let i = cache_index off in
    elim (hit (st.pcache i) off) [
      | none ↦ st
      | some pg ↦ record {
        os = if (st.pcache i).dirty then (file_pwrite st.os (page_bytes pg) off).1 else st.os;
        pcache = update st.pcache i (record { page_off = 0; page = none; dirty = false });
      }
    ]
