-- ===== src/Super.antt =====
-- lib/xxfs.h: `struct xxfs_super`, its counters and offsets; lib/xxfs.c: the block allocator,
-- `page_alloc`, `page_alloc_n` and `page_alloc_raw`.
pub mod Alloc
use xxfs.Base.{
  ℕ, ◌+◌, ◌-◌, ◌*◌, ◌/◌, ◌^◌, ◌%◌, Bool, true, false, Option, none, some, ◌==◌, ltb, leb,
  if◌then◌else◌, u64, sub64,
}
use xxfs.Os.{Os, file_extend, file_size}

-- `XXFS_BLOCK_SIZE`
abbrev pub block_size : ℕ
block_size = 4096

-- The fields that the modelled functions read or write, without their prefix `s_`.
pub record Super : Type 0 where
  pub block_count : ℕ
  pub free_blocks : ℕ
  pub inodes_count : ℕ
  pub free_inodes : ℕ
  pub cow_generation : ℕ
  pub data_off : ℕ
  pub pdir_off : ℕ
  pub pdir_size : ℕ
  pub pdir_depth : ℕ

-- What the allocator changes: the counters and the image.
pub record Volume : Type 0 where
  pub sb : Super
  pub os : Os

-- Where the next blocks lie, as `page_alloc` and `page_alloc_n` both compute it.
pub next_off : Super → ℕ
next_off sb = u64 (
    sb.data_off
    + (if ltb 0 sb.free_blocks then u64 (sub64 sb.block_count sb.free_blocks * block_size) else 0))

-- The offset of a new block; 0 is failure.
unfoldable pub page_alloc : Volume → ℕ × Volume
unfolding next_off
page_alloc v =
    let off = next_off v.sb in
    if v.sb.free_blocks == 0
    then (let (grown, os) = file_extend v.os (off + block_size) in
        if grown
        then (
          off,
          record { sb = record (v.sb) { block_count = u64 (v.sb.block_count + 1) }; os = os },
        )
        else (0, record v { os = os }))
    else (off, record v { sb = record (v.sb) { free_blocks = v.sb.free_blocks - 1 } })

-- The offset of `n` new blocks in a row; 0 is failure, and no block at all.
unfoldable pub page_alloc_n : Volume → ℕ → ℕ × Volume
unfolding next_off page_alloc
page_alloc_n v n =
    let off = next_off v.sb in
    if n == 0
    then (0, v)
    else if n == 1
    then page_alloc v
    else if leb n v.sb.free_blocks
    then (off, record v { sb = record (v.sb) { free_blocks = v.sb.free_blocks - n } })
    else (let need = n - v.sb.free_blocks in
        let (grown, os) = file_extend v.os (u64 (off + need * block_size)) in
        if grown
        then (
          off,
          record {
            sb = record (v.sb) { block_count = u64 (v.sb.block_count + need); free_blocks = 0 };
            os = os;
          },
        )
        else (0, record v { os = os }))

-- A block behind the end of the image, for the page directory; 0 is failure.
unfoldable pub page_alloc_raw : Volume → ℕ × Volume
page_alloc_raw v =
    let (size, os) = file_size v.os in
    elim size [
      | none ↦ (0, record v { os = os })
      | some n ↦
          let off = u64 (n + block_size - 1) / block_size * block_size in
          let (grown, os') = file_extend os (off + block_size) in
          if grown then (off, record v { os = os' }) else (0, record v { os = os' })
    ]
