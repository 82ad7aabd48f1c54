-- ===== src/Mount.antt =====
-- lib/xxfs.c: `xxfs_mount`. The directory of pages is read from the image, or built by a scan of it.
pub mod Answers
pub mod Ends
pub mod Format
pub mod Formatted
pub mod Reads
pub mod Remount
use xxfs.Base.{
  ℕ, zero, suc, ◌+◌, ◌-◌, ◌*◌, ◌/◌, ◌%◌, ◌^◌, Bool, true, false, not, ◌&&◌, Option, none, some,
  List, [], ◌∷◌, ◌==◌, ltb, leb, if◌then◌else◌, length, get_or, set, take, drop, replicate, u8, u32,
}
use xxfs.Fs.{Fs, DirEntry}
use xxfs.Fs.Disk.{super_read, super_of}
use xxfs.Icache.{Icache, Inodes, fresh_icache, cap_init, icache_init}
use xxfs.Os.{Os, file_open, file_pread, file_size, os_alloc}
use xxfs.Os.Image.{padded}
use xxfs.Paged.Cache.{Cached}
use xxfs.Paged.Dir.{Dir, no_offset, entry, paged_dir_double}
use xxfs.Paged.Hash.{dir_index}
use xxfs.Paged.Index.{Result, done, error, Index}
use xxfs.Paged.Page.{Page, Slot, zero_slot, slots_per_page, page_of, of_le}
use xxfs.Super.{Super, block_size}
use xxfs.Swiss.{table_init, table_alloc}

abbrev pub no_page : Cached
no_page = record { page_off = 0; page = none; dirty = false }

abbrev pub no_dir : DirEntry
no_dir = record { path = []; children = []; child_cap = 0; dirty = false; valid = false }

-- Without memory for it, C goes on with a null table.
abbrev pub icache_or_null : Option Icache → Icache
icache_or_null (some ic) = ic
icache_or_null none = record (fresh_icache cap_init) { table = [] }

abbrev pub start_dir : Dir
start_dir = record { page_off = no_offset ∷ []; dir_size = 1; global_depth = 0 }

unfoldable pub offsets_of : ℕ → List ℕ → List ℕ
offsets_of zero bytes = []
offsets_of (suc n) bytes = of_le (take 8 bytes) ∷ offsets_of n (drop 8 bytes)

-- The directory from what was read, if that is anything.
abbrev pub dir_from : Super → Option (List ℕ) → Dir
dir_from sb none = start_dir
dir_from sb (some []) = start_dir
dir_from sb (some (b ∷ bs)) = record {
  page_off = offsets_of sb.pdir_size (padded (b ∷ bs) (sb.pdir_size * 8));
  dir_size = sb.pdir_size;
  global_depth = sb.pdir_depth;
}

-- The directory as the super block says where it is.
unfoldable pub read_dir : Super → Os → Dir × Os
read_dir sb os =
    let (room, os1) = os_alloc os in
    let (bytes, os2) = file_pread os1 (sb.pdir_size * 8) sb.pdir_off in
    if room then (dir_from sb bytes, os2) else (start_dir, os1)

-- `while (fs->pdir.global_depth < needed) paged_dir_double(&fs->pdir);`, which does not end where
-- there is no memory: `none` when the fuel is used up.
unfoldable pub deepen : ℕ → Dir → ℕ → Os → Option Dir × Os
deepen zero d needed os = (none, os)
deepen (suc fuel) d needed os = elim (ltb d.global_depth needed) [
  | false ↦ (some d, os)
  | true ↦
      let (doubled, os') = paged_dir_double d os in
      elim doubled [ none ↦ deepen fuel d needed os' | some d' ↦ deepen fuel d' needed os' ]
]

-- A page enters the directory where its first hash belongs, if that place is free.
unfoldable pub note_page : Dir → Page → ℕ → Dir
note_page d pg scan =
    let di = dir_index (get_or pg.slots 0 zero_slot).hash d.global_depth in
    if ltb di d.dir_size && entry d di == no_offset
    then record d { page_off = set d.page_off di scan }
    else d

-- The scan of the image from `scan` on; its first fuel bounds the pages, the second one `deepen`.
unfoldable pub scan_from : ℕ → ℕ → Dir → ℕ → ℕ → Os → Option Dir × Os
unfolding deepen note_page
scan_from zero fuel d fsize scan os = (none, os)
scan_from (suc n) fuel d fsize scan os = elim (leb (scan + block_size) fsize) [
  | false ↦ (some d, os)
  | true ↦
      let (bytes, os1) = file_pread os block_size scan in
      elim bytes [
        | none ↦ (some d, os1)
        | some bs ↦
            let pg = page_of (padded bs block_size) in
            elim (ltb 0 pg.count && leb pg.count slots_per_page) [
              | false ↦ scan_from n fuel d fsize (scan + block_size) os1
              | true ↦
                  let (deep, os2) = deepen fuel d (u8 pg.local_depth) os1 in
                  elim deep [
                    | none ↦ (none, os2)
                    | some d' ↦
                        scan_from n fuel (note_page d' pg scan) fsize (scan + block_size) os2
                  ]
            ]
      ]
]

-- Enough for each page of the image; a size of -1 is a large unsigned number.
abbrev scan_size : Option ℕ → ℕ
scan_size none = 2 ^ 64 - 1
scan_size (some n) = n

unfoldable pub mount_dir : ℕ → ℕ → Super → Os → Option Dir × Os
unfolding read_dir scan_from
mount_dir pages fuel sb os =
    if not (sb.pdir_off == 0) && ltb 0 sb.pdir_size
    then (let (d, os1) = read_dir sb os in (some d, os1))
    else (let (size, os1) = file_size os in
        scan_from pages fuel start_dir (scan_size size) sb.data_off os1)

abbrev pub mounted : List ℕ → Icache → Dir → ℕ → List ℕ → Os → Fs
mounted mem ic d flags times os = record {
  inodes = record {
    ix = record { sb = super_of mem; os = os; pcache = λ _. no_page; pdir = d };
    ic = ic;
    times = times;
  };
  dcache = λ _. no_dir;
  flags = flags;
  cow_gen = (super_of mem).cow_generation;
  sb_bytes = mem;
}

-- What `xxfs_mount` gives: the file system, `NULL`, or nothing where a loop does not end.
pub data Mounted : Type 0 where
  mounts : Fs → Mounted
  null : Os → Mounted
  hangs : Mounted

-- The last part of `xxfs_mount`.
abbrev pub with_dir : List ℕ → Icache → ℕ → List ℕ → Option Dir × Os → Mounted
with_dir mem ic flags times (none, os) = hangs
with_dir mem ic flags times (some d, os) = mounts (mounted mem ic d flags times os)

-- `xxfs_mount` behind `super_read`. The table of `table_alloc` is not used again, and the directory
-- of one page is allocated in any case.
abbrev pub with_super : ℕ → ℕ → ℕ → List ℕ → Result (List ℕ) × Os → Mounted
with_super pages fuel flags times (error rc, os) = null os
with_super pages fuel flags times (done mem, os) =
    let (ic, os1) = icache_init os in
    let (rc, tbl, os2) = table_alloc table_init 1024 os1 in
    let (room, os3) = os_alloc os2 in
    with_dir mem (icache_or_null ic) flags times (mount_dir pages fuel (super_of mem) os3)

unfoldable pub xxfs_mount : ℕ → ℕ → ℕ → List ℕ → Os → Mounted
unfolding mount_dir
xxfs_mount pages fuel flags times os =
    let (room, os1) = os_alloc os in
    let (opened, os2) = file_open os1 in
    if not room
    then null os1
    else if not opened
    then null os2
    else with_super pages fuel flags times (super_read os2)
