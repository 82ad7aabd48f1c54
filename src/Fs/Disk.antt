-- ===== src/Fs/Disk.antt =====
-- lib/xxfs.c: `pdir_write`, `super_write`, `super_read`, `xxfs_sync`, `xxfs_umount` and `xxfs_info`.
-- What was written is in the image: `xxfs_os_file_sync` changes nothing here.
pub mod Codec
use xxfs.Base.{
  ℕ, ◌+◌, ◌*◌, ◌^◌, Bool, true, false, not, Option, none, some, List, [], ◌∷◌, ◌++◌, ◌==◌, ltb,
  if◌then◌else◌, length, take, u32,
}
use xxfs.Check.{EccRc, intact, corrected, uncorrectable, crc32c, ecc_compute, ecc_correct}
use xxfs.Fs.{Fs, Call, ◌>>=◌, ◌>>◌, pure, with_inodes, with_ix, get_sb, set_sb, pwrite, alloc_raw}
use xxfs.Fs.DirCache.{dcache_flush_all}
use xxfs.Fs.Field.{Field, get, put, put_all}
use xxfs.Icache.{icache_flush_all}
use xxfs.Os.{Os, file_pread, file_pwrite}
use xxfs.Os.Image.{slice}
use xxfs.Paged.Cache.{pcache_flush_all}
use xxfs.Paged.Dir.{Dir}
use xxfs.Paged.Index.{Rc, eio, Result, done, error, pages_of, with_pages}
use xxfs.Paged.Page.{le}
use xxfs.Super.{Super, block_size}

-- `XXFS_MAGIC` and `XXFS_VERSION`
abbrev pub magic : ℕ
magic = 0x58585346

abbrev pub version : ℕ
version = 3

-- `sizeof(struct xxfs_super)`
abbrev pub super_size : ℕ
super_size = 4096

abbrev pub word_at : ℕ → Field
word_at off = record { off = off; width = 4 }

abbrev pub long_at : ℕ → Field
long_at off = record { off = off; width = 8 }

-- Where `s_checksum` and `s_ecc` lie.
abbrev pub sum_off : ℕ
sum_off = 208

abbrev pub codes_off : ℕ
codes_off = 228

-- The fields of `Super` in the bytes of the structure.
abbrev pub super_fields : Super → List (Field × ℕ)
super_fields sb =
    ((record { off = 224; width = 1 }), sb.pdir_depth)
    ∷ ((word_at 220), sb.pdir_size)
    ∷ ((long_at 212), sb.pdir_off)
    ∷ ((long_at 168), sb.data_off)
    ∷ ((long_at 56), sb.cow_generation)
    ∷ ((long_at 40), sb.free_inodes)
    ∷ ((long_at 32), sb.inodes_count)
    ∷ ((long_at 24), sb.free_blocks)
    ∷ ((long_at 16), sb.block_count)
    ∷ []

unfoldable pub super_bytes : List ℕ → Super → List ℕ
super_bytes mem sb = put_all (super_fields sb) mem

unfoldable pub super_of : List ℕ → Super
super_of mem = record {
  block_count = get (long_at 16) mem;
  free_blocks = get (long_at 24) mem;
  inodes_count = get (long_at 32) mem;
  free_inodes = get (long_at 40) mem;
  cow_generation = get (long_at 56) mem;
  data_off = get (long_at 168) mem;
  pdir_off = get (long_at 212) mem;
  pdir_size = get (word_at 220) mem;
  pdir_depth = get (record { off = 224; width = 1 }) mem;
}

-- `s_checksum` set, and with `s_ecc`.
abbrev pub with_sum : List ℕ → List ℕ
with_sum mem = put (word_at sum_off) (crc32c (slice mem 0 sum_off)) mem

abbrev pub sealed : List ℕ → List ℕ
sealed mem = ecc_compute (with_sum mem) sum_off codes_off

abbrev pub sum_agrees : List ℕ → Bool
sum_agrees mem = crc32c (slice mem 0 sum_off) == get (word_at sum_off) mem

abbrev pub offsets_bytes : List ℕ → List ℕ
offsets_bytes [] = []
offsets_bytes (o ∷ os) = le 8 o ++ offsets_bytes os

abbrev get_pdir : Call Dir
get_pdir fs = some (fs.inodes.ix.pdir, fs)

-- A new place for the directory, noted in the super block; 0 is failure.
abbrev place_pdir : Call ℕ
place_pdir = do
  off ← alloc_raw
  sb ← get_sb
  if off == 0 then pure 0 else set_sb (record sb { pdir_off = off }) >> pure off

unfoldable pub pdir_write : Call (Unit {0})
pdir_write = do
  d ← get_pdir
  let bytes = u32 (d.dir_size * 8)
  if d.dir_size == 0 then pure tt else (do
    sb ← get_sb
    off ← if sb.pdir_off == 0 then place_pdir else pure sb.pdir_off
    if off == 0 then pure tt else (do
      off' ← if ltb block_size bytes then place_pdir else pure off
      if off' == 0 then pure tt else (do
        pwrite (take bytes (offsets_bytes (take d.dir_size d.page_off))) off'
        sb' ← get_sb
        set_sb (record sb' { pdir_size = d.dir_size; pdir_depth = d.global_depth }))))

abbrev seal_super : Call (List ℕ)
seal_super fs =
    let mem = sealed (super_bytes fs.sb_bytes fs.inodes.ix.sb) in
    some (mem, record fs { sb_bytes = mem })

unfoldable pub super_write : Call (Unit {0})
unfolding pdir_write
super_write = do pdir_write; mem ← seal_super; pwrite mem 0; pure tt

abbrev pub checked_magic : List ℕ → Result (List ℕ)
checked_magic mem = if get (word_at 0) mem == magic then done mem else error eio

-- `super_read` behind the read: the structure, repaired and written back if its checksum asks for
-- it.
abbrev pub super_from : Option (List ℕ) → Os → Result (List ℕ) × Os
super_from none os = (error eio, os)
super_from (some mem) os =
    let (rc, mem') = ecc_correct mem sum_off codes_off in
    if ltb (length mem) super_size
    then (error eio, os)
    else if sum_agrees mem
    then (checked_magic mem, os)
    else elim rc [
      | corrected ↦
          if sum_agrees mem'
          then (checked_magic mem', (file_pwrite os mem' 0).1)
          else (error eio, os)
      | _ ↦ (error eio, os)
    ]

unfoldable pub super_read : Os → Result (List ℕ) × Os
super_read os = let (bytes, os1) = file_pread os super_size 0 in super_from bytes os1

abbrev flush_inodes : ℕ → Call (Unit {0})
flush_inodes fuel fs = elim (icache_flush_all fuel fs.inodes) [
  | none ↦ none
  | some st ↦ some (tt, with_inodes fs st)
]

abbrev flush_pages : Call (Unit {0})
flush_pages fs =
    some (tt, with_ix fs (with_pages fs.inodes.ix (pcache_flush_all (pages_of fs.inodes.ix))))

unfoldable pub xxfs_sync : ℕ → Call (Unit {0})
unfolding super_write
xxfs_sync fuel = do flush_inodes fuel; dcache_flush_all fuel; flush_pages; super_write

-- The part of `xxfs_umount` in front of the releases.
unfoldable pub xxfs_umount : ℕ → Call (Unit {0})
unfolding super_write
xxfs_umount fuel = do dcache_flush_all fuel; flush_pages; super_write

-- `struct xxfs_fs_info`
pub record FsInfo : Type 0 where
  pub its_version : ℕ
  pub its_block_size : ℕ
  pub block_count : ℕ
  pub free_blocks : ℕ
  pub inodes_count : ℕ
  pub cow_generation : ℕ

unfoldable pub xxfs_info : Fs → FsInfo
xxfs_info fs =
    let sb = fs.inodes.ix.sb in
    record {
      its_version = get (word_at 4) fs.sb_bytes;
      its_block_size = get (word_at 8) fs.sb_bytes;
      block_count = sb.block_count;
      free_blocks = sb.free_blocks;
      inodes_count = sb.inodes_count;
      cow_generation = sb.cow_generation;
    }

unfoldable pub xxfs_count : Fs → ℕ
xxfs_count fs = fs.inodes.ix.sb.inodes_count
