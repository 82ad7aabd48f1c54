-- ===== src/Examples/Files.antt =====
-- lib/xxfs.c: reads and writes of a file whose inode is in the cache.
use xxfs.Base.{
  ℕ, zero, suc, ◌+◌, ◌^◌, ◌≤◌, ◌<◌, ◌≡◌, ◌≢◌, ◌⊎◌, refl, ap, arith, false, some, List, [], ◌∷◌,
  replicate, bit_and, bit_and_bound, u32,
}
use xxfs.Examples.OnePage.{no_page}
use xxfs.Fs.{Fs, DirEntry}
use xxfs.Fs.Data.{xxfs_write, xxfs_read}
use xxfs.Fs.Data.Extent.{xxfs_read-xxfs_write_extent}
use xxfs.Fs.Data.RoundTrip.{xxfs_read-xxfs_write_inline}
use xxfs.Fs.Field.{Field, get, put_all, value_in, get-put_all}
use xxfs.Fs.Inode.{
  i_file_type, i_size, i_blocks, i_extent_off, inline_off, ft_reg, ft_dir, zero_inode,
}
use xxfs.Fs.Keep.{IsRoomy, shown_inode}
use xxfs.Fs.Names.{is_root}
use xxfs.Icache.{CacheEntry, Icache, entry_at, ctrl_of, icache_lookup}
use xxfs.Icache.Put.{lookup_here}
use xxfs.Os.Image.{slice}
use xxfs.Paged.Hash.{xxh64}
use xxfs.Paged.Index.{Index, ok, done}
use xxfs.PathName.{path_normalize}

abbrev pub path : List ℕ
path = b'/' ∷ b'a' ∷ []

abbrev pub no_dir : DirEntry
no_dir = record { path = []; children = []; child_cap = 0; dirty = false; valid = false }

abbrev pub small_index : List ℕ → Index
small_index image = record {
  sb = record {
    block_count = 10;
    free_blocks = 3;
    inodes_count = 64;
    free_inodes = 60;
    cow_generation = 1;
    data_off = 8192;
    pdir_off = 4096;
    pdir_size = 1;
    pdir_depth = 0;
  };
  os = record { image = image; outcomes = [] };
  pcache = λ _. no_page;
  pdir = record { page_off = 8192 ∷ []; dir_size = 1; global_depth = 0 };
}

-- The inode of the path, at each place of a small cache.
abbrev its_entry : List ℕ → CacheEntry
its_entry ino = record {
  hash = xxh64 (path_normalize path);
  ctrl = ctrl_of (xxh64 (path_normalize path));
  dirty = false;
  klen = 2;
  key = some path;
  inode = ino;
}

abbrev cache_of : CacheEntry → Icache
cache_of e = record { table = replicate 16 e; cap = 16; count = 1; mask = 15; tick = 0 }

abbrev fs_of : List ℕ → Fs
fs_of ino = record {
  inodes = record { ix = small_index []; ic = cache_of (its_entry ino); times = [] };
  dcache = λ _. no_dir;
  flags = 0;
  cow_gen = 1;
  sb_bytes = [];
}

pub entry_at-replicate : (n i : ℕ) (e : CacheEntry) → i < n → entry_at (replicate n e) i ≡ e
entry_at-replicate zero i e h = absurd (omega arith)
entry_at-replicate (suc n) zero e h = refl
entry_at-replicate (suc n) (suc i) e h = entry_at-replicate n i e (omega arith)

pub tagged_replicate :
    (n : ℕ) (e : CacheEntry) (i : ℕ)
    → e.ctrl ≡ ctrl_of e.hash
    → (entry_at (replicate n e) i).ctrl ≢ 0
    → (entry_at (replicate n e) i).ctrl ≡ ctrl_of (entry_at (replicate n e) i).hash
tagged_replicate zero e i h used = absurd (used refl)
tagged_replicate (suc n) e zero h used = h
tagged_replicate (suc n) e (suc i) h used = tagged_replicate n e i h used

module _ (ino : List ℕ) where
  at_place :
      entry_at (replicate 16 (its_entry ino)) (u32 (bit_and (xxh64 (path_normalize path)) 15))
      ≡ its_entry ino
  at_place =
      entry_at-replicate 16 (u32 (bit_and (xxh64 (path_normalize path)) 15)) (its_entry ino)
        (omega (arith, bit_and_bound 4 (xxh64 (path_normalize path)) 15 (omega arith)))

  shown : shown_inode (fs_of ino) (path_normalize path) ≡ some ino
  unfolding icache_lookup
  shown =
      rw
        (
          lookup_here 15 (replicate 16 (its_entry ino)) 15
              (u32 (bit_and (xxh64 (path_normalize path)) 15)) (xxh64 (path_normalize path))
              (ap (λ e. e.ctrl) at_place) (ap (λ e. e.hash) at_place),
          at_place,
        )
        refl

  roomy : IsRoomy (fs_of ino) 4
  roomy = record {
    is_cache = record {
      size = refl;
      cap = refl;
      mask = refl;
      wide = omega arith;
      tagged = λ i used. tagged_replicate 16 (its_entry ino) i refl used;
    };
    below_max = refl;
    no_growth = refl;
  }

abbrev short_fields : List (Field × ℕ)
short_fields = (i_file_type, ft_reg) ∷ (i_size, 5) ∷ (i_blocks, 0) ∷ []

abbrev short_file : List ℕ
short_file = put_all short_fields zero_inode

short_field :
    (f : Field) (v : ℕ)
    → value_in short_fields f ≡ some v
    → v < 256 ^ f.width
    → get f short_file ≡ v
short_field f v has bound = get-put_all short_fields zero_inode f v has bound

short-regular : get i_file_type short_file ≢ ft_dir
short-regular e = absurd (omega (arith, e, short_field i_file_type ft_reg refl (omega arith)))

abbrev three : List ℕ
three = 7 ∷ 8 ∷ 9 ∷ []

xxfs_read-xxfs_write_inline_example :
    (fs' : Fs) × (xxfs_write 2 path three 1 (fs_of short_file) ≡ some (ok, fs'))
    × (xxfs_read 2 path 1 3 fs' ≡ some (done three, fs'))
    × ((b n : ℕ)
        → 0 < n
        → b + n ≤ get i_size short_file
        → (b + n ≤ 1) ⊎ (4 ≤ b)
        → xxfs_read 2 path b n fs' ≡ some (done (slice short_file (inline_off + b) n), fs'))
xxfs_read-xxfs_write_inline_example =
    xxfs_read-xxfs_write_inline (fs_of short_file) 4 2 path short_file three 1 (roomy short_file)
      (shown short_file) short-regular (omega arith) (omega arith)
      (omega (arith, short_field i_size 5 refl (omega arith)))
      (short_field i_blocks 0 refl (omega arith))

abbrev long_fields : List (Field × ℕ)
long_fields = (i_file_type, ft_reg) ∷ (i_size, 200) ∷ (i_blocks, 2) ∷ (i_extent_off, 8192) ∷ []

abbrev long_file : List ℕ
long_file = put_all long_fields zero_inode

long_field :
    (f : Field) (v : ℕ) → value_in long_fields f ≡ some v → v < 256 ^ f.width → get f long_file ≡ v
long_field f v has bound = get-put_all long_fields zero_inode f v has bound

xxfs_read-xxfs_write_extent_example :
    (fs' : Fs) × (xxfs_write 2 path three 130 (fs_of long_file) ≡ some (ok, fs'))
    × (xxfs_read 2 path 130 3 fs' ≡ some (done three, fs'))
    × ((b n : ℕ)
        → 0 < n
        → b + n ≤ get i_size long_file
        → (b + n ≤ 130) ⊎ (133 ≤ b)
        → xxfs_read 2 path b n fs' ≡ some (done (slice [] (get i_extent_off long_file + b) n), fs'))
xxfs_read-xxfs_write_extent_example =
    let off = long_field i_extent_off 8192 refl (omega arith) in
    let blocks = long_field i_blocks 2 refl (omega arith) in
    let size = long_field i_size 200 refl (omega arith) in
    let type = long_field i_file_type ft_reg refl (omega arith) in
    xxfs_read-xxfs_write_extent (fs_of long_file) 4 2 path long_file three 130 (roomy long_file)
      (shown long_file) (λ e. absurd (omega (arith, e, type))) (omega arith) (omega arith)
      (omega (arith, blocks)) (omega (arith, blocks)) (λ e. absurd (omega (arith, e, off)))
      (omega (arith, off, size)) refl

not_root : is_root (path_normalize path) ≡ false
unfolding path_normalize
not_root = refl
