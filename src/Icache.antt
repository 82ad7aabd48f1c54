-- ===== src/Icache.antt =====
-- lib/xxfs.c: the inode cache, an open table with linear probing: `icache_init`, `icache_lookup`,
-- `icache_put`, `icache_grow`, `icache_evict_one`, `icache_del`, `icache_invalidate` and
-- `icache_flush_all`. An inode is its bytes; the clock is the list of its coming readings.
pub mod Lookup
pub mod Put
use xxfs.Base.{
  ℕ, zero, suc, ◌+◌, ◌-◌, ◌*◌, ◌^◌, ◌%◌, Bool, true, false, not, ◌&&◌, Option, none, some, List, [],
  ◌∷◌, ◌==◌, leb, if◌then◌else◌, length, sub32, get_or, set, replicate, bit_and, u32,
}
use xxfs.Check.Inode.{inode_set_checksum_ecc}
use xxfs.Os.{Os, os_alloc}
use xxfs.Os.Image.{put_bytes}
use xxfs.Paged.Index.{Index}
use xxfs.Paged.Index.Put.{paged_put}
use xxfs.Paged.Page.{le}

-- `ICACHE_CAP_INIT`
abbrev pub cap_init : ℕ
cap_init = 16384

-- `ICACHE_MAX_ENTRIES`
abbrev pub max_entries : ℕ
max_entries = 131072

-- `struct icache_entry`
pub record CacheEntry : Type 0 where
  pub hash : ℕ
  pub ctrl : ℕ
  pub dirty : Bool
  pub klen : ℕ
  pub key : Option (List ℕ)
  pub inode : List ℕ

-- The fields `icache`, `icache_cap`, `icache_count`, `icache_mask` and `icache_tick`.
pub record Icache : Type 0 where
  pub table : List CacheEntry
  pub cap : ℕ
  pub count : ℕ
  pub mask : ℕ
  pub tick : ℕ

-- The parts of `struct xxfs` that the cache works on, and the clock.
pub record Inodes : Type 0 where
  pub ix : Index
  pub ic : Icache
  pub times : List ℕ

abbrev pub empty_entry : CacheEntry
empty_entry = record { hash = 0; ctrl = 0; dirty = false; klen = 0; key = none; inode = [] }

abbrev pub fresh_icache : ℕ → Icache
fresh_icache cap = record {
  table = replicate cap empty_entry;
  cap = cap;
  count = 0;
  mask = cap - 1;
  tick = 0;
}

-- `none` if there is no memory: C then goes on with a null table.
unfoldable pub icache_init : Os → Option Icache × Os
icache_init os =
    let (room, os') = os_alloc os in (if room then some (fresh_icache cap_init) else none, os')

abbrev pub entry_at : List CacheEntry → ℕ → CacheEntry
entry_at table i = get_or table i empty_entry

-- `(u8)((hash & 0x7F) | ICACHE_CTRL_VALID)`, whose two parts do not overlap.
abbrev pub ctrl_of : ℕ → ℕ
ctrl_of hash = hash % 2 ^ 7 + 2 ^ 7

-- `(idx + 1) & fs->icache_mask`
unfoldable pub next_index : ℕ → ℕ → ℕ
next_index mask idx = bit_and (u32 (idx + 1)) mask

unfoldable pub lookup_from : ℕ → List CacheEntry → ℕ → ℕ → ℕ → Option ℕ
unfolding next_index
lookup_from zero table mask idx hash = none
lookup_from (suc probes) table mask idx hash =
    let e = entry_at table idx in
    let rest = lookup_from probes table mask (next_index mask idx) hash in
    if e.ctrl == 0
    then none
    else if e.ctrl == ctrl_of hash && e.hash == hash
    then some idx
    else rest

-- The place of the entry; at most 16 places are looked at.
unfoldable pub icache_lookup : Icache → ℕ → Option ℕ
unfolding lookup_from
icache_lookup ic hash = lookup_from 16 ic.table ic.mask (u32 (bit_and hash ic.mask)) hash

-- The loop of `icache_grow` that finds a place for an entry in the new table.
unfoldable pub rehash_from : ℕ → List CacheEntry → ℕ → ℕ → CacheEntry → List CacheEntry
unfolding next_index
rehash_from zero table mask idx e = table
rehash_from (suc probes) table mask idx e =
    let rest = rehash_from probes table mask (next_index mask idx) e in
    if (entry_at table idx).ctrl == 0 then set table idx e else rest

unfoldable pub rehash_all : List CacheEntry → ℕ → List CacheEntry → List CacheEntry
unfolding rehash_from
rehash_all [] new_cap table = table
rehash_all (e ∷ old) new_cap table = rehash_all old new_cap (
    if e.ctrl == 0
    then table
    else rehash_from new_cap table (new_cap - 1) (u32 (bit_and e.hash (new_cap - 1))) e)

unfoldable pub icache_grow : Icache → Os → Icache × Os
unfolding rehash_all
icache_grow ic os =
    let new_cap = u32 (ic.cap * 2) in
    let (room, os') = os_alloc os in
    if room
    then (
      record ic {
        table = rehash_all ic.table new_cap (replicate new_cap empty_entry);
        cap = new_cap;
        mask = new_cap - 1;
      },
      os',
    )
    else (ic, os')

-- What `icache_put` does at a place that is free, and at one that has the hash.
abbrev pub filled : ℕ → ℕ → Option (List ℕ) → List ℕ → CacheEntry
filled hash klen key ino = record {
  hash = hash;
  ctrl = ctrl_of hash;
  dirty = true;
  klen = klen;
  key = key;
  inode = ino;
}

abbrev pub renewed : CacheEntry → List ℕ → CacheEntry
renewed e ino = record e { dirty = true; inode = ino }

-- The loop of `icache_put`: the table, and whether an entry is new. The key is `none` if there was
-- no memory for its copy.
unfoldable pub place_from :
    ℕ → List CacheEntry → ℕ → ℕ → ℕ → ℕ → Option (List ℕ) → List ℕ → List CacheEntry × Bool
unfolding next_index
place_from zero table mask idx hash klen key ino = (table, false)
place_from (suc probes) table mask idx hash klen key ino =
    let e = entry_at table idx in
    let rest = place_from probes table mask (next_index mask idx) hash klen key ino in
    if e.ctrl == 0
    then (set table idx (filled hash klen key ino), true)
    else if e.hash == hash
    then (set table idx (renewed e ino), false)
    else rest

-- The part of `icache_put` after it has made room. The memory for the key is asked for only if
-- the entry is new.
unfoldable pub icache_place : Icache → Os → ℕ → List ℕ → List ℕ → Icache × Os
unfolding place_from
icache_place ic os hash key ino =
    let (room, os') = os_alloc os in
    let copy = if room then some key else none in
    let (table, is_new) =
      place_from ic.cap ic.table ic.mask (u32 (bit_and hash ic.mask)) hash (length key) copy ino in
    (
      record ic { table = table; count = if is_new then u32 (ic.count + 1) else ic.count },
      if is_new then os' else os,
    )

-- `icache_del` and `icache_invalidate`, which do the same.
unfoldable pub icache_del : Icache → ℕ → Icache
unfolding icache_lookup
icache_del ic hash = elim (icache_lookup ic hash) [
  | none ↦ ic
  | some i ↦ record ic {
    table = set ic.table i (record (entry_at ic.table i) { ctrl = 0; dirty = false; key = none });
    count = sub32 ic.count 1;
  }
]

abbrev pub next_time : List ℕ → ℕ
next_time [] = 0
next_time (t ∷ ts) = t

abbrev pub later_times : List ℕ → List ℕ
later_times [] = []
later_times (t ∷ ts) = ts

-- `i_mtime` and `i_ctime` of the bytes of an inode.
abbrev pub stamped : List ℕ → ℕ → List ℕ
stamped ino now = put_bytes (put_bytes ino 40 (le 8 now)) 48 (le 8 now)

-- A dirty entry is stamped, summed and put into the index, whatever that returns. `none`: the fuel
-- was used up, or the entry has no key, which C does not expect.
unfoldable pub save : ℕ → Inodes → CacheEntry → Option (List ℕ × Inodes)
save fuel st e =
    let ino = inode_set_checksum_ecc (stamped e.inode (next_time st.times)) in
    elim (e.key) [
      | none ↦ none
      | some key ↦
          let (rc, ix) = paged_put fuel st.ix key ino in
          elim rc [
            | none ↦ none
            | some code ↦ some (ino, record st { ix = ix; times = later_times st.times })
          ]
    ]

-- The search of `icache_evict_one` for an entry to give up.
unfoldable pub evict_from : ℕ → ℕ → ℕ → Inodes → Option Inodes
unfolding save next_index
evict_from fuel zero idx st = some st
evict_from fuel (suc probes) idx st =
    let ic = st.ic in
    let e = entry_at ic.table idx in
    let freed = record e { ctrl = 0; dirty = false; key = none } in
    let gone = record ic { table = set ic.table idx freed; count = sub32 ic.count 1 } in
    elim (e.ctrl == 0) [
      | true ↦ evict_from fuel probes (next_index ic.mask idx) st
      | false ↦ elim (e.dirty) [
        | false ↦ some (record st { ic = gone })
        | true ↦ elim (save fuel st e) [
          | none ↦ none
          | some (ino, st') ↦ some (record st' {
            ic = record gone { table = set ic.table idx (record freed { inode = ino }) };
          })
        ]
      ]
    ]

unfoldable pub icache_evict_one : ℕ → Inodes → Option Inodes
unfolding evict_from
icache_evict_one fuel st = evict_from fuel st.ic.cap (u32 (bit_and st.ic.tick st.ic.mask)) st

-- The first part of `icache_put`: an entry is given up, or the table grows.
unfoldable pub make_room : ℕ → Inodes → Option Inodes
unfolding icache_evict_one icache_grow
make_room fuel st =
    if leb max_entries st.ic.count
    then icache_evict_one fuel st
    else if leb st.ic.cap (u32 (st.ic.count * 2))
    then (let (ic, os) = icache_grow st.ic st.ix.os in
        some (record st { ic = ic; ix = record (st.ix) { os = os } }))
    else some st

abbrev pub place_in : Inodes → ℕ → List ℕ → List ℕ → Inodes
place_in st hash key ino =
    let (ic, os) = icache_place st.ic st.ix.os hash key ino in
    record st { ic = ic; ix = record (st.ix) { os = os } }

unfoldable pub icache_put : ℕ → Inodes → ℕ → List ℕ → List ℕ → Option Inodes
unfolding make_room icache_place
icache_put fuel st hash key ino = elim (make_room fuel st) [
  | none ↦ none
  | some st1 ↦ some (place_in st1 hash key ino)
]

-- The loop of `icache_flush_all` from place `i` on.
unfoldable pub flush_inodes_from : ℕ → ℕ → ℕ → Inodes → Option Inodes
unfolding save
flush_inodes_from fuel zero i st = some st
flush_inodes_from fuel (suc left) i st =
    let e = entry_at st.ic.table i in
    elim (not (e.ctrl == 0) && (not (bit_and e.ctrl (2 ^ 7) == 0) && e.dirty)) [
      | false ↦ flush_inodes_from fuel left (i + 1) st
      | true ↦ elim (save fuel st e) [
        | none ↦ none
        | some (ino, st') ↦ flush_inodes_from fuel left (i + 1) (record st' {
          ic = record (st'.ic) {
            table = set st.ic.table i (record e { dirty = false; inode = ino });
          };
        })
      ]
    ]

unfoldable pub icache_flush_all : ℕ → Inodes → Option Inodes
unfolding flush_inodes_from
icache_flush_all fuel st = flush_inodes_from fuel st.ic.cap 0 st
