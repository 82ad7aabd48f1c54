-- ===== src/Icache/Lookup.antt =====
-- `icache_lookup` after `icache_put`.
use xxfs.Base.{
  ℕ, ◌-◌, ◌^◌, ◌≤◌, ◌<◌, ◌≡◌, ◌≢◌, refl, sym, ap, ◌∙◌, arith, Bool, true, Option, none, some, List,
  get_or-set_self, get_or-set_ne, set, length, bit_and, bit_and_bound, u32, if◌then◌else◌,
}
use xxfs.Icache.{CacheEntry, Icache, entry_at, empty_entry, icache_lookup, place_from, icache_place}
use xxfs.Icache.Put.{StopsWithin, IsTagged, place_from-Placed}
use xxfs.Os.{Os, os_alloc}

-- The table has 2 ^ k places, 16 at least, and its entries are tagged.
pub record IsCache (ic : Icache) (k : ℕ) : Type 0 where
  pub size : length ic.table ≡ 2 ^ k
  pub cap : ic.cap ≡ 2 ^ k
  pub mask : ic.mask ≡ 2 ^ k - 1
  pub wide : 16 ≤ ic.cap
  pub tagged : IsTagged ic.table

-- Where the search for a hash begins.
abbrev pub first_place : Icache → ℕ → ℕ
first_place ic hash = u32 (bit_and hash ic.mask)

module _ (ic : Icache) (k : ℕ) (os : Os) (hash : ℕ) (key ino : List ℕ) (is : IsCache ic k) where
  abbrev copy : Option (List ℕ)
  copy = if (os_alloc os).0 then some key else none

  abbrev result : List CacheEntry × Bool
  result = place_from ic.cap ic.table ic.mask (first_place ic hash) hash (length key) copy ino

  abbrev after : Icache
  after = (icache_place ic os hash key ino).0

  table_after : (after.table ≡ result.0) × (after.mask ≡ ic.mask)
  unfolding icache_place
  table_after = (refl, refl)

  masked : ic.mask < 2 ^ k
  masked = omega (arith, is.mask, is.cap, is.wide)

  -- In a table of 2 ^ k places, 16 at least, with the control byte of its hash on each entry in use:
  -- if one of the first 16 places is free or has the hash, then `icache_put`, once it has made room,
  -- stores the inode at a place where `icache_lookup` finds it, marked as changed, and leaves all
  -- other places as they were.
  pub icache_lookup-icache_place :
      StopsWithin 16 ic.table ic.mask (first_place ic hash) hash
      → (i : ℕ) × (icache_lookup after hash ≡ some i)
        × ((entry_at after.table i).inode ≡ ino)
        × ((entry_at after.table i).dirty ≡ true)
        × ((j : ℕ) → j ≢ i → entry_at after.table j ≡ entry_at ic.table j)
  unfolding icache_lookup
  icache_lookup-icache_place near =
      let inside : first_place ic hash < length ic.table =
        omega (arith, is.size, bit_and_bound k hash ic.mask masked) in
      let p =
        place_from-Placed ic.table ic.mask k hash (length key) copy ino is.size masked is.tagged 16
          ic.cap (first_place ic hash) inside is.wide near in
      let same : after.table ≡ set ic.table p.place p.entry = table_after.0 ∙ p.only in
      let self : entry_at after.table p.place ≡ p.entry =
        ap (λ t. entry_at t p.place) same
        ∙ get_or-set_self ic.table p.place p.entry empty_entry p.in_range in
      (
        p.place,
        rw (table_after.0, table_after.1) p.found,
        rw self p.inode,
        rw self p.dirty,
        λ j ne.
            ap (λ t. entry_at t j) same
            ∙ get_or-set_ne ic.table p.place j p.entry empty_entry (λ e. ne (sym e)),
      )
