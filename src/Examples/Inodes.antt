-- ===== src/Examples/Inodes.antt =====
-- lib/xxfs.c: the inode cache, small and empty.
use xxfs.Base.{ℕ, zero, suc, ◌≡◌, ◌≢◌, inl, refl, ap, arith, true, some, List, [], ◌∷◌, replicate}
use xxfs.Icache.{Icache, entry_at, empty_entry, fresh_icache, icache_lookup, icache_place}
use xxfs.Icache.Lookup.{IsCache, icache_lookup-icache_place}
use xxfs.Os.{Os}

abbrev calm : Os
calm = record { image = []; outcomes = [] }

abbrev name : List ℕ
name = b'/' ∷ b'a' ∷ []

abbrev bytes : List ℕ
bytes = 1 ∷ 2 ∷ 3 ∷ []

abbrev small_cache : Icache
small_cache = fresh_icache 16

entry_at-replicate : (n i : ℕ) → entry_at (replicate n empty_entry) i ≡ empty_entry
entry_at-replicate zero i = refl
entry_at-replicate (suc n) zero = refl
entry_at-replicate (suc n) (suc i) = entry_at-replicate n i

small_cache-IsCache : IsCache small_cache 4
small_cache-IsCache = record {
  size = refl;
  cap = refl;
  mask = refl;
  wide = omega arith;
  tagged = λ i used. absurd (used (ap (λ e. e.ctrl) (entry_at-replicate 16 i)));
}

icache_lookup-icache_place_example :
    let after = (icache_place small_cache calm 12345 name bytes).0 in
    (i : ℕ) × (icache_lookup after 12345 ≡ some i)
    × ((entry_at after.table i).inode ≡ bytes)
    × ((entry_at after.table i).dirty ≡ true)
    × ((j : ℕ) → j ≢ i → entry_at after.table j ≡ entry_at small_cache.table j)
icache_lookup-icache_place_example =
    icache_lookup-icache_place small_cache 4 calm 12345 name bytes small_cache-IsCache (inl refl)
