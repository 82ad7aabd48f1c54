-- ===== src/Icache/Put.antt =====
-- What `icache_put` stores, `icache_lookup` finds, if it is stored near enough.
use mathlib.Core.Path.{subst}
use xxfs.Base.{
  ℕ, zero, suc, ◌+◌, ◌^◌, ◌≤◌, ◌<◌, ◌≡◌, ◌≢◌, ◌⊎◌, inl, inr, refl, sym, ap, ◌∙◌, arith, Bool, true,
  false, ◌&&◌, ◌||◌, Option, some, List, ◌==◌, ==→eq, ==→ne, get_or-set_self, get_or-set_ne, set,
  length, Bool-cases, bit_and_bound, u32,
}
use xxfs.Icache.{
  CacheEntry, entry_at, empty_entry, ctrl_of, next_index, lookup_from, filled, renewed, place_from,
}

-- `icache_put` stops at this entry.
abbrev pub stops : CacheEntry → ℕ → Bool
stops e hash = e.ctrl == 0 || e.hash == hash

-- It stops at one of the next places, this many of them.
abbrev pub StopsWithin : ℕ → List CacheEntry → ℕ → ℕ → ℕ → Type 0
StopsWithin zero table mask idx hash = ⊥
StopsWithin (suc n) table mask idx hash =
    (stops (entry_at table idx) hash ≡ true) ⊎ StopsWithin n table mask (next_index mask idx) hash

-- An entry in use has the control byte of its hash.
abbrev pub IsTagged : List CacheEntry → Type 0
IsTagged table =
    (i : ℕ)
    → (entry_at table i).ctrl ≢ 0
    → (entry_at table i).ctrl ≡ ctrl_of (entry_at table i).hash

-- The table that comes out: one entry is set, where the search stops, and the lookup finds it.
pub record Placed (probes : ℕ) (table : List CacheEntry) (mask idx hash : ℕ) (ino : List ℕ)
    (table' : List CacheEntry) : Type 0 where
  pub place : ℕ
  pub entry : CacheEntry
  pub inode : entry.inode ≡ ino
  pub dirty : entry.dirty ≡ true
  pub tag : entry.ctrl ≡ ctrl_of hash
  pub its_hash : entry.hash ≡ hash
  pub stopped : stops (entry_at table place) hash ≡ true
  pub in_range : place < length table
  pub only : table' ≡ set table place entry
  pub found : lookup_from probes table' mask idx hash ≡ some place

pub lookup_here :
    (n : ℕ) (table : List CacheEntry) (mask idx hash : ℕ)
    → (entry_at table idx).ctrl ≡ ctrl_of hash
    → (entry_at table idx).hash ≡ hash
    → lookup_from (suc n) table mask idx hash ≡ some idx
unfolding lookup_from
lookup_here n table mask idx hash c h =
    let used : ((entry_at table idx).ctrl == 0) ≡ false = ground arith in
    let tag : ((entry_at table idx).ctrl == ctrl_of hash) ≡ true = ground arith in
    let own : ((entry_at table idx).hash == hash) ≡ true = ground arith in
    rw (used, lookup_from, tag, own)

lookup_on :
    (n : ℕ) (table : List CacheEntry) (mask idx hash : ℕ)
    → stops (entry_at table idx) hash ≡ false
    → lookup_from (suc n) table mask idx hash ≡ lookup_from n table mask (next_index mask idx) hash
unfolding lookup_from
lookup_on n table mask idx hash go =
    let used : ((entry_at table idx).ctrl == 0) ≡ false = ground arith in
    let other : ((entry_at table idx).ctrl == ctrl_of hash && (entry_at table idx).hash == hash)
        ≡ false =
      ground arith in
    rw (used, lookup_from, other)

module _ (table : List CacheEntry) (mask k hash klen : ℕ) (key : Option (List ℕ)) (ino : List ℕ)
    (size : length table ≡ 2 ^ k) (masked : mask < 2 ^ k) (tagged : IsTagged table) where
  abbrev placed : ℕ → ℕ → List CacheEntry
  placed left idx = (place_from left table mask idx hash klen key ino).0

  next-lt : (idx : ℕ) → next_index mask idx < length table
  unfolding next_index
  next-lt idx = omega (arith, size, bit_and_bound k (u32 (idx + 1)) mask masked)

  -- The search stops at once.
  module _ (n left idx : ℕ) (inside : idx < length table) where
    abbrev here : CacheEntry
    here = entry_at table idx

    Placed-here :
        (e : CacheEntry)
        → e.inode ≡ ino
        → e.dirty ≡ true
        → e.ctrl ≡ ctrl_of hash
        → e.hash ≡ hash
        → stops here hash ≡ true
        → placed (suc left) idx ≡ set table idx e
        → Placed (suc n) table mask idx hash ino (placed (suc left) idx)
    Placed-here e i d t h stop only =
        let self : entry_at (set table idx e) idx ≡ e =
          get_or-set_self table idx e empty_entry inside in
        record {
          place = idx;
          entry = e;
          inode = i;
          dirty = d;
          tag = t;
          its_hash = h;
          stopped = stop;
          in_range = inside;
          only = only;
          found =
              ap (λ s. lookup_from (suc n) s mask idx hash) only
              ∙ lookup_here n (set table idx e) mask idx hash (rw self t) (rw self h);
        }

    place_from_free :
        (here.ctrl == 0) ≡ true → placed (suc left) idx ≡ set table idx (filled hash klen key ino)
    unfolding place_from
    place_from_free free = ap (λ t. t.0) eq
      where
        eq :
            place_from (suc left) table mask idx hash klen key ino
            ≡ (set table idx (filled hash klen key ino), true)
        eq = rw (free, place_from)

    place_from_own :
        (here.ctrl == 0) ≡ false
        → (here.hash == hash) ≡ true
        → placed (suc left) idx ≡ set table idx (renewed here ino)
    unfolding place_from
    place_from_own used own = ap (λ t. t.0) eq
      where
        eq :
            place_from (suc left) table mask idx hash klen key ino
            ≡ (set table idx (renewed here ino), false)
        eq = rw (used, place_from, own)

    place_from_on :
        (here.ctrl == 0) ≡ false
        → (here.hash == hash) ≡ false
        → placed (suc left) idx ≡ placed left (next_index mask idx)
    unfolding place_from
    place_from_on used other = ap (λ t. t.0) eq
      where
        eq :
            place_from (suc left) table mask idx hash klen key ino
            ≡ place_from left table mask (next_index mask idx) hash klen key ino
        eq = rw (used, place_from, other)

    -- The search goes on, past an entry that the new one does not replace.
    Placed-later :
        stops here hash ≡ false
        → Placed n table mask (next_index mask idx) hash ino (placed left (next_index mask idx))
        → Placed (suc n) table mask idx hash ino (placed (suc left) idx)
    Placed-later go rest =
        let same = place_from_on (ground arith) (ground arith) in
        let apart : rest.place ≢ idx = λ e.
          let s : stops here hash ≡ true =
            subst (λ j. stops (entry_at table j) hash ≡ true) e rest.stopped in
          cc in
        let passed : entry_at (set table rest.place rest.entry) idx ≡ here =
          get_or-set_ne table rest.place idx rest.entry empty_entry apart in
        record {
          place = rest.place;
          entry = rest.entry;
          inode = rest.inode;
          dirty = rest.dirty;
          tag = rest.tag;
          its_hash = rest.its_hash;
          stopped = rest.stopped;
          in_range = rest.in_range;
          only = same ∙ rest.only;
          found =
              ap (λ s. lookup_from (suc n) s mask idx hash) (same ∙ rest.only)
              ∙ lookup_on n (set table rest.place rest.entry) mask idx hash (rw passed go)
              ∙ ap (λ s. lookup_from n s mask (next_index mask idx) hash) (sym rest.only)
              ∙ rest.found;
        }

  pub place_from-Placed :
      (n left idx : ℕ)
      → idx < length table
      → n ≤ left
      → StopsWithin n table mask idx hash
      → Placed n table mask idx hash ino (placed left idx)
  place_from-Placed zero left idx inside enough near = absurd near
  place_from-Placed (suc n) zero idx inside enough near = absurd (omega arith)
  place_from-Placed (suc n) (suc left) idx inside enough near =
      let e = entry_at table idx in
      elim (Bool-cases (stops e hash)) [
        | inr go ↦
            let further : StopsWithin n table mask (next_index mask idx) hash = elim near [
              | inl stop ↦ absurd (cc)
              | inr later ↦ later
            ] in
            Placed-later n left idx inside go
              (place_from-Placed n left (next_index mask idx) (next-lt idx) (omega arith) further)
        | inl stop ↦ elim (Bool-cases (e.ctrl == 0)) [
          | inl free ↦
              Placed-here n left idx inside (filled hash klen key ino) refl refl refl refl stop
                (place_from_free n left idx inside free)
          | inr used ↦
              let own : (e.hash == hash) ≡ true = ground arith in
              let same : e.hash ≡ hash = ==→eq e.hash hash own in
              Placed-here n left idx inside (renewed e ino) refl refl
                (tagged idx (==→ne e.ctrl 0 used) ∙ ap ctrl_of same) same stop
                (place_from_own n left idx inside used own)
        ]
      ]

-- Where `icache_lookup` finds an entry, `icache_put` stops near enough.
pub lookup_from-StopsWithin :
    (n : ℕ) (table : List CacheEntry) (mask idx hash i : ℕ)
    → lookup_from n table mask idx hash ≡ some i
    → StopsWithin n table mask idx hash
unfolding lookup_from
lookup_from-StopsWithin zero table mask idx hash i h = absurd (cc h)
lookup_from-StopsWithin (suc n) table mask idx hash i h =
    elim (Bool-cases (stops (entry_at table idx) hash)) [
      | inl e ↦ inl e
      | inr e ↦ inr (
          lookup_from-StopsWithin n table mask (next_index mask idx) hash i
            (sym (lookup_on n table mask idx hash e) ∙ h))
    ]
