-- ===== src/Examples/Chains.antt =====
-- lib/xxfs.c: the paged hash index with one page that holds one entry.
use xxfs.Base.{
  ℕ, ◌+◌, ◌^◌, ◌≤◌, ◌<◌, ◌≡◌, ◌≢◌, inr, refl, sym, ap, ◌∙◌, arith, none, some, List, [], ◌∷◌, ◌++◌,
}
use xxfs.Os.{os_alloc}
use xxfs.Paged.Cache.Coherent.{view}
use xxfs.Paged.Dir.{Dir, entry, no_offset, paged_dir_double}
use xxfs.Paged.Dir.Double.{IsDir, paged_dir_double-entry}
use xxfs.Paged.Entries.{
  IsEntries, slots_entries, page_entries, lookup, answer, IsChain, chain_entries,
}
use xxfs.Paged.Entries.Append.{append_inline-page_entries}
use xxfs.Paged.Hash.{xxh64, dir_index}
use xxfs.Paged.Hash.Range.{xxh64_bounds}
use xxfs.Paged.Index.{Index}
use xxfs.Paged.Index.Get.{paged_get}
use xxfs.Paged.Index.Get.Chain.{Shows, home, paged_get-lookup}
use xxfs.Paged.Index.Put.{paged_insert}
use xxfs.Paged.Index.Put.Insert.{Inserted, paged_insert-Inserted}
use xxfs.Paged.Index.Put.Room.{HasRoom}
use xxfs.Paged.Index.RoundTrip.{paged_get-paged_insert}
use xxfs.Paged.Page.{Page, empty_page}
use xxfs.Paged.Page.Codec.{empty_page-IsPage}
use xxfs.Paged.Slots.{append_inline}
use xxfs.Examples.OnePage.{one_page, one_page-IsCoherent, second-IsBlock, view-one_page}

abbrev pub old_key : List ℕ
old_key = b'/' ∷ b'a' ∷ []

abbrev new_key : List ℕ
new_key = b'/' ∷ b'b' ∷ []

abbrev pub old_val : List ℕ
old_val = 7 ∷ 8 ∷ []

abbrev new_val : List ℕ
new_val = 9 ∷ []

empty-IsEntries : IsEntries (empty_page 0)
unfolding empty_page
empty-IsEntries = record {
  page = empty_page-IsPage 0 (omega arith);
  count = omega arith;
  used = omega arith;
  all = tt;
}

abbrev pub filled : Page
filled = append_inline (empty_page 0) (xxh64 old_key) old_key old_val

filled_lem : (page_entries filled ≡ (old_key, old_val) ∷ []) × IsEntries filled
unfolding empty_page slots_entries
filled_lem =
    append_inline-page_entries (empty_page 0) old_key old_val empty-IsEntries (omega arith)
      (omega arith)

abbrev pub small : Index
small = record {
  sb = record {
    block_count = 10;
    free_blocks = 3;
    inodes_count = 64;
    free_inodes = 60;
    cow_generation = 1;
    data_off = 8192;
    pdir_off = 0;
    pdir_size = 1;
    pdir_depth = 0;
  };
  os = record { image = []; outcomes = [] };
  pcache = (one_page filled).pcache;
  pdir = record { page_off = 4096 ∷ []; dir_size = 1; global_depth = 0 };
}

abbrev pub pages : ℕ → Page
pages = view (one_page filled)

pub small-Shows : Shows pages small
small-Shows = record {
  coherent = one_page-IsCoherent filled (filled_lem.1.page);
  same = λ b _. refl;
}

index_0 : (h : ℕ) → dir_index h 0 ≡ 0
unfolding dir_index
index_0 h = refl

pub home_4096 : (key : List ℕ) → home small key ≡ 4096
home_4096 key = ap (entry (small.pdir)) (index_0 (xxh64 key))

last_page : filled.overflow_next ≡ 0
unfolding append_inline empty_page
last_page = refl

pub home-IsChain : (key : List ℕ) → IsChain pages (home small key) (4096 ∷ [])
home-IsChain key = (
  home_4096 key,
  omega arith,
  second-IsBlock,
  rw (view-one_page filled) (filled_lem.1),
  rw (view-one_page filled) last_page,
)

pub entries_4096 : chain_entries pages (4096 ∷ []) ≡ (old_key, old_val) ∷ []
unfolding chain_entries
entries_4096 =
    ap (λ p. page_entries p ++ []) (view-one_page filled) ∙ ap (λ es. es ++ []) (filled_lem.0)

inside_1 : (key : List ℕ) → dir_index (xxh64 key) 0 < 1
inside_1 key = omega (arith, index_0 (xxh64 key))

pub some_page : (key : List ℕ) → home small key ≢ no_offset
some_page key e = let bad : 4096 ≡ no_offset = sym (home_4096 key) ∙ e in omega arith

paged_get-lookup_example :
    ((paged_get 2 small old_key 16).0
      ≡ some (answer 16 (lookup (chain_entries pages (4096 ∷ [])) old_key)))
    × Shows pages (paged_get 2 small old_key 16).1
paged_get-lookup_example =
    paged_get-lookup pages small old_key 16 2 (4096 ∷ []) small-Shows (inside_1 old_key)
      (some_page old_key) (home-IsChain old_key) (omega arith)

pub filled_numbers : (filled.count ≡ 1) × (filled.inline_used ≡ 4)
unfolding append_inline empty_page
filled_numbers = (refl, refl)

pub room_4096 : (need : ℕ) → need ≤ 1000 → HasRoom pages (4096 ∷ []) need
room_4096 need h =
    rw (view-one_page filled)
      (inr (omega (arith, filled_numbers.0), omega (arith, filled_numbers.1, h), tt))

new_key_fresh : lookup (chain_entries pages (4096 ∷ [])) new_key ≡ none
new_key_fresh = ap (λ es. lookup es new_key) entries_4096 ∙ (unfold lookup in refl)

paged_insert-Inserted_example :
    Inserted pages
      (home small new_key)
      (4096 ∷ [])
      new_key
      new_val
      small
      (paged_insert 2 small new_key new_val)
paged_insert-Inserted_example =
    paged_insert-Inserted pages small new_key new_val 2 (4096 ∷ []) small-Shows (some_page new_key)
      (home-IsChain new_key) (room_4096 3 (omega arith)) new_key_fresh (omega arith)

paged_get-paged_insert_example :
    (paged_get 2 (paged_insert 2 small new_key new_val).1 new_key 16).0
    ≡ some (answer 16 (some new_val))
paged_get-paged_insert_example =
    paged_get-paged_insert pages small new_key new_val 2 (4096 ∷ []) small-Shows (inside_1 new_key)
      (some_page new_key) (home-IsChain new_key) (room_4096 3 (omega arith)) new_key_fresh
      (omega arith) 16

append_inline-page_entries_example :
    (page_entries filled ≡ page_entries (empty_page 0) ++ (old_key, old_val) ∷ [])
    × IsEntries filled
unfolding empty_page
append_inline-page_entries_example =
    append_inline-page_entries (empty_page 0) old_key old_val empty-IsEntries (omega arith)
      (omega arith)

xxh64_bounds_example : (2 ≤ xxh64 new_key) × (xxh64 new_key < 2 ^ 64)
xxh64_bounds_example = xxh64_bounds new_key

paged_dir_double-entry_example :
    (d' : Dir) × ((paged_dir_double (small.pdir) (small.os)).0 ≡ some d')
    × IsDir d'
    × (d'.global_depth ≡ 0 + 1)
    × ((h : ℕ) → entry d' (dir_index h d'.global_depth) ≡ entry (small.pdir) (dir_index h 0))
unfolding os_alloc
paged_dir_double-entry_example =
    paged_dir_double-entry (small.pdir) (small.os)
      (record { size = refl; entries = refl; depth = omega arith }) (omega arith) refl
