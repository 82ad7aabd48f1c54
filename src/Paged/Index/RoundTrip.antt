-- ===== src/Paged/Index/RoundTrip.antt =====
-- What is inserted is found.
use mathlib.Core.Path.{subst}
use xxfs.Base.{ℕ, ◌+◌, ◌<◌, ◌≡◌, ◌≢◌, refl, sym, ap, ◌∙◌, none, some, List, length}
use xxfs.Paged.Dir.{Dir, no_offset, entry}
use xxfs.Paged.Entries.{lookup, answer, IsChain, chain_entries}
use xxfs.Paged.Entries.Match.{bytes_eq_refl}
use xxfs.Paged.Hash.{xxh64, dir_index}
use xxfs.Paged.Index.{Index}
use xxfs.Paged.Index.Get.{paged_get}
use xxfs.Paged.Index.Get.Chain.{Shows, home, paged_get-lookup}
use xxfs.Paged.Index.Put.{paged_insert}
use xxfs.Paged.Index.Put.Room.{HasRoom}
use xxfs.Paged.Index.Put.Insert.{Inserted, paged_insert-Inserted}
use xxfs.Paged.Page.{Page}

module _ (pages : ℕ → Page) (ix : Index) (key val : List ℕ) (fuel : ℕ) (offs : List ℕ)
    (sh : Shows pages ix) (inside : dir_index (xxh64 key) ix.pdir.global_depth < ix.pdir.dir_size)
    (some_page : home ix key ≢ no_offset) (chain : IsChain pages (home ix key) offs)
    (room : HasRoom pages offs (length key + length val))
    (fresh : lookup (chain_entries pages offs) key ≡ none) (enough : length offs < fuel) where
  abbrev ix' : Index
  ix' = (paged_insert fuel ix key val).1

  inserted : Inserted pages (home ix key) offs key val ix (paged_insert fuel ix key val)
  inserted = paged_insert-Inserted pages ix key val fuel offs sh some_page chain room fresh enough

  abbrev home_in : Dir → ℕ
  home_in d = entry d (dir_index (xxh64 key) d.global_depth)

  same_home : home ix' key ≡ home ix key
  same_home = ap home_in inserted.same_dir

  found_key : lookup (chain_entries inserted.after offs) key ≡ some val
  found_key = inserted.found key ∙ rw (bytes_eq_refl key) refl

  -- Through a coherent cache and with no failing call, on a chain of pages whose entries are in the
  -- inline area, which does not have the key, whose first page that is not full has room for key and
  -- value, and for which the fuel is enough: after a `paged_insert`, `paged_get` of the key gives the
  -- inserted value, or the error for missing room if it is longer than the buffer.
  pub paged_get-paged_insert :
      (size : ℕ) → (paged_get fuel ix' key size).0 ≡ some (answer size (some val))
  paged_get-paged_insert size =
      let got =
        paged_get-lookup inserted.after ix' key size fuel offs inserted.shows
          (subst (λ d. dir_index (xxh64 key) d.global_depth < d.dir_size) (sym inserted.same_dir)
            inside)
          (λ e. some_page (sym same_home ∙ e))
          (subst (λ c. IsChain inserted.after c offs) (sym same_home) inserted.chain) enough in
      got.0 ∙ ap (λ o. some (answer size o)) found_key
