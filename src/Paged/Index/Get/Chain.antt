-- ===== src/Paged/Index/Get/Chain.antt =====
-- `paged_get` gives the value of the first entry with the key, along the whole chain.
use xxfs.Base.{
  ℕ, zero, suc, ◌<◌, ◌≡◌, ◌≢◌, inl, inr, refl, ap, ◌∙◌, arith, false, Option, none, some, List, [],
  ◌∷◌, ◌==◌, ne→==, leb, length, Option-cases,
}
use xxfs.Os.{Os}
use xxfs.Paged.Cache.{page_load}
use xxfs.Paged.Cache.Coherent.{view, IsBlock, IsCoherent}
use xxfs.Paged.Cache.Load.{page_load-Loads}
use xxfs.Paged.Dir.{entry, no_offset}
use xxfs.Paged.Entries.{page_entries, lookup, answer, IsChain, chain_entries}
use xxfs.Paged.Entries.Lookup.{lookup-append}
use xxfs.Paged.Hash.{xxh64, dir_index}
use xxfs.Paged.Index.{Index, Result, pages_of, with_pages, load}
use xxfs.Paged.Index.Get.{get_slots, get_chain, paged_get}
use xxfs.Paged.Index.Get.Slots.{reply, get_slots-lookup}
use xxfs.Paged.Page.{Page}
use xxfs.Paged.Slots.{live}

-- The state shows these pages, through a coherent cache.
pub record Shows (pages : ℕ → Page) (ix : Index) : Type 0 where
  pub coherent : IsCoherent (pages_of ix)
  pub same : (b : ℕ) → IsBlock b → view (pages_of ix) b ≡ pages b

module _ (pages : ℕ → Page) (ix : Index) (cur : ℕ) (sh : Shows pages ix) (is : IsBlock cur) where
  -- The state behind the load.
  abbrev pub loaded : Index
  loaded = with_pages ix (page_load (pages_of ix) cur).1

  pub load-loaded : load ix cur ≡ (some (pages cur), loaded)
  unfolding load
  load-loaded =
      let l = page_load-Loads (pages_of ix) cur sh.coherent is in
      ap (λ p. (p, loaded)) (l.gives ∙ ap some (sh.same cur is))

  pub loaded-Shows : Shows pages loaded
  loaded-Shows =
      let l = page_load-Loads (pages_of ix) cur sh.coherent is in
      record { coherent = l.coherent; same = λ b at_block. l.same b at_block ∙ sh.same b at_block }

-- The right answer, in a state that shows the same pages.
abbrev Answers : (ℕ → Page) → ℕ → Option (List ℕ) → Option (Result (List ℕ)) × Index → Type 0
Answers pages room found (got, ix) = (got ≡ some (answer room found)) × Shows pages ix

module _ (pages : ℕ → Page) (key : List ℕ) (room : ℕ) where
  -- One page.
  module _ (fuel : ℕ) (ix : Index) (o : ℕ) (sh : Shows pages ix) (ne : o ≢ 0) (is : IsBlock o) where
    abbrev next : Index
    next = loaded pages ix o sh is

    nonzero : (o == 0) ≡ false
    nonzero = ne→== o 0 ne

    page : (load ix o).0 ≡ some (pages o)
    page = ap (λ t. t.0) (load-loaded pages ix o sh is)

    state : (load ix o).1 ≡ next
    state = ap (λ t. t.1) (load-loaded pages ix o sh is)

    abbrev slots : Option (Result (List ℕ)) × Os
    slots = get_slots next.os (pages o) (live (pages o)) (xxh64 key) key room

    module _ (found : slots ≡ (reply room (lookup (page_entries (pages o)) key), next.os)) where
      quiet : slots.1 ≡ next.os
      quiet = ap (λ t. t.1) found

      get_chain-found :
          (v : List ℕ)
          → lookup (page_entries (pages o)) key ≡ some v
          → get_chain (suc fuel) ix o (xxh64 key) key room ≡ (some (answer room (some v)), next)
      unfolding get_chain
      get_chain-found v e =
          let hit : slots.0 ≡ reply room (some v) = ap (λ t. t.0) (rw e at found) in
          rw (nonzero, get_chain, page, state, hit, quiet)

      get_chain-next :
          lookup (page_entries (pages o)) key ≡ none
          → get_chain (suc fuel) ix o (xxh64 key) key room
            ≡ get_chain fuel next (pages o).overflow_next (xxh64 key) key room
      unfolding get_chain
      get_chain-next e =
          let miss : slots.0 ≡ none = ap (λ t. t.0) (rw e at found) in
          rw (nonzero, get_chain, page, state, miss, quiet)

  get_chain-Answers :
      (fuel : ℕ) (ix : Index) (cur : ℕ) (offs : List ℕ)
      → Shows pages ix
      → IsChain pages cur offs
      → length offs < fuel
      → Answers pages room
          (lookup (chain_entries pages offs) key)
          (get_chain fuel ix cur (xxh64 key) key room)
  unfolding get_chain chain_entries lookup
  get_chain-Answers zero ix cur offs sh chain enough = absurd (omega arith)
  get_chain-Answers (suc fuel) ix cur [] sh chain enough = rw chain (refl, sh)
  get_chain-Answers (suc fuel) ix cur (o ∷ offs) sh (at_o, ne, is, wf, chain) enough =
      let next = loaded pages ix o sh is in
      let found = get_slots-lookup next.os (pages o) (live (pages o)) key room wf.all in
      rw
        (at_o, chain_entries, lookup-append (page_entries (pages o)) (chain_entries pages offs) key)
        (elim (Option-cases (lookup (page_entries (pages o)) key)) [
          | inl e ↦
              rw (e, get_chain-next fuel ix o sh ne is found e)
                (get_chain-Answers fuel next (pages o).overflow_next offs
                  (loaded-Shows pages ix o sh is) chain (omega arith))
          | inr (v, e) ↦
              rw (e, get_chain-found fuel ix o sh ne is found v e)
                (refl, loaded-Shows pages ix o sh is)
        ])

-- The entry of the directory where the key belongs.
abbrev pub home : Index → List ℕ → ℕ
home ix key = entry ix.pdir (dir_index (xxh64 key) ix.pdir.global_depth)

-- Through a coherent cache and with no failing call, on a chain of pages whose entries are in the
-- inline area, `paged_get` gives the value of the first entry with the key, the error for a missing
-- entry if there is none, and the one for missing room if the value is longer than the buffer; fuel
-- for one page more than the chain has is enough, and every block shows the same page afterwards.
pub paged_get-lookup :
    (pages : ℕ → Page) (ix : Index) (key : List ℕ) (room fuel : ℕ) (offs : List ℕ)
    → Shows pages ix
    → dir_index (xxh64 key) ix.pdir.global_depth < ix.pdir.dir_size
    → home ix key ≢ no_offset
    → IsChain pages (home ix key) offs
    → length offs < fuel
    → let r = paged_get fuel ix key room in
      (r.0 ≡ some (answer room (lookup (chain_entries pages offs) key))) × Shows pages r.1
unfolding paged_get
paged_get-lookup pages ix key room fuel offs sh inside some_page chain enough =
    let i = dir_index (xxh64 key) ix.pdir.global_depth in
    let in_table : leb ix.pdir.dir_size i ≡ false = ground arith in
    let there : (home ix key == no_offset) ≡ false = ne→== (home ix key) no_offset some_page in
    rw (in_table, there, paged_get)
      (get_chain-Answers pages key room fuel ix (home ix key) offs sh chain enough)
