-- ===== src/Paged/Index/Put/Insert.antt =====
-- `paged_insert` adds an entry to the chain of its key.
use mathlib.Core.Path.{subst}
use xxfs.Base.{
  ℕ, zero, suc, ◌+◌, ◌≤◌, ◌<◌, ◌≡◌, ◌≢◌, inl, inr, refl, sym, ap, ap₂, ◌∙◌, arith, Option, none,
  some, List, [], ◌∷◌, ◌++◌, length, if◌then◌else◌,
}
use xxfs.Paged.Cache.Coherent.{IsBlock}
use xxfs.Paged.Dir.{no_offset}
use xxfs.Paged.Entries.{IsEntries, page_entries, lookup, IsChain, chain_entries}
use xxfs.Paged.Entries.Append.{append_inline-page_entries}
use xxfs.Paged.Entries.Lookup.{lookup-append_none, lookup-insert, lookup-behind}
use xxfs.Paged.Hash.{xxh64}
use xxfs.Paged.Index.{Index, Rc, ok, write_back}
use xxfs.Paged.Index.Get.Chain.{Shows, loaded, loaded-Shows, home}
use xxfs.Paged.Index.Put.{insert_chain, paged_insert}
use xxfs.Paged.Index.Put.Room.{
  Apart, HasRoom, changed, changed_ne, changed_self, IsChain-changed, chain_entries-changed,
}
use xxfs.Paged.Index.Put.Steps.{
  write_back-Shows, start_page_there, insert_chain_full, insert_chain_free,
}
use xxfs.Paged.Page.{Page, slots_per_page, inline_space}
use xxfs.Paged.Slots.{bytes_eq, append_inline}

-- The outcome: the state shows pages of which one has the entry behind its others; they are still
-- the chain, in which the key now has the value, and every other key what it had.
pub record Inserted (pages : ℕ → Page) (cur : ℕ) (offs : List ℕ) (key val : List ℕ) (ix : Index)
    (r : Option Rc × Index) : Type 0 where
  pub target : ℕ
  pub after : ℕ → Page
  pub one_page : after ≡ changed pages target (append_inline (pages target) (xxh64 key) key val)
  pub free : (pages target).count < slots_per_page
  pub returns : r.0 ≡ some ok
  pub shows : Shows after r.1
  pub same_dir : r.1.pdir ≡ ix.pdir
  pub chain : IsChain after cur offs
  pub found :
      (k : List ℕ)
      → lookup (chain_entries after offs) k
        ≡ (if bytes_eq key k then some val else lookup (chain_entries pages offs) k)

module _ (pages : ℕ → Page) (key val : List ℕ) where
  abbrev need : ℕ
  need = length key + length val

  -- The entry goes to the first page.
  module _ (fuel : ℕ) (ix : Index) (o : ℕ) (offs : List ℕ) (sh : Shows pages ix) (nz : o ≢ 0)
      (is : IsBlock o) (wf : IsEntries (pages o))
      (chain : IsChain pages (pages o).overflow_next offs) where
    abbrev more : Page
    more = append_inline (pages o) (xxh64 key) key val

    more_next : more.overflow_next ≡ (pages o).overflow_next
    more_next = unfold append_inline in refl

    abbrev r : Option Rc × Index
    r = insert_chain (suc fuel) ix o (xxh64 key) key val

    module _ (free : (pages o).count < slots_per_page)
        (room : (pages o).inline_used + need ≤ inline_space) (apart : Apart o offs) where
      appended : (page_entries more ≡ page_entries (pages o) ++ (key, val) ∷ []) × IsEntries more
      appended = append_inline-page_entries (pages o) key val wf free (omega arith)

      went : r ≡ (some ok, write_back (loaded pages ix o sh is) more o)
      went = insert_chain_free pages fuel ix o (xxh64 key) key val sh nz is free (omega arith)

      first-IsChain : IsChain (changed pages o more) o (o ∷ offs)
      first-IsChain =
          let self = changed_self pages o more in
          (
            refl,
            nz,
            is,
            rw self (appended.1),
            rw (self, more_next)
                (IsChain-changed pages o more (pages o).overflow_next offs apart chain),
          )

      first_found :
          lookup (chain_entries pages (o ∷ offs)) key ≡ none
          → (k : List ℕ)
          → lookup (chain_entries (changed pages o more) (o ∷ offs)) k
            ≡ (if bytes_eq key k then some val else lookup (chain_entries pages (o ∷ offs)) k)
      unfolding chain_entries
      first_found fresh k =
          let (mine, _) =
            lookup-append_none (page_entries (pages o)) (chain_entries pages offs) key fresh in
          ap (λ es. lookup es k)
            (ap₂ ◌++◌ (ap page_entries (changed_self pages o more) ∙ appended.0)
              (chain_entries-changed pages o more offs apart))
          ∙ lookup-insert (page_entries (pages o)) (chain_entries pages offs) key val k mine

      insert_first :
          lookup (chain_entries pages (o ∷ offs)) key ≡ none
          → Inserted pages o (o ∷ offs) key val ix r
      insert_first fresh = record {
        target = o;
        after = changed pages o more;
        one_page = refl;
        free = free;
        returns = ap (λ t. t.0) went;
        shows = rw went (
            write_back-Shows pages (loaded pages ix o sh is) more o (loaded-Shows pages ix o sh is)
              is appended.1.page);
        same_dir = rw went (unfold write_back in refl);
        chain = first-IsChain;
        found = first_found fresh;
      }

  -- The first page is full: the entry goes behind it, and it stays as it is.
  module _ (o : ℕ) (offs : List ℕ) (full : slots_per_page ≤ (pages o).count) (ix next : Index)
      (r : Option Rc × Index) (same : next.pdir ≡ ix.pdir) (nz : o ≢ 0) (is : IsBlock o)
      (wf : IsEntries (pages o))
      (rest : Inserted pages (pages o).overflow_next offs key val next r) where
    untouched : rest.after o ≡ pages o
    untouched =
        ap (λ f. f o) rest.one_page
        ∙ changed_ne pages rest.target (append_inline (pages rest.target) (xxh64 key) key val) o
            (λ e.
              let f : (pages o).count < slots_per_page =
                subst (λ t. (pages t).count < slots_per_page) e rest.free in
              absurd (omega arith))

    insert_later :
        lookup (page_entries (pages o)) key ≡ none → Inserted pages o (o ∷ offs) key val ix r
    insert_later fresh = record {
      target = rest.target;
      after = rest.after;
      one_page = rest.one_page;
      free = rest.free;
      returns = rest.returns;
      shows = rest.shows;
      same_dir = rest.same_dir ∙ same;
      chain = (refl, nz, is, rw untouched wf, rw untouched rest.chain);
      found = λ k.
          unfold chain_entries in
          ap (λ p. lookup (page_entries p ++ chain_entries rest.after offs) k) untouched
          ∙ lookup-behind (page_entries (pages o)) (chain_entries rest.after offs)
              (chain_entries pages offs) key val k fresh (rest.found k);
    }

  -- A chain with room has a page, and so a link that leads to it.
  linked : (cur : ℕ) (offs : List ℕ) → HasRoom pages offs need → IsChain pages cur offs → cur ≢ 0
  linked cur [] room chain = absurd room
  linked cur (o ∷ offs) room (at_o, nz, is, wf, chain) = λ e. nz (sym at_o ∙ e)

  insert_chain-Inserted :
      (fuel : ℕ) (ix : Index) (cur : ℕ) (offs : List ℕ)
      → Shows pages ix
      → IsChain pages cur offs
      → HasRoom pages offs need
      → lookup (chain_entries pages offs) key ≡ none
      → length offs < fuel
      → Inserted pages cur offs key val ix (insert_chain fuel ix cur (xxh64 key) key val)
  insert_chain-Inserted zero ix cur offs sh chain room fresh enough = absurd (omega arith)
  insert_chain-Inserted (suc fuel) ix cur [] sh chain room fresh enough = absurd room
  insert_chain-Inserted (suc fuel) ix cur (o ∷ offs) sh (at_o, nz, is, wf, chain)
        (inr (free, room, apart)) fresh enough =
      subst
        (λ c.
          Inserted pages c (o ∷ offs) key val ix (insert_chain (suc fuel) ix c (xxh64 key) key val))
        (sym at_o) (insert_first fuel ix o offs sh nz is wf chain free room apart fresh)
  insert_chain-Inserted (suc fuel) ix cur (o ∷ offs) sh (at_o, nz, is, wf, chain) (inl (full, room))
        fresh enough =
      let next = loaded pages ix o sh is in
      let more = linked (pages o).overflow_next offs room chain in
      let (mine, later) =
        lookup-append_none (page_entries (pages o)) (chain_entries pages offs) key
          (unfold chain_entries in fresh) in
      let rest =
        insert_chain-Inserted fuel next (pages o).overflow_next offs (loaded-Shows pages ix o sh is)
          chain room later (omega arith) in
      rw (at_o, insert_chain_full pages fuel ix o (xxh64 key) key val sh nz is full more)
        (insert_later o offs full ix next
          (insert_chain fuel next (pages o).overflow_next (xxh64 key) key val) refl nz is wf rest
          mine)

-- Through a coherent cache and with no failing call, on a chain of pages whose entries are in the
-- inline area, and with fuel for one page more than it has: a `paged_insert` of a key that the
-- chain does not have, when its first page that is not full has room for key and value, returns no
-- error, and then the chain gives the value for the key, and for each other key what it gave before.
pub paged_insert-Inserted :
    (pages : ℕ → Page) (ix : Index) (key val : List ℕ) (fuel : ℕ) (offs : List ℕ)
    → Shows pages ix
    → home ix key ≢ no_offset
    → IsChain pages (home ix key) offs
    → HasRoom pages offs (length key + length val)
    → lookup (chain_entries pages offs) key ≡ none
    → length offs < fuel
    → Inserted pages (home ix key) offs key val ix (paged_insert fuel ix key val)
unfolding paged_insert
paged_insert-Inserted pages ix key val fuel offs sh some_page chain room fresh enough =
    let begun = start_page_there ix (xxh64 key) some_page in
    rw (ap (λ t. t.0) begun, ap (λ t. t.1) begun, paged_insert)
      (insert_chain-Inserted pages key val fuel ix (home ix key) offs sh chain room fresh enough)
