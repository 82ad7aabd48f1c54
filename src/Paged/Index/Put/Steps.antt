-- ===== src/Paged/Index/Put/Steps.antt =====
-- One turn of `paged_insert`, at a full page and at one with room.
use xxfs.Base.{
  ℕ, suc, ◌+◌, ◌≤◌, ◌<◌, ◌≡◌, ◌≢◌, ap, ◌∙◌, arith, true, false, some, List, ◌==◌, ne→==, leb,
  length, update, if◌then◌else◌,
}
use xxfs.Paged.Cache.Coherent.{IsBlock}
use xxfs.Paged.Cache.Writeback.{page_writeback-view}
use xxfs.Paged.Dir.{entry, no_offset}
use xxfs.Paged.Hash.{dir_index}
use xxfs.Paged.Index.{Index, ok, done, pages_of, load, write_back, start_page}
use xxfs.Paged.Index.Get.Chain.{Shows, loaded, load-loaded}
use xxfs.Paged.Index.Put.{Turn, finish, go_on, full_page, insert_page, insert_chain}
use xxfs.Paged.Page.{Page, slots_per_page, inline_space}
use xxfs.Paged.Page.Codec.{IsPage}
use xxfs.Paged.Slots.{fits_inline, append_inline}

-- A page that is written back is the one that is shown.
pub write_back-Shows :
    (pages : ℕ → Page) (ix : Index) (pg : Page) (o : ℕ)
    → Shows pages ix
    → IsBlock o
    → IsPage pg
    → Shows (update pages o pg) (write_back ix pg o)
unfolding write_back
write_back-Shows pages ix pg o sh is fits =
    let (shown, coherent) = page_writeback-view (pages_of ix) pg o sh.coherent is fits in
    record {
      coherent = coherent;
      same =
          λ b at_block. shown b at_block ∙ ap (λ p. if o == b then pg else p) (sh.same b at_block);
    }

-- The directory has a page for the hash.
pub start_page_there :
    (ix : Index) (h : ℕ)
    → let off = entry ix.pdir (dir_index h ix.pdir.global_depth) in
      off ≢ no_offset → start_page ix h ≡ (done off, ix)
unfolding start_page
start_page_there ix h ne =
    let there = ne→== (entry ix.pdir (dir_index h ix.pdir.global_depth)) no_offset ne in
    rw (there, start_page)

module _ (ix : Index) (pg : Page) (cur h : ℕ) (key val : List ℕ) where
  insert_page_full :
      slots_per_page ≤ pg.count
      → pg.overflow_next ≢ 0
      → insert_page ix pg cur h key val ≡ (go_on pg.overflow_next, ix)
  unfolding insert_page full_page
  insert_page_full full more =
      let is_full : leb slots_per_page pg.count ≡ true = ground arith in
      let linked : (pg.overflow_next == 0) ≡ false = ne→== pg.overflow_next 0 more in
      rw (is_full, insert_page, linked, full_page)

  insert_page_free :
      pg.count < slots_per_page
      → pg.inline_used + length key + length val ≤ inline_space
      → insert_page ix pg cur h key val
        ≡ (finish ok, write_back ix (append_inline pg h key val) cur)
  unfolding insert_page
  insert_page_free free room =
      let not_full : leb slots_per_page pg.count ≡ false = ground arith in
      let fits : fits_inline pg key val ≡ true = unfold fits_inline in ground arith in
      rw (not_full, insert_page, fits)

module _ (pages : ℕ → Page) (fuel : ℕ) (ix : Index) (o h : ℕ) (key val : List ℕ)
    (sh : Shows pages ix) (ne : o ≢ 0) (is : IsBlock o) where
  abbrev next : Index
  next = loaded pages ix o sh is

  nonzero : (o == 0) ≡ false
  nonzero = ne→== o 0 ne

  page : (load ix o).0 ≡ some (pages o)
  page = ap (λ t. t.0) (load-loaded pages ix o sh is)

  state : (load ix o).1 ≡ next
  state = ap (λ t. t.1) (load-loaded pages ix o sh is)

  abbrev turn : Turn × Index
  turn = insert_page next (pages o) o h key val

  pub insert_chain_full :
      slots_per_page ≤ (pages o).count
      → (pages o).overflow_next ≢ 0
      → insert_chain (suc fuel) ix o h key val
        ≡ insert_chain fuel next (pages o).overflow_next h key val
  unfolding insert_chain
  insert_chain_full full more =
      let went = insert_page_full next (pages o) o h key val full more in
      let on : turn.0 ≡ go_on (pages o).overflow_next = ap (λ t. t.0) went in
      let same : turn.1 ≡ next = ap (λ t. t.1) went in
      rw (nonzero, insert_chain, page, state, on, same)

  pub insert_chain_free :
      (pages o).count < slots_per_page
      → (pages o).inline_used + length key + length val ≤ inline_space
      → insert_chain (suc fuel) ix o h key val
        ≡ (some ok, write_back next (append_inline (pages o) h key val) o)
  unfolding insert_chain
  insert_chain_free free room =
      let went = insert_page_free next (pages o) o h key val free room in
      let stop : turn.0 ≡ finish ok = ap (λ t. t.0) went in
      let then_state : turn.1 ≡ write_back next (append_inline (pages o) h key val) o =
        ap (λ t. t.1) went in
      rw (nonzero, insert_chain, page, state, stop, then_state)
