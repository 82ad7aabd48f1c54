-- ===== src/Paged/Cache/Evict.antt =====
-- The slot that a `page_load` takes over: emptying it changes no page.
use xxfs.Base.{
  ℕ, ◌≡◌, ◌≢◌, inl, inr, refl, sym, ap, ◌∙◌, arith, true, false, none, some, List, ◌==◌,
  if◌then◌else◌, update, Bool-cases, Option-cases, ==→eq, ==→ne, ==_refl,
}
use xxfs.Os.{Os, file_pwrite}
use xxfs.Paged.Cache.{Cached, Pages, cache_index, evict}
use xxfs.Paged.Cache.Coherent.{
  page_at, shown, SameView, SameView-slot, IsCoherent-slot, IsBlock, Backed, IsCoherent,
  quiet-written, page_at-written_self, page_at-written_ne,
}
use xxfs.Paged.Page.{Page, page_bytes}

abbrev dropped : Cached → Cached
dropped c = record { page_off = c.page_off; page = none; dirty = false }

shown-dropped : (image : List ℕ) (c : Cached) (b : ℕ) → shown image (dropped c) b ≡ page_at image b
unfolding shown
shown-dropped image c b = ground arith

module _ (st : Pages) (i : ℕ) (h : IsCoherent st) where
  -- The state with slot `i` emptied.
  abbrev pub emptied : Pages
  emptied =
      let r = evict st.os (st.pcache i) in record { os = r.0; pcache = update st.pcache i r.1 }

  abbrev slot : Cached
  slot = st.pcache i

  -- An empty slot stays as it is; a clean page is dropped; a dirty one is written first.
  evict_absent : slot.page ≡ none → evict st.os slot ≡ (st.os, slot)
  unfolding evict
  evict_absent e = rw (e, evict)

  module _ (pg : Page) (e : slot.page ≡ some pg) where
    abbrev flushed : Os
    flushed = (file_pwrite st.os (page_bytes pg) slot.page_off).1

    evict_clean : slot.dirty ≡ false → evict st.os slot ≡ (st.os, dropped slot)
    unfolding evict
    evict_clean d = rw (e, d, evict) (ground arith)

    evict_dirty : slot.dirty ≡ true → evict st.os slot ≡ (flushed, dropped slot)
    unfolding evict
    evict_dirty d = rw (e, d, evict)

    backing : Backed st.os.image i slot pg
    backing = h.backed i pg e

    shown_self :
        (b : ℕ)
        → shown st.os.image slot b ≡ (if slot.page_off == b then pg else page_at st.os.image b)
    unfolding shown
    shown_self b = ground arith

    clean-shown :
        slot.dirty ≡ false → (b : ℕ) → shown st.os.image (dropped slot) b ≡ shown st.os.image slot b
    clean-shown d b =
        ground (arith, shown-dropped st.os.image slot b, shown_self b, backing.clean d)

    flushed_ne :
        slot.dirty ≡ true
        → (b : ℕ) → IsBlock b
        → b ≢ slot.page_off
        → page_at flushed.image b ≡ page_at st.os.image b
    flushed_ne d b is ne =
        page_at-written_ne st.os pg slot.page_off h.quiet backing.block (backing.fits d) b is ne

    dirty-shown :
        slot.dirty ≡ true
        → (b : ℕ) → IsBlock b
        → shown flushed.image (dropped slot) b ≡ shown st.os.image slot b
    dirty-shown d b is =
        shown-dropped flushed.image slot b ∙ elim (Bool-cases (slot.page_off == b)) [
          | inl q ↦
              rw (shown_self b, q)
                (ap (page_at flushed.image) (sym (==→eq slot.page_off b q))
                  ∙ page_at-written_self st.os pg slot.page_off h.quiet backing.block
                      (backing.fits d))
          | inr n ↦ rw (shown_self b, n) (flushed_ne d b is (λ e. ==→ne slot.page_off b n (sym e)))
        ]

  -- The slot's page is not needed elsewhere.
  index_ne : (pg : Page) → slot.page ≡ some pg → (b : ℕ) → i ≢ cache_index b → b ≢ slot.page_off
  index_ne pg e b ne same = ne (sym (backing pg e).index ∙ ap cache_index (sym same))

  -- Emptying a slot shows the same pages.
  pub emptied-SameView : SameView st emptied
  emptied-SameView = elim (Option-cases slot.page) [
    | inl e ↦ rw (evict_absent e) (SameView-slot st st.os i slot (λ b is _. refl) (λ b is ne. refl))
    | inr (pg, e) ↦ elim (Bool-cases slot.dirty) [
      | inl d ↦ rw (evict_dirty pg e d) (
          SameView-slot st (flushed pg e) i (dropped slot) (λ b is _. dirty-shown pg e d b is)
            (λ b is ne. flushed_ne pg e d b is (index_ne pg e b ne)))
      | inr d ↦ rw (evict_clean pg e d) (
          SameView-slot st st.os i (dropped slot) (λ b is _. clean-shown pg e d b)
            (λ b is ne. refl))
    ]
  ]

  -- Emptying a slot keeps the cache coherent, and the slot is empty.
  pub emptied-IsCoherent : IsCoherent emptied × ((emptied.pcache i).page ≡ none)
  emptied-IsCoherent = elim (Option-cases slot.page) [
    | inl e ↦
        rw (evict_absent e, ==_refl i)
          (IsCoherent-slot st st.os i slot h h.quiet (h.backed i) (λ b is ne. refl), e)
    | inr (pg, e) ↦ elim (Bool-cases slot.dirty) [
      | inl d ↦
          rw (evict_dirty pg e d, ==_refl i)
            (
              IsCoherent-slot st (flushed pg e) i (dropped slot) h
                  (quiet-written st.os pg slot.page_off h.quiet (backing pg e).block
                    ((backing pg e).fits d))
                  (λ pg' no_page. absurd (cc no_page))
                  (λ b is ne. flushed_ne pg e d b is (index_ne pg e b ne)),
              refl,
            )
      | inr d ↦
          rw (evict_clean pg e d, ==_refl i)
            (
              IsCoherent-slot st st.os i (dropped slot) h h.quiet
                  (λ pg' no_page. absurd (cc no_page)) (λ b is ne. refl),
              refl,
            )
    ]
  ]
