-- ===== src/Paged/Cache/Writeback.antt =====
-- `page_writeback` replaces one page.
use mathlib.Core.Option.{some-injective}
use mathlib.Core.Path.{subst}
use xxfs.Base.{
  ℕ, ◌≡◌, ◌≢◌, inl, inr, refl, sym, ap, ◌∙◌, arith, true, false, none, some, ◌==◌, if◌then◌else◌,
  update, Bool-cases, Option-cases, ==→eq, ==→ne, ==_refl, ne→==,
}
use xxfs.Os.{Os}
use xxfs.Paged.Cache.{Cached, Pages, cache_index, hit, page_writeback}
use xxfs.Paged.Cache.Coherent.{
  page_at, shown, view, IsCoherent-slot, IsBlock, IsCoherent, written, quiet-written,
  page_at-written_self, page_at-written_ne, shown-miss, shown_image,
}
use xxfs.Paged.Page.{Page}
use xxfs.Paged.Page.Codec.{IsPage}

module _ (st : Pages) (pg : Page) (off : ℕ) (h : IsCoherent st) (is : IsBlock off)
    (fits : IsPage pg) where
  abbrev i : ℕ
  i = cache_index off

  abbrev kept : Cached
  kept = record { page_off = off; page = some pg; dirty = true }

  -- The page is in its slot: it is replaced there.
  module _ (old : Page) (e : hit (st.pcache i) off ≡ some old) where
    writeback_hit : page_writeback st pg off ≡ record st { pcache = update st.pcache i kept }
    unfolding page_writeback
    writeback_hit = rw (e, page_writeback)

    shown-kept :
        (b : ℕ)
        → shown st.os.image kept b ≡ (if off == b then pg else shown st.os.image (st.pcache i) b)
    unfolding shown
    shown-kept b = ground arith

    view_hit :
        (b : ℕ)
        → view (record st { pcache = update st.pcache i kept }) b
          ≡ (if off == b then pg else view st b)
    unfolding view
    view_hit b = elim (Bool-cases (i == cache_index b)) [
      | inl q ↦
          rw (q, view)
            (shown-kept b
              ∙ ap (λ k. if off == b then pg else shown st.os.image (st.pcache k) b)
                  (==→eq i (cache_index b) q))
      | inr n ↦
          let apart : off == b ≡ false =
            ne→== off b (λ same. ==→ne i (cache_index b) n (ap cache_index same)) in
          rw (n, view, apart)
    ]

    IsCoherent-hit : IsCoherent (record st { pcache = update st.pcache i kept })
    IsCoherent-hit =
        IsCoherent-slot st st.os i kept h h.quiet
          (λ pg' same. record {
            index = refl;
            block = is;
            clean = λ d. absurd (cc d);
            fits = λ _. subst IsPage (some-injective pg pg' same) fits;
          })
          (λ _ _ _. refl)

  -- It is not: it is written to the image.
  module _ (e : hit (st.pcache i) off ≡ none) where
    abbrev os' : Os
    os' = written st.os pg off h.quiet is fits

    writeback_miss : page_writeback st pg off ≡ record st { os = os' }
    unfolding page_writeback
    writeback_miss = rw (e, page_writeback)

    written_ne : (b : ℕ) → IsBlock b → off ≢ b → page_at os'.image b ≡ page_at st.os.image b
    written_ne b at_block ne =
        page_at-written_ne st.os pg off h.quiet is fits b at_block (λ same. ne (sym same))

    view_miss :
        (b : ℕ) → IsBlock b → view (record st { os = os' }) b ≡ (if off == b then pg else view st b)
    unfolding view
    view_miss b at_block = elim (Bool-cases (off == b)) [
      | inl q ↦ rw q (
          subst (λ k. view (record st { os = os' }) k ≡ pg) (==→eq off b q)
            (shown-miss os'.image (st.pcache i) off e
              ∙ page_at-written_self st.os pg off h.quiet is fits))
      | inr n ↦ rw n (
          shown_image st.os.image os'.image b (st.pcache (cache_index b))
            (written_ne b at_block (==→ne off b n)))
    ]

    -- No slot holds the page that is written.
    absent : (j : ℕ) (pg' : Page) → (st.pcache j).page ≡ some pg' → off ≢ (st.pcache j).page_off
    absent j pg' there same =
        let o = h.backed j pg' there in
        let at_i : i ≡ j = ap cache_index same ∙ o.index in
        let found : hit (st.pcache j) off ≡ some pg' =
          rw (same, ==_refl (st.pcache j).page_off) there in
        let missed : hit (st.pcache j) off ≡ none =
          subst (λ k. hit (st.pcache k) off ≡ none) at_i e in
        absurd (cc)

    IsCoherent-miss : IsCoherent (record st { os = os' })
    IsCoherent-miss = record {
      quiet = quiet-written st.os pg off h.quiet is fits;
      backed = λ j pg' there.
          let o = h.backed j pg' there in
          record {
            index = o.index;
            block = o.block;
            clean = λ d.
                o.clean d ∙ sym (written_ne (st.pcache j).page_off o.block (absent j pg' there));
            fits = o.fits;
          };
    }

  -- With a coherent cache and no failing call, `page_writeback` makes `pg` the page of `off` and
  -- changes no other block's page; the cache stays coherent.
  pub page_writeback-view :
      ((b : ℕ)
        → IsBlock b
        → view (page_writeback st pg off) b ≡ (if off == b then pg else view st b))
      × IsCoherent (page_writeback st pg off)
  page_writeback-view = elim (Option-cases (hit (st.pcache i) off)) [
    | inl e ↦ rw (writeback_miss e) (view_miss e, IsCoherent-miss e)
    | inr (old, e) ↦ rw (writeback_hit old e) (λ b _. view_hit old e b, IsCoherent-hit old e)
  ]
