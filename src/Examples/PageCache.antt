-- ===== src/Examples/PageCache.antt =====
-- lib/xxfs.c: the page cache with one dirty page, and the bytes of a page.
use xxfs.Examples.OnePage.{one_page, one_page-IsCoherent}
use xxfs.Base.{ℕ, ◌*◌, ◌≡◌, refl, arith, ◌==◌, if◌then◌else◌}
use xxfs.Paged.Cache.{Pages, cache_index, page_load, page_writeback, pcache_flush_all}
use xxfs.Paged.Cache.Coherent.{page_at, view, SameView, IsBlock, IsCoherent}
use xxfs.Paged.Cache.Flush.{pcache_flush_all-page_at}
use xxfs.Paged.Cache.Load.{Loads, page_load-Loads}
use xxfs.Paged.Cache.Writeback.{page_writeback-view}
use xxfs.Paged.Page.{empty_page}
use xxfs.Paged.Page.Codec.{IsPage, empty_page-IsPage}

abbrev one_dirty : Pages
one_dirty = one_page (empty_page 3)

-- The next block that has the slot of the dirty page.
abbrev rival : ℕ
rival = 4096 * 4097

same_slot : (cache_index 4096 ≡ 1) × (cache_index rival ≡ 1)
unfolding cache_index
same_slot = (refl, refl)

three_deep-IsPage : IsPage (empty_page 3)
three_deep-IsPage = empty_page-IsPage 3 (omega arith)

one_dirty-IsCoherent : IsCoherent one_dirty
one_dirty-IsCoherent = one_page-IsCoherent (empty_page 3) three_deep-IsPage

rival-IsBlock : IsBlock rival
rival-IsBlock = record { aligned = refl; bounded = omega arith }

page_load-Loads_example :
    Loads one_dirty rival (page_load one_dirty rival).0 (page_load one_dirty rival).1
page_load-Loads_example = page_load-Loads one_dirty rival one_dirty-IsCoherent rival-IsBlock

pcache_flush_all-page_at_example :
    ((b : ℕ) → IsBlock b → page_at (pcache_flush_all one_dirty).os.image b ≡ view one_dirty b)
    × SameView one_dirty (pcache_flush_all one_dirty)
    × IsCoherent (pcache_flush_all one_dirty)
pcache_flush_all-page_at_example = pcache_flush_all-page_at one_dirty one_dirty-IsCoherent

page_writeback-view_example :
    ((b : ℕ)
      → IsBlock b
      → view (page_writeback one_dirty (empty_page 3) rival) b
        ≡ (if rival == b then empty_page 3 else view one_dirty b))
    × IsCoherent (page_writeback one_dirty (empty_page 3) rival)
page_writeback-view_example =
    page_writeback-view one_dirty (empty_page 3) rival one_dirty-IsCoherent rival-IsBlock
      three_deep-IsPage
