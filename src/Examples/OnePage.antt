-- ===== src/Examples/OnePage.antt =====
-- A page cache over an empty image that holds one page, not written yet, at 4096.
use mathlib.Core.Option.{some-injective}
use mathlib.Core.Path.{subst}
use xxfs.Base.{
  ℕ, ◌≡◌, inl, inr, refl, ◌∙◌, arith, true, false, none, some, [], ◌==◌, Bool-cases, ==→eq, update,
}
use xxfs.Paged.Cache.{Cached, Pages, cache_index}
use xxfs.Paged.Cache.Coherent.{view, shown-hit, IsBlock, IsCoherent, Backed}
use xxfs.Paged.Page.{Page}
use xxfs.Paged.Page.Codec.{IsPage}

abbrev pub no_page : Cached
no_page = record { page_off = 0; page = none; dirty = false }

abbrev pub dirty_page : Page → Cached
dirty_page pg = record { page_off = 4096; page = some pg; dirty = true }

abbrev pub one_page : Page → Pages
one_page pg = record {
  os = record { image = []; outcomes = [] };
  pcache = update (λ _. no_page) 1 (dirty_page pg);
}

index_1 : cache_index 4096 ≡ 1
unfolding cache_index
index_1 = refl

pub second-IsBlock : IsBlock 4096
second-IsBlock = record { aligned = refl; bounded = omega arith }

module _ (pg : Page) (fits : IsPage pg) where
  one_page-Backed :
      (i : ℕ) (pg' : Page)
      → ((one_page pg).pcache i).page ≡ some pg'
      → Backed [] i ((one_page pg).pcache i) pg'
  one_page-Backed i pg' e = elim (Bool-cases (1 == i)) [
    | inl q ↦ rw q (record {
      index = index_1 ∙ ==→eq 1 i q;
      block = second-IsBlock;
      clean = λ d. absurd (cc d);
      fits = λ _. subst IsPage (some-injective pg pg' (rw q at e)) fits;
    })
    | inr n ↦ absurd (let e' : none ≡ some pg' = rw n at e in cc)
  ]

  pub one_page-IsCoherent : IsCoherent (one_page pg)
  one_page-IsCoherent = record { quiet = refl; backed = one_page-Backed }

pub view-one_page : (pg : Page) → view (one_page pg) 4096 ≡ pg
unfolding view cache_index
view-one_page pg = shown-hit [] (dirty_page pg) 4096 pg refl
