-- ===== src/Paged/Cache/Load.antt =====
-- `page_load` is transparent: it gives the page of its offset, and changes none.
use mathlib.Core.Path.{subst, fun_ext}
use xxfs.Base.{
  ℕ, ◌≡◌, inl, inr, refl, sym, ap, ◌∙◌, true, false, Option, none, some, List, [], arith, ◌∷◌, ◌==◌,
  take, drop, update, Bool-cases, Option-cases, ==→eq, ==_refl,
}
use xxfs.Os.{Os, Outcome, later, called, file_pread, os_alloc}
use xxfs.Os.Image.{padded-take}
use xxfs.Paged.Cache.{Cached, Pages, cache_index, hit, fill, page_load}
use xxfs.Paged.Cache.Coherent.{
  page_at, shown, view, SameView, SameView-slot, shown-hit, IsCoherent-slot, IsBlock, IsCoherent,
  outcome_quiet,
}
use xxfs.Paged.Cache.Evict.{emptied, emptied-SameView, emptied-IsCoherent}
use xxfs.Paged.Page.{Page, page_of}
use xxfs.Super.{block_size}

later_quiet : (os : List Outcome) → os ≡ [] → later (later os) ≡ os
later_quiet [] h = refl
later_quiet (o ∷ os) h = cc

alloc_quiet : (os : Os) → os.outcomes ≡ [] → os_alloc os ≡ (true, called os)
unfolding os_alloc
alloc_quiet os h = rw (h, os_alloc)

-- A fill with no failure gives the image's page.
module _ (os : Os) (off : ℕ) (quiet : os.outcomes ≡ []) (is : IsBlock off) where
  pread_quiet :
      file_pread (called os) block_size off
      ≡ (some (take block_size (drop off os.image)), called (called os))
  unfolding file_pread
  pread_quiet = rw (outcome_quiet off (later os.outcomes) (rw quiet refl) is.bounded, file_pread)

  called_twice : called (called os) ≡ os
  called_twice = ap (λ l. record os { outcomes = l }) (later_quiet os.outcomes quiet)

  pub fill-page_at : fill os off ≡ (some (page_at os.image off), os)
  unfolding fill page_at
  fill-page_at =
      rw (alloc_quiet os quiet, pread_quiet, called_twice)
        (ap (λ bs. (some (page_of bs), os)) (padded-take block_size (drop off os.image)))

abbrev loaded : ℕ → Page → Cached
loaded off pg = record { page_off = off; page = some pg; dirty = false }

hit-loaded : (off : ℕ) (pg : Page) → hit (loaded off pg) off ≡ some pg
hit-loaded off pg = rw (==_refl off)

shown-loaded :
    (image : List ℕ) (off b : ℕ) → shown image (loaded off (page_at image off)) b ≡ page_at image b
unfolding shown
shown-loaded image off b = elim (Bool-cases (off == b)) [
  | inl q ↦ rw (shown, q) (ap (page_at image) (==→eq off b q))
  | inr n ↦ rw (shown, n)
]

shown_empty :
    (image : List ℕ) (c : Cached) (b : ℕ) → c.page ≡ none → shown image c b ≡ page_at image b
unfolding shown
shown_empty image c b e = ground arith

update-update {ℓ} :
    {A : Type ℓ} (f : ℕ → A) (i : ℕ) (v w : A) (j : ℕ)
    → update (update f i v) i w j ≡ update f i w j
update-update f i v w j = ground arith

-- A load that finds the page in its slot, and one that does not.
module _ (st : Pages) (off : ℕ) where
  page_load-hit :
      (pg : Page)
      → hit (st.pcache (cache_index off)) off ≡ some pg
      → page_load st off ≡ (some pg, st)
  unfolding page_load
  page_load-hit pg e = rw (e, page_load)

  -- The slot is emptied, and the page that the image then holds is put there.
  module _ (h : IsCoherent st) (is : IsBlock off)
      (e : hit (st.pcache (cache_index off)) off ≡ none) where
    abbrev mid : Pages
    mid = emptied st (cache_index off) h

    abbrev found : Page
    found = page_at mid.os.image off

    abbrev refilled : Pages
    refilled = record {
      os = mid.os;
      pcache = update st.pcache (cache_index off) (loaded off found);
    }

    mid-IsCoherent : IsCoherent mid × ((mid.pcache (cache_index off)).page ≡ none)
    mid-IsCoherent = emptied-IsCoherent st (cache_index off) h

    page_load-miss : page_load st off ≡ (some found, refilled)
    unfolding page_load
    page_load-miss = rw (e, page_load) (simp (fill-page_at mid.os off mid-IsCoherent.0.quiet is))

    -- The slot is filled after it was emptied.
    refilled-mid :
        record { os = mid.os; pcache = update mid.pcache (cache_index off) (loaded off found) }
        ≡ refilled
    refilled-mid =
        ap (λ f. record { os = mid.os; pcache = f })
          (fun_ext λ j. update-update st.pcache (cache_index off) _ (loaded off found) j)

    refilled-SameView : SameView st refilled
    refilled-SameView b at_block =
        ap (λ s. view s b) (sym refilled-mid)
        ∙ SameView-slot mid mid.os (cache_index off) (loaded off found)
            (λ b' _ _.
              shown-loaded mid.os.image off b'
              ∙ sym (shown_empty mid.os.image (mid.pcache (cache_index off)) b' mid-IsCoherent.1))
            (λ b' _ _. refl) b at_block
        ∙ emptied-SameView st (cache_index off) h b at_block

    refilled-IsCoherent : IsCoherent refilled
    refilled-IsCoherent = subst IsCoherent refilled-mid (
        IsCoherent-slot mid mid.os (cache_index off) (loaded off found) mid-IsCoherent.0
          mid-IsCoherent.0.quiet
          (λ pg same. record {
            index = refl;
            block = is;
            clean = λ _. cc;
            fits = λ d. absurd (cc d);
          })
          (λ b _ _. refl))

    refilled_hit : hit (refilled.pcache (cache_index off)) off ≡ some found
    refilled_hit = rw (==_refl (cache_index off)) (hit-loaded off found)

    found-view : found ≡ view st off
    unfolding view
    found-view =
        sym (shown-hit refilled.os.image (refilled.pcache (cache_index off)) off found refilled_hit)
        ∙ refilled-SameView off is

-- What a load is to be: the page of its offset, which then is in its slot, and no other change.
pub record Loads (st : Pages) (off : ℕ) (page : Option Page) (st' : Pages) : Type 0 where
  pub gives : page ≡ some (view st off)
  pub same : SameView st st'
  pub coherent : IsCoherent st'
  pub present : hit (st'.pcache (cache_index off)) off ≡ some (view st off)

-- With a coherent cache and no failing call, `page_load` gives the page of its offset and leaves it
-- in its slot; every block shows the same page as before, and the cache stays coherent.
pub page_load-Loads :
    (st : Pages) (off : ℕ)
    → IsCoherent st
    → IsBlock off
    → Loads st off (page_load st off).0 (page_load st off).1
page_load-Loads st off h is = elim (Option-cases (hit (st.pcache (cache_index off)) off)) [
  | inl e ↦ rw (page_load-miss st off h is e) (record {
    gives = ap some (found-view st off h is e);
    same = refilled-SameView st off h is e;
    coherent = refilled-IsCoherent st off h is e;
    present = refilled_hit st off h is e ∙ ap some (found-view st off h is e);
  })
  | inr (pg, e) ↦
      let here : pg ≡ view st off =
        unfold view in sym (shown-hit st.os.image (st.pcache (cache_index off)) off pg e) in
      rw (page_load-hit st off pg e) (record {
        gives = ap some here;
        same = λ b _. refl;
        coherent = h;
        present = e ∙ ap some here;
      })
]
