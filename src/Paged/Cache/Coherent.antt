-- ===== src/Paged/Cache/Coherent.antt =====
-- What the cache and the image together hold, and when they agree.
use mathlib.Core.Path.{subst}
use xxfs.Base.{
  ℕ, ◌+◌, ◌%◌, ◌^◌, ◌≤◌, ◌<◌, ◌≡◌, ◌≢◌, ◌⊎◌, inl, inr, refl, sym, ap, ◌∙◌, arith, true, false, none,
  some, List, [], ◌∷◌, ◌==◌, Bool-cases, ==→eq, ==→ne, length, take_all, update,
}
use xxfs.Os.{Os, Outcome, full, outcome_at, file_pwrite}
use xxfs.Os.Image.{put_bytes, write, slice, slice-write_self, slice-write_apart}
use xxfs.Paged.Cache.{Cached, Pages, cache_index, hit}
use xxfs.Paged.Page.{Page, page_bytes, page_of}
use xxfs.Paged.Page.Codec.{IsPage, length-page_bytes, page_of-page_bytes}
use xxfs.Super.{block_size}

-- The page that the image holds at an offset.
unfoldable pub page_at : List ℕ → ℕ → Page
page_at image off = page_of (slice image off block_size)

-- The page at `off` if `c` is its slot.
unfoldable pub shown : List ℕ → Cached → ℕ → Page
shown image c off = elim (hit c off) [ some pg ↦ pg | none ↦ page_at image off ]

-- The page that a `page_load` is meant to give.
unfoldable pub view : Pages → ℕ → Page
view st off = shown st.os.image (st.pcache (cache_index off)) off

-- The offset of a block.
pub record IsBlock (off : ℕ) : Type 0 where
  pub aligned : off % block_size ≡ 0
  pub bounded : off < 2 ^ 63

-- `st'` shows the pages of `st`.
abbrev pub SameView : Pages → Pages → Type 0
SameView st st' = (b : ℕ) → IsBlock b → view st' b ≡ view st b

-- A cached page stands in its slot; a clean one is the image's, a dirty one fits a block.
pub record Backed (image : List ℕ) (i : ℕ) (c : Cached) (pg : Page) : Type 0 where
  pub index : cache_index c.page_off ≡ i
  pub block : IsBlock c.page_off
  pub clean : c.dirty ≡ false → pg ≡ page_at image c.page_off
  pub fits : c.dirty ≡ true → IsPage pg

-- No call is going to fail, and every cached page is backed.
pub record IsCoherent (st : Pages) : Type 0 where
  pub quiet : st.os.outcomes ≡ []
  pub backed :
      (i : ℕ) (pg : Page) → (st.pcache i).page ≡ some pg → Backed st.os.image i (st.pcache i) pg

pub shown_image :
    (image image' : List ℕ) (b : ℕ) (c : Cached)
    → page_at image' b ≡ page_at image b
    → shown image' c b ≡ shown image c b
unfolding shown
shown_image image image' b c e = ground arith

pub shown-miss :
    (image : List ℕ) (c : Cached) (b : ℕ) → hit c b ≡ none → shown image c b ≡ page_at image b
unfolding shown
shown-miss image c b e = rw (e, shown)

pub shown-hit :
    (image : List ℕ) (c : Cached) (b : ℕ) (pg : Page) → hit c b ≡ some pg → shown image c b ≡ pg
unfolding shown
shown-hit image c b pg e = rw (e, shown)

pub hit_parts :
    (c : Cached) (b : ℕ) (pg : Page) → hit c b ≡ some pg → (c.page_off ≡ b) × (c.page ≡ some pg)
hit_parts c b pg e = (ground arith, ground arith)

-- A new slot and a new image that show the same pages.
pub SameView-slot :
    (st : Pages) (os : Os) (i : ℕ) (c : Cached)
    → ((b : ℕ)
        → IsBlock b
        → i ≡ cache_index b
        → shown os.image c b ≡ shown st.os.image (st.pcache i) b)
    → ((b : ℕ) → IsBlock b → i ≢ cache_index b → page_at os.image b ≡ page_at st.os.image b)
    → SameView st (record { os = os; pcache = update st.pcache i c })
unfolding view
SameView-slot st os i c at_slot elsewhere b is = elim (Bool-cases (i == cache_index b)) [
  | inl e ↦
      let q = ==→eq i (cache_index b) e in
      rw (view, e) (at_slot b is q ∙ ap (λ k. shown st.os.image (st.pcache k) b) q)
  | inr n ↦
      rw (view, n)
        (shown_image st.os.image os.image b (st.pcache (cache_index b))
          (elsewhere b is (==→ne i (cache_index b) n)))
]

-- A new slot and a new image that are still coherent.
pub IsCoherent-slot :
    (st : Pages) (os : Os) (i : ℕ) (c : Cached)
    → IsCoherent st
    → os.outcomes ≡ []
    → ((pg : Page) → c.page ≡ some pg → Backed os.image i c pg)
    → ((b : ℕ) → IsBlock b → i ≢ cache_index b → page_at os.image b ≡ page_at st.os.image b)
    → IsCoherent (record { os = os; pcache = update st.pcache i c })
IsCoherent-slot st os i c h quiet at_slot elsewhere = record {
  quiet = quiet;
  backed = λ j pg e. elim (Bool-cases (i == j)) [
    | inl q ↦ rw q (subst (λ k. Backed os.image k c pg) (==→eq i j q) (at_slot pg (rw q at e)))
    | inr n ↦
        let o = h.backed j pg (rw n at e) in
        rw n (record {
          index = o.index;
          block = o.block;
          clean = λ d.
              o.clean d
              ∙ sym (elsewhere (st.pcache j).page_off o.block (λ k. ==→ne i j n (k ∙ o.index)));
          fits = o.fits;
        })
  ];
}

put_bytes-write :
    (image : List ℕ) (off : ℕ) (buf : List ℕ)
    → 0 < length buf
    → put_bytes image off buf ≡ write image off buf
put_bytes-write image off [] h = absurd (omega arith)
put_bytes-write image off (b ∷ buf) h = refl

pub outcome_quiet :
    (off : ℕ) (os : List Outcome) → os ≡ [] → off < 2 ^ 63 → outcome_at off os ≡ full
outcome_quiet off os quiet h = rw quiet (ground arith)

module _ (os : Os) (pg : Page) (off : ℕ) (quiet : os.outcomes ≡ []) (b : IsBlock off)
    (fits : IsPage pg) where
  -- A page written with no failure.
  abbrev pub written : Os
  written = (file_pwrite os (page_bytes pg) off).1

  pub quiet-written : written.outcomes ≡ []
  unfolding file_pwrite
  quiet-written = rw quiet

  image-written : written.image ≡ write os.image off (page_bytes pg)
  unfolding file_pwrite
  image-written = rw (outcome_quiet off os.outcomes quiet b.bounded) (
      ap (put_bytes os.image off) (take_all _ (page_bytes pg) refl)
      ∙ put_bytes-write os.image off (page_bytes pg) (rw (length-page_bytes pg fits) (omega arith)))

  pub page_at-written_self : page_at written.image off ≡ pg
  unfolding page_at
  page_at-written_self =
      ap (λ image. page_of (slice image off block_size)) image-written
      ∙ ap (λ (n : ℕ). page_of (slice (write os.image off (page_bytes pg)) off n))
          (sym (length-page_bytes pg fits))
      ∙ ap page_of (slice-write_self os.image off (page_bytes pg))
      ∙ page_of-page_bytes pg fits

  pub page_at-written_ne :
      (a : ℕ) → IsBlock a → a ≢ off → page_at written.image a ≡ page_at os.image a
  unfolding page_at
  page_at-written_ne a c ne =
      ap (λ image. page_of (slice image a block_size)) image-written
      ∙ ap page_of (
          slice-write_apart os.image off (page_bytes pg) a block_size
            (rw (length-page_bytes pg fits) apart))
    where
      apart : (a + block_size ≤ off) ⊎ (off + 4096 ≤ a)
      apart = omega (arith, b.aligned, c.aligned)
