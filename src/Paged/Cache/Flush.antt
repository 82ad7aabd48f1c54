-- ===== src/Paged/Cache/Flush.antt =====
-- `pcache_flush_all` brings the image up to date.
use mathlib.Core.Path.{subst}
use xxfs.Base.{
  ℕ, zero, suc, ◌+◌, ◌≤◌, ◌<◌, ◌≡◌, ◌≢◌, inl, inr, refl, sym, ap, ◌∙◌, arith, true, false, none,
  some, ◌==◌, update, Bool-cases, Option-cases, ==→eq, ==→ne, ==_refl, ne→==,
}
use xxfs.Os.{Os, file_pwrite}
use xxfs.Paged.Cache.{
  Cached, Pages, pcache_size, cache_index, hit, flush_slot, flush_from, pcache_flush_all,
}
use xxfs.Paged.Cache.Coherent.{
  page_at, shown, view, SameView, SameView-slot, IsCoherent-slot, IsBlock, Backed, IsCoherent,
  quiet-written, page_at-written_self, page_at-written_ne, shown-miss, shown-hit, hit_parts,
}
use xxfs.Paged.Page.{Page, page_bytes}

-- A page in the slot is the image's.
abbrev pub IsClean : Cached → Type 0
IsClean c = (pg : Page) → c.page ≡ some pg → c.dirty ≡ false

module _ (st : Pages) (i : ℕ) (h : IsCoherent st) where
  abbrev slot : Cached
  slot = st.pcache i

  flush_absent : slot.page ≡ none → flush_slot st i ≡ st
  unfolding flush_slot
  flush_absent e = rw (e, flush_slot)

  module _ (pg : Page) (e : slot.page ≡ some pg) where
    flush_clean : slot.dirty ≡ false → flush_slot st i ≡ st
    unfolding flush_slot
    flush_clean d = rw (e, d, flush_slot)

    abbrev washed : Cached
    washed = record slot { dirty = false }

    abbrev os' : Os
    os' = (file_pwrite st.os (page_bytes pg) slot.page_off).1

    flush_dirty :
        slot.dirty ≡ true
        → flush_slot st i ≡ record { os = os'; pcache = update st.pcache i washed }
    unfolding flush_slot
    flush_dirty d = ground arith

    backing : Backed st.os.image i slot pg
    backing = h.backed i pg e

    module _ (d : slot.dirty ≡ true) where
      written_self : page_at os'.image slot.page_off ≡ pg
      written_self =
          page_at-written_self st.os pg slot.page_off h.quiet backing.block (backing.fits d)

      written_ne :
          (b : ℕ) → IsBlock b → b ≢ slot.page_off → page_at os'.image b ≡ page_at st.os.image b
      written_ne = page_at-written_ne st.os pg slot.page_off h.quiet backing.block (backing.fits d)

      shown-washed : (b : ℕ) → IsBlock b → shown os'.image washed b ≡ shown st.os.image slot b
      unfolding shown
      shown-washed b is = ground (arith, written_ne b is)

      index_ne : (b : ℕ) → i ≢ cache_index b → b ≢ slot.page_off
      index_ne b ne same = ne (sym backing.index ∙ ap cache_index (sym same))

      washed-Backed : (pg' : Page) → slot.page ≡ some pg' → Backed os'.image i washed pg'
      washed-Backed pg' e' = record {
        index = backing.index;
        block = backing.block;
        clean = λ _. ground (arith, written_self);
        fits = λ no_dirt. absurd (cc no_dirt);
      }

  -- One round shows the same pages, keeps the cache coherent, and cleans its slot.
  pub record Flushes (st' : Pages) : Type 0 where
    pub same : SameView st st'
    pub coherent : IsCoherent st'
    pub clean : IsClean (st'.pcache i)
    pub others : (j : ℕ) → i ≢ j → st'.pcache j ≡ st.pcache j

  flush_slot-Flushes : Flushes (flush_slot st i)
  flush_slot-Flushes = elim (Option-cases slot.page) [
    | inl e ↦ rw (flush_absent e) (record {
      same = λ b _. refl;
      coherent = h;
      clean = λ pg e'. absurd (cc);
      others = λ j _. refl;
    })
    | inr (pg, e) ↦ elim (Bool-cases slot.dirty) [
      | inr d ↦
          rw (flush_clean pg e d)
            (record { same = λ b _. refl; coherent = h; clean = λ _ _. d; others = λ j _. refl })
      | inl d ↦ rw (flush_dirty pg e d) (record {
        same =
            SameView-slot st (os' pg e) i (washed pg e) (λ b is _. shown-washed pg e d b is)
              (λ b is ne. written_ne pg e d b is (index_ne pg e d b ne));
        coherent =
            IsCoherent-slot st (os' pg e) i (washed pg e) h
              (quiet-written st.os pg slot.page_off h.quiet (backing pg e).block
                ((backing pg e).fits d))
              (washed-Backed pg e d) (λ b is ne. written_ne pg e d b is (index_ne pg e d b ne));
        clean = rw (==_refl i) (λ _ _. refl);
        others = λ j ne. rw (ne→== i j ne);
      })
    ]
  ]

-- After the rounds over a range of slots these are clean, and nothing else is to be seen.
record Flushed (lo left : ℕ) (st st' : Pages) : Type 0 where
  same : SameView st st'
  coherent : IsCoherent st'
  clean : (j : ℕ) → lo ≤ j → j < lo + left → IsClean (st'.pcache j)
  before : (j : ℕ) → j < lo → st'.pcache j ≡ st.pcache j

flush_from-Flushed :
    (left lo : ℕ) (st : Pages) → IsCoherent st → Flushed lo left st (flush_from left lo st)
unfolding flush_from
flush_from-Flushed zero lo st h = record {
  same = λ b _. refl;
  coherent = h;
  clean = λ j p q. absurd (omega arith);
  before = λ j _. refl;
}
flush_from-Flushed (suc left) lo st h =
    let one = flush_slot-Flushes st lo h in
    let more = flush_from-Flushed left (lo + 1) (flush_slot st lo) one.coherent in
    record {
      same = λ b is. more.same b is ∙ one.same b is;
      coherent = more.coherent;
      clean = λ j p q. elim (Bool-cases (lo == j)) [
        | inl e ↦
            subst (λ k. IsClean ((flush_from left (lo + 1) (flush_slot st lo)).pcache k))
              (==→eq lo j e) (subst IsClean (sym (more.before lo (omega arith))) one.clean)
        | inr n ↦ more.clean j (let ne = ==→ne lo j n in omega arith) (omega arith)
      ];
      before = λ j p. more.before j (omega arith) ∙ one.others j (λ e. omega arith);
    }

cache_index-lt : (b : ℕ) → cache_index b < pcache_size
unfolding cache_index
cache_index-lt b = omega arith

view_clean :
    (st : Pages) (b : ℕ)
    → IsCoherent st
    → IsClean (st.pcache (cache_index b))
    → view st b ≡ page_at st.os.image b
unfolding view
view_clean st b h clean = elim (Option-cases (hit (st.pcache (cache_index b)) b)) [
  | inl e ↦ shown-miss st.os.image (st.pcache (cache_index b)) b e
  | inr (pg, e) ↦
      let i = cache_index b in
      let (at_b, there) = hit_parts (st.pcache i) b pg e in
      shown-hit st.os.image (st.pcache i) b pg e
      ∙ (h.backed i pg there).clean (clean pg there)
      ∙ ap (page_at st.os.image) at_b
]

-- `pcache_flush_all` with no failing call: the image alone then holds every page that was to be
-- seen through the cache, which stays coherent and goes on showing the same.
pub pcache_flush_all-page_at :
    (st : Pages)
    → IsCoherent st
    → let st' = pcache_flush_all st in
      ((b : ℕ) → IsBlock b → page_at st'.os.image b ≡ view st b) × SameView st st' × IsCoherent st'
unfolding pcache_flush_all
pcache_flush_all-page_at st h =
    let all = flush_from-Flushed pcache_size 0 st h in
    (
      λ b is.
          sym (
            view_clean (pcache_flush_all st) b all.coherent
              (all.clean (cache_index b) (omega arith) (cache_index-lt b)))
          ∙ all.same b is,
      all.same,
      all.coherent,
    )
