-- ===== src/Mount/Ends.antt =====
-- The loops of `xxfs_mount`: that of `paged_dir_double` and that of the scan.
use mathlib.Core.Path.{subst}
use native.Mathlib.Nat.{pow-le-pow_right}
use xxfs.Base.{
  ℕ, zero, suc, ◌+◌, ◌*◌, ◌^◌, ◌%◌, ◌≤◌, ◌<◌, ◌≡◌, inl, inr, refl, sym, ap, ◌∙◌, arith, true, false,
  ◌&&◌, ◌++◌, u32, none, some, List, [], ◌==◌, ltb, leb, ltb→lt, lt→ltb, replicate, leb→le,
  Bool-cases, Option-cases, length, length-take, length-append, length-set, get_or, take, drop, u8,
}
use xxfs.Mount.{deepen, note_page, scan_from}
use xxfs.Os.{Os, Outcome, failed, file_pread, os_alloc, os_alloc_calm}
use xxfs.Os.Image.{padded, slice, length-padded}
use xxfs.Os.Parts.{take-drop, padded_all}
use xxfs.Paged.Dir.{Dir, entry, no_offset, paged_dir_double}
use xxfs.Paged.Dir.Double.{pow_next}
use xxfs.Paged.Hash.{dir_index}
use xxfs.Paged.Page.{Page, zero_slot, slots_per_page, page_of}
use xxfs.Super.{block_size}

-- An entry for each value of `global_depth` bits, at most 31 of them: no size wraps.
pub record IsSized (d : Dir) : Type 0 where
  pub size : d.dir_size ≡ 2 ^ d.global_depth
  pub entries : length d.page_off ≡ d.dir_size
  pub depth : d.global_depth < 32

doubled : Dir → Dir
doubled d = record {
  page_off = take (u32 (d.dir_size * 2)) (take d.dir_size d.page_off ++ take d.dir_size d.page_off);
  dir_size = u32 (d.dir_size * 2);
  global_depth = u8 (d.global_depth + 1);
}

double_calm :
    (d : Dir) (os : Os) → os.outcomes ≡ [] → paged_dir_double d os ≡ (some (doubled d), os)
unfolding paged_dir_double doubled
double_calm d os calm =
    let room = os_alloc_calm os calm in rw (ap (λ t. t.0) room, ap (λ t. t.1) room) refl

-- Below 31 bits the new table has twice the entries.
doubled-IsSized : (d : Dir) → IsSized d → d.global_depth < 31 → IsSized (doubled d)
unfolding doubled
doubled-IsSized d is low =
    let shallower : d.global_depth ≤ 30 = omega (arith, low) in
    let small : 2 ^ d.global_depth ≤ 2 ^ 30 = pow-le-pow_right {n = 2} (omega arith) shallower in
    let next : 2 ^ u8 (d.global_depth + 1) ≡ 2 ^ d.global_depth * 2 =
      ap (λ (n : ℕ). 2 ^ n) (omega (arith, low)) ∙ pow_next d.global_depth in
    let old = length-take d.dir_size d.page_off (omega (arith, is.entries)) in
    let both = length-append (take d.dir_size d.page_off) (take d.dir_size d.page_off) in
    record {
      size = omega (arith, is.size, small, next);
      entries =
          length-take (u32 (d.dir_size * 2))
            (take d.dir_size d.page_off ++ take d.dir_size d.page_off) (omega (arith, old, both));
      depth = omega (arith, low);
    }

deepen_step :
    (fuel : ℕ) (d : Dir) (needed : ℕ) (os : Os)
    → os.outcomes ≡ []
    → ltb d.global_depth needed ≡ true
    → deepen (suc fuel) d needed os ≡ deepen fuel (doubled d) needed os
unfolding deepen
deepen_step fuel d needed os calm z =
    let e = double_calm d os calm in rw (z, deepen, ap (λ t. t.0) e, ap (λ t. t.1) e) refl

deepen_stop :
    (fuel : ℕ) (d : Dir) (needed : ℕ) (os : Os)
    → ltb d.global_depth needed ≡ false
    → deepen (suc fuel) d needed os ≡ (some d, os)
unfolding deepen
deepen_stop fuel d needed os z = rw (z, deepen) refl

abbrev Deepens : ℕ → Dir → ℕ → Os → Type 0
Deepens fuel d needed os = (d' : Dir) × (deepen fuel d needed os ≡ (some d', os)) × IsSized d'

-- The directory deepens by one with each step, up to the depth that is needed.
deepen-Ends :
    (fuel : ℕ) (d : Dir) (needed : ℕ) (os : Os)
    → os.outcomes ≡ []
    → IsSized d
    → needed < 32
    → needed ≤ d.global_depth + fuel
    → Deepens (suc fuel) d needed os
unfolding doubled
deepen-Ends zero d needed os calm is low h =
    let z : ltb d.global_depth needed ≡ false = ground arith in
    (d, deepen_stop zero d needed os z, is)
deepen-Ends (suc fuel) d needed os calm is low h = elim (Bool-cases (ltb d.global_depth needed)) [
  | inr z ↦ (d, deepen_stop (suc fuel) d needed os z, is)
  | inl z ↦
      let less = ltb→lt d.global_depth needed z in
      let deeper : needed ≤ (d.global_depth + 1) % 2 ^ 8 + fuel = omega (arith, less, h, low) in
      let (d', e, is') =
        deepen-Ends fuel (doubled d) needed os calm
          (doubled-IsSized d is (omega (arith, less, low))) low deeper in
      (d', deepen_step (suc fuel) d needed os calm z ∙ e, is')
]

-- The loop that doubles the directory of pages does not end where no allocation succeeds, however
-- many steps it is given, if the directory is not as deep as the page.
pub deepen_hangs :
    (fuel : ℕ) (d : Dir) (needed : ℕ) (image : List ℕ) (outcomes : List Outcome)
    → d.global_depth < needed
    → (deepen fuel d needed
        (record { image = image; outcomes = replicate fuel failed ++ outcomes })).0
      ≡ none
unfolding deepen paged_dir_double os_alloc
deepen_hangs zero d needed image outcomes h = refl
deepen_hangs (suc fuel) d needed image outcomes h =
    rw (lt→ltb d.global_depth needed h, deepen) (deepen_hangs fuel d needed image outcomes h)

note_page-IsSized : (d : Dir) (pg : Page) (scan : ℕ) → IsSized d → IsSized (note_page d pg scan)
unfolding note_page
note_page-IsSized d pg scan is = elim (Bool-cases (ltb at d.dir_size && entry d at == no_offset)) [
  | inr e ↦ rw e is
  | inl e ↦ rw e (record {
    size = is.size;
    entries = length-set d.page_off at scan ∙ is.entries;
    depth = is.depth;
  })
]
  where
    at : ℕ
    at = dir_index (get_or pg.slots 0 zero_slot).hash d.global_depth

-- The page that the scan finds at an offset.
abbrev pub page_in : List ℕ → ℕ → Page
page_in image off = page_of (slice image off block_size)

module _ (fuel : ℕ) (os : Os) (calm : os.outcomes ≡ []) (enough : 31 < fuel)
    (shallow : (off : ℕ)
      → off + block_size ≤ length os.image
      → 0 < (page_in os.image off).count
      → (page_in os.image off).count ≤ slots_per_page
      → u8 (page_in os.image off).local_depth < 32) where
  same_os : (n off : ℕ) → (file_pread os n off).1 ≡ os
  unfolding file_pread
  same_os n off = rw calm refl

  no_read : (off : ℕ) → leb (2 ^ 63) off ≡ true → (file_pread os block_size off).0 ≡ none
  unfolding file_pread
  no_read off high = rw (high, file_pread) refl

  read :
      (off : ℕ)
      → leb (2 ^ 63) off ≡ false
      → (file_pread os block_size off).0 ≡ some (take block_size (drop off os.image))
  unfolding file_pread
  read off low = rw (low, calm, file_pread) refl

  -- What a read of a page gives.
  page_read :
      (off : ℕ) (bs : List ℕ)
      → (file_pread os block_size off).0 ≡ some bs
      → off + block_size ≤ length os.image
      → page_of (padded bs block_size) ≡ page_in os.image off
  page_read off bs e inside = elim (Bool-cases (leb (2 ^ 63) off)) [
    | inl high ↦ absurd (cc (sym (no_read off high) ∙ e))
    | inr low ↦
        let e' : some (take block_size (drop off os.image)) ≡ some bs = sym (read off low) ∙ e in
        let same : take block_size (drop off os.image) ≡ bs = cc e' in
        ap (λ xs. page_of (padded xs block_size))
          (sym same ∙ take-drop block_size off os.image inside)
        ∙ ap page_of (
            padded_all block_size (slice os.image off block_size)
              (length-padded (drop off os.image) block_size))
  ]

  deep : (d : Dir) (needed : ℕ) → IsSized d → needed < 32 → Deepens fuel d needed os
  deep d needed is low = from fuel enough
    where
      from : (fuel : ℕ) → 31 < fuel → Deepens fuel d needed os
      from zero h = absurd (omega arith)
      from (suc fuel) h = deepen-Ends fuel d needed os calm is low (omega arith)

  low_depth :
      (pg : Page) (off : ℕ)
      → pg ≡ page_in os.image off
      → off + block_size ≤ length os.image
      → (ltb 0 pg.count && leb pg.count slots_per_page) ≡ true
      → u8 pg.local_depth < 32
  low_depth pg off same inside c =
      let some_slot : 0 < pg.count = ground arith in
      let at_most : pg.count ≤ slots_per_page = ground arith in
      subst (λ p. u8 p.local_depth < 32) (sym same)
        (shallow off inside (subst (λ p. 0 < p.count) same some_slot)
          (subst (λ p. p.count ≤ slots_per_page) same at_most))

  abbrev pub Scans : ℕ → Dir → ℕ → Type 0
  Scans n d scan =
      (d' : Dir) × (scan_from n fuel d (length os.image) scan os ≡ (some d', os)) × IsSized d'

  -- One page behind the other.
  pub scan_from-Ends :
      (n : ℕ) (d : Dir) (scan : ℕ)
      → IsSized d
      → 0 < n
      → length os.image < scan + n * block_size
      → Scans n d scan
  unfolding scan_from
  scan_from-Ends zero d scan is h e = absurd (omega arith)
  scan_from-Ends (suc n) d scan is h e =
      elim (Bool-cases (leb (scan + block_size) (length os.image))) [
        | inr z ↦ (d, rw (z, scan_from) refl, is)
        | inl z ↦ elim (Option-cases (file_pread os block_size scan).0) [
          | inl b ↦ (d, rw (z, b, same_os block_size scan, scan_from) refl, is)
          | inr (bs, b) ↦
              let pg = page_of (padded bs block_size) in
              let more = leb→le (scan + block_size) (length os.image) z in
              elim (Bool-cases (ltb 0 pg.count && leb pg.count slots_per_page)) [
                | inr c ↦
                    let (d', r, is') =
                      scan_from-Ends n d (scan + block_size) is (omega arith) (omega arith) in
                    (d', rw (z, b, c, same_os block_size scan, scan_from) r, is')
                | inl c ↦
                    let (d1, r1, is1) =
                      deep d (u8 pg.local_depth) is
                        (low_depth pg scan (page_read scan bs b more) more c) in
                    let (d', r, is') =
                      scan_from-Ends n (note_page d1 pg scan) (scan + block_size)
                        (note_page-IsSized d1 pg scan is1) (omega arith) (omega arith) in
                    (
                      d',
                      rw
                          (
                            z,
                            b,
                            c,
                            same_os block_size scan,
                            ap (λ t. t.0) r1,
                            same_os block_size scan,
                            ap (λ t. t.1) r1,
                            scan_from,
                          )
                          r,
                      is',
                    )
              ]
        ]
      ]
