-- ===== src/Paged/Index/Put/Kept.antt =====
-- `paged_put` and `paged_insert` leave the count of inodes as it is, on every branch.
use xxfs.Base.{
  ℕ, zero, suc, ◌≡◌, ◌⊎◌, inl, inr, refl, ◌∙◌, arith, List, ◌==◌, leb, get_or, Bool-cases,
  Option-cases, length,
}
use xxfs.Paged.Cache.{cache_index, hit}
use xxfs.Paged.Index.{
  Rc, Result, done, error, Index, load, write_back, allocate, touch, write_record, make_page,
  start_page,
}
use xxfs.Paged.Index.Put.{
  Turn, finish, go_on, restart, split_page, page_split, full_page, insert_page, replace, put_page,
  put_chain, insert_chain, paged_insert,
}
use xxfs.Paged.Hash.{xxh64}
use xxfs.Paged.Page.{zero_slot, Page, Slot, slots_per_page}
use xxfs.Paged.Dir.{Dir, paged_dir_double}
use xxfs.Paged.Slots.{fits_inline, is_inline, append_failed, find_match, live}
use xxfs.Super.{Volume, page_alloc}

Result-cases : (r : Result ℕ) → ((off : ℕ) × (r ≡ done off)) ⊎ ((rc : Rc) × (r ≡ error rc))
Result-cases (done off) = inl (off, refl)
Result-cases (error rc) = inr (rc, refl)

abbrev pub inodes : Index → ℕ
inodes ix = ix.sb.inodes_count

page_alloc_keeps : (v : Volume) → (page_alloc v).1.sb.inodes_count ≡ v.sb.inodes_count
unfolding page_alloc
page_alloc_keeps v = ground arith

allocate_keeps : (ix : Index) → inodes (allocate ix).1 ≡ inodes ix
unfolding allocate
allocate_keeps ix = page_alloc_keeps (record { sb = ix.sb; os = ix.os })

load_keeps : (ix : Index) (off : ℕ) → inodes (load ix off).1 ≡ inodes ix
unfolding load
load_keeps ix off = refl

write_back_keeps : (ix : Index) (pg : Page) (off : ℕ) → inodes (write_back ix pg off) ≡ inodes ix
unfolding write_back
write_back_keeps ix pg off = refl

touch_keeps : (ix : Index) (pg : Page) (off : ℕ) → inodes (touch ix pg off) ≡ inodes ix
unfolding touch
touch_keeps ix pg off = elim (Option-cases (hit (ix.pcache (cache_index off)) off)) [
  | inl e ↦ rw (e, touch) refl
  | inr (old, e) ↦ rw (e, touch) refl
]

make_page_keeps : (ix : Index) (off depth : ℕ) → inodes (make_page ix off depth).1 ≡ inodes ix
unfolding make_page
make_page_keeps ix off depth = ground arith

write_record_keeps :
    (ix : Index) (key val : List ℕ) → inodes (write_record ix key val).1 ≡ inodes ix
unfolding write_record
write_record_keeps ix key val = ground (arith, allocate_keeps ix)

start_page_keeps : (ix : Index) (h : ℕ) → inodes (start_page ix h).1 ≡ inodes ix
unfolding start_page
start_page_keeps ix h = ground (arith, allocate_keeps ix)

split_page_keeps : (ix : Index) (pg : Page) (cur : ℕ) → inodes (split_page ix pg cur).1 ≡ inodes ix
unfolding split_page
split_page_keeps ix pg cur = ground (arith, allocate_keeps ix)

page_split_keeps : (ix : Index) (cur : ℕ) → inodes (page_split ix cur).1 ≡ inodes ix
unfolding page_split
page_split_keeps ix cur = elim (Option-cases (load ix cur).0) [
  | inl e ↦ rw (e, page_split) (load_keeps ix cur)
  | inr (pg, e) ↦ elim (Bool-cases (leb ix1.pdir.global_depth pg.local_depth)) [
    | inr lower ↦ rw (e, lower, page_split) (split_page_keeps ix1 pg cur ∙ load_keeps ix cur)
    | inl deep ↦ elim (Bool-cases (leb 20 ix1.pdir.global_depth)) [
      | inl most ↦ rw (e, deep, most, page_split) (load_keeps ix cur)
      | inr more ↦ elim (Option-cases (paged_dir_double ix1.pdir ix1.os).0) [
        | inl d ↦ rw (e, deep, more, d, page_split) (load_keeps ix cur)
        | inr (d', d) ↦ elim (Option-cases (load (doubled d') cur).0) [
          | inl e' ↦ rw (e, deep, more, d, e', page_split) (load_keeps ix cur)
          | inr (pg', e') ↦
              rw (e, deep, more, d, e', page_split)
                (split_page_keeps (load (doubled d') cur).1 pg' cur
                  ∙ load_keeps (doubled d') cur
                  ∙ load_keeps ix cur)
        ]
      ]
    ]
  ]
]
  where
    ix1 : Index
    ix1 = (load ix cur).1

    doubled : Dir → Index
    doubled d = record ix1 { os = (paged_dir_double ix1.pdir ix1.os).1; pdir = d }

full_page_keeps : (ix : Index) (pg : Page) (cur : ℕ) → inodes (full_page ix pg cur).1 ≡ inodes ix
unfolding full_page
full_page_keeps ix pg cur =
    let one = allocate_keeps ix in
    let two = page_split_keeps (allocate ix).1 cur in
    let ix2 = write_back (allocate ix).1 (record pg { overflow_next = (allocate ix).0 }) cur in
    let three = make_page_keeps ix2 (allocate ix).0 pg.local_depth in
    let kept =
      write_back_keeps (allocate ix).1 (record pg { overflow_next = (allocate ix).0 }) cur in
    ground (arith, one, two, three, kept)

insert_page_keeps :
    (ix : Index) (pg : Page) (cur h : ℕ) (key val : List ℕ)
    → inodes (insert_page ix pg cur h key val).1 ≡ inodes ix
unfolding insert_page
insert_page_keeps ix pg cur h key val =
    let wrote = write_record_keeps ix key val in
    let full = full_page_keeps ix pg cur in
    elim (Bool-cases (leb slots_per_page pg.count)) [
      | inl e ↦ rw (e, insert_page) full
      | inr e ↦ elim (Bool-cases (fits_inline pg key val)) [
        | inl f ↦ rw (e, f, insert_page) refl
        | inr f ↦ elim (Result-cases (write_record ix key val).0) [
          | inl (off, r) ↦ rw (e, f, r, insert_page) wrote
          | inr (rc, r) ↦
              rw (e, f, r, insert_page)
                (touch_keeps (write_record ix key val).1 (append_failed pg h key (length val)) cur
                  ∙ wrote)
        ]
      ]
    ]

replace_keeps :
    (ix : Index) (pg : Page) (cur i : ℕ) (s : Slot) (key val : List ℕ)
    → inodes (replace ix pg cur i s key val).1 ≡ inodes ix
unfolding replace
replace_keeps ix pg cur i s key val =
    let wrote = write_record_keeps ix key val in
    elim (Bool-cases (leb (length val) s.vlen)) [
      | inl short ↦ elim (Bool-cases (is_inline s)) [
        | inl own ↦ rw (short, own, replace) refl
        | inr far ↦ rw (short, far, replace) refl
      ]
      | inr long ↦ elim (Result-cases (write_record ix key val).0) [
        | inl (off, r) ↦ rw (long, r, replace) wrote
        | inr (rc, r) ↦ rw (long, r, replace) wrote
      ]
    ]

put_page_keeps :
    (ix : Index) (pg : Page) (cur h : ℕ) (key val : List ℕ)
    → inodes (put_page ix pg cur h key val).1 ≡ inodes ix
unfolding put_page
put_page_keeps ix pg cur h key val = elim (Option-cases (find_match 0 (live pg) h key)) [
  | inl e ↦ rw (e, put_page) (insert_page_keeps ix pg cur h key val)
  | inr (i, e) ↦ rw (e, put_page) (replace_keeps ix pg cur i (get_or pg.slots i zero_slot) key val)
]

-- How a loop goes on behind a turn.
Turn-cases :
    (t : Turn) → ((rc : Rc) × (t ≡ finish rc)) ⊎ (((off : ℕ) × (t ≡ go_on off)) ⊎ (t ≡ restart))
Turn-cases (finish rc) = inl (rc, refl)
Turn-cases (go_on off) = inr (inl (off, refl))
Turn-cases restart = inr (inr refl)

put_chain_keeps :
    (fuel : ℕ) (ix : Index) (cur h : ℕ) (key val : List ℕ)
    → inodes (put_chain fuel ix cur h key val).1 ≡ inodes ix
unfolding put_chain
put_chain_keeps zero ix cur h key val = refl
put_chain_keeps (suc fuel) ix cur h key val = elim (Bool-cases (cur == 0)) [
  | inl z ↦ rw (z, put_chain) refl
  | inr z ↦ elim (Option-cases (load ix cur).0) [
    | inl e ↦ rw (z, e, put_chain) (load_keeps ix cur)
    | inr (pg, e) ↦
        let ix1 = (load ix cur).1 in
        let ix2 = (put_page ix1 pg cur h key val).1 in
        let kept = put_page_keeps ix1 pg cur h key val ∙ load_keeps ix cur in
        elim (Turn-cases (put_page ix1 pg cur h key val).0) [
          | inl (rc, t) ↦ rw (z, e, t, put_chain) kept
          | inr (inl (off, t)) ↦
              rw (z, e, t, put_chain) (put_chain_keeps fuel ix2 off h key val ∙ kept)
          | inr (inr t) ↦ elim (Result-cases (start_page ix2 h).0) [
            | inl (off, r) ↦
                rw (z, e, t, r, put_chain)
                  (put_chain_keeps fuel (start_page ix2 h).1 off h key val
                    ∙ start_page_keeps ix2 h
                    ∙ kept)
            | inr (rc, r) ↦ rw (z, e, t, r, put_chain) (start_page_keeps ix2 h ∙ kept)
          ]
        ]
  ]
]

insert_chain_keeps :
    (fuel : ℕ) (ix : Index) (cur h : ℕ) (key val : List ℕ)
    → inodes (insert_chain fuel ix cur h key val).1 ≡ inodes ix
unfolding insert_chain
insert_chain_keeps zero ix cur h key val = refl
insert_chain_keeps (suc fuel) ix cur h key val = elim (Bool-cases (cur == 0)) [
  | inl z ↦ rw (z, insert_chain) refl
  | inr z ↦ elim (Option-cases (load ix cur).0) [
    | inl e ↦ rw (z, e, insert_chain) (load_keeps ix cur)
    | inr (pg, e) ↦
        let ix1 = (load ix cur).1 in
        let ix2 = (insert_page ix1 pg cur h key val).1 in
        let kept = insert_page_keeps ix1 pg cur h key val ∙ load_keeps ix cur in
        elim (Turn-cases (insert_page ix1 pg cur h key val).0) [
          | inl (rc, t) ↦ rw (z, e, t, insert_chain) kept
          | inr (inl (off, t)) ↦
              rw (z, e, t, insert_chain) (insert_chain_keeps fuel ix2 off h key val ∙ kept)
          | inr (inr t) ↦ elim (Result-cases (start_page ix2 h).0) [
            | inl (off, r) ↦
                rw (z, e, t, r, insert_chain)
                  (put_chain_keeps fuel (start_page ix2 h).1 off h key val
                    ∙ start_page_keeps ix2 h
                    ∙ kept)
            | inr (rc, r) ↦ rw (z, e, t, r, insert_chain) (start_page_keeps ix2 h ∙ kept)
          ]
        ]
  ]
]

pub paged_insert_keeps :
    (fuel : ℕ) (ix : Index) (key val : List ℕ) → inodes (paged_insert fuel ix key val).1 ≡ inodes ix
unfolding paged_insert
paged_insert_keeps fuel ix key val =
    let h = xxh64 key in
    elim (Result-cases (start_page ix h).0) [
      | inl (off, r) ↦
          rw (r, paged_insert)
            (insert_chain_keeps fuel (start_page ix h).1 off h key val ∙ start_page_keeps ix h)
      | inr (rc, r) ↦ rw (r, paged_insert) (start_page_keeps ix h)
    ]
