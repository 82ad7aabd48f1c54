-- ===== src/Paged/Index/Put.antt =====
-- lib/xxfs.c: `paged_put`, `paged_insert` and `page_split_and_retry`. The two loops over the pages of
-- a chain and the retry share one fuel; a turn of a loop says how it goes on.
pub mod Insert
pub mod Kept
pub mod Room
pub mod Split
pub mod Steps
use xxfs.Base.{
  ℕ, zero, suc, ◌+◌, ◌-◌, ◌^◌, Bool, true, false, not, ◌&&◌, Option, none, some, List, [], ◌∷◌,
  ◌==◌, leb, if◌then◌else◌, length, get_or, set, take, bit_and, u8, u64,
}
use xxfs.Os.{file_pwrite}
use xxfs.Paged.Cache.{page_cache_invalidate}
use xxfs.Paged.Dir.{Dir, paged_dir_double}
use xxfs.Paged.Hash.{xxh64}
use xxfs.Paged.Index.{
  Rc, ok, enospc, eio, enomem, Result, done, error, Index, pages_of, with_pages, load, write_back,
  allocate, touch, write_record, make_page, start_page,
}
use xxfs.Paged.Page.{Slot, Page, zero_slot, slots_per_page, empty_page, page_bytes}
use xxfs.Paged.Slots.{
  is_inline, live, find_match, fits_inline, append_inline, append_record, append_failed,
  replace_inline, distribute, cleared,
}

-- How a turn ends: with a code, at another page of the chain, or with a new `paged_put`.
pub data Turn : Type 0 where
  finish : Rc → Turn
  go_on : ℕ → Turn
  restart : Turn

-- The directory entries of the split page that have the bit get the new page.
unfoldable pub relabel : ℕ → ℕ → ℕ → ℕ → List ℕ → List ℕ
relabel i split_bit off new_off [] = []
relabel i split_bit off new_off (o ∷ os) =
    (if o == off && not (bit_and i split_bit == 0) then new_off else o)
    ∷ relabel (i + 1) split_bit off new_off os

-- `page_split_and_retry` from the new depth on.
unfoldable pub split_page : Index → Page → ℕ → Turn × Index
unfolding allocate write_back relabel
split_page ix pg cur =
    let depth = u8 (pg.local_depth + 1) in
    let (new_off, ix1) = allocate ix in
    let (low, high) =
      distribute depth (take pg.inline_used pg.inline_area) (live pg) (cleared pg depth)
        (empty_page depth) in
    let table = relabel 0 (2 ^ (depth - 1)) cur new_off ix1.pdir.page_off in
    let ix2 = record ix1 {
      os = (file_pwrite ix1.os (page_bytes high) new_off).1;
      pdir = record (ix1.pdir) { page_off = table };
    } in
    let ix3 = with_pages ix2 (page_cache_invalidate (pages_of ix2) new_off) in
    if new_off == 0 then (finish enospc, ix1) else (restart, write_back ix3 low cur)

-- `page_split_and_retry` up to its call of `paged_put`.
unfoldable pub page_split : Index → ℕ → Turn × Index
unfolding load split_page
page_split ix cur =
    let (page, ix1) = load ix cur in
    elim page [
      | none ↦ (finish eio, ix1)
      | some pg ↦
          let (d, os) = paged_dir_double ix1.pdir ix1.os in
          let ix2 = record ix1 { os = os } in
          if leb ix1.pdir.global_depth pg.local_depth
          then (if leb 20 ix1.pdir.global_depth then (finish enospc, ix1) else elim d [
            | none ↦ (finish enomem, ix2)
            | some d' ↦
                let (page', ix3) = load (record ix2 { pdir = d' }) cur in
                elim page' [ none ↦ (finish eio, ix3) | some pg' ↦ split_page ix3 pg' cur ]
          ])
          else split_page ix1 pg cur
    ]

-- A full page: the loop goes on at the next one, which is made if there is none.
unfoldable pub full_page : Index → Page → ℕ → Turn × Index
unfolding allocate write_back make_page page_split
full_page ix pg cur =
    let (new_off, ix1) = allocate ix in
    let ix2 = write_back ix1 (record pg { overflow_next = new_off }) cur in
    let (made, ix3) = make_page ix2 new_off pg.local_depth in
    if pg.overflow_next == 0
    then (if new_off == 0
        then page_split ix1 cur
        else if made
        then (go_on new_off, ix3)
        else (finish eio, ix3))
    else (go_on pg.overflow_next, ix)

-- A turn of the loop of `paged_insert`.
unfoldable pub insert_page : Index → Page → ℕ → ℕ → List ℕ → List ℕ → Turn × Index
unfolding full_page write_back touch write_record
insert_page ix pg cur h key val =
    let (wrote, ix1) = write_record ix key val in
    if leb slots_per_page pg.count
    then full_page ix pg cur
    else if fits_inline pg key val
    then (finish ok, write_back ix (append_inline pg h key val) cur)
    else elim wrote [
      | error rc ↦ (finish rc, touch ix1 (append_failed pg h key (length val)) cur)
      | done off ↦ (finish ok, write_back ix1 (append_record pg h key (length val) off) cur)
    ]

-- The value of an entry is replaced: in its place if it is not longer, else by a new record.
unfoldable pub replace : Index → Page → ℕ → ℕ → Slot → List ℕ → List ℕ → Turn × Index
unfolding write_back write_record
replace ix pg cur i s key val =
    let (wrote, ix1) = write_record ix key val in
    let over = file_pwrite ix.os val (u64 (s.file_off + 8 + length key)) in
    if leb (length val) s.vlen
    then (if is_inline s then (finish ok, write_back ix (replace_inline pg i s key val) cur) else (
      finish ok,
      write_back (record ix { os = over.1 })
          (record pg { slots = set pg.slots i (record s { vlen = length val }) }) cur,
    ))
    else elim wrote [
      | error rc ↦ (finish rc, ix1)
      | done off ↦ (
        finish ok,
        write_back ix1
            (record pg {
              slots = set pg.slots i (record s { vlen = length val; file_off = off; flags = 0 });
            })
            cur,
      )
    ]

-- A turn of the loop of `paged_put`.
unfoldable pub put_page : Index → Page → ℕ → ℕ → List ℕ → List ℕ → Turn × Index
unfolding insert_page replace
put_page ix pg cur h key val = elim (find_match 0 (live pg) h key) [
  | none ↦ insert_page ix pg cur h key val
  | some i ↦ replace ix pg cur i (get_or pg.slots i zero_slot) key val
]

-- The loop of `paged_put`, with the calls of `paged_put` that come back to it.
unfoldable pub put_chain : ℕ → Index → ℕ → ℕ → List ℕ → List ℕ → Option Rc × Index
unfolding load put_page start_page
put_chain zero ix cur h key val = (none, ix)
put_chain (suc fuel) ix cur h key val = elim (cur == 0) [
  | true ↦ (some enospc, ix)
  | false ↦
      let (page, ix1) = load ix cur in
      elim page [
        | none ↦ (some eio, ix1)
        | some pg ↦
            let (turn, ix2) = put_page ix1 pg cur h key val in
            elim turn [
              | finish rc ↦ (some rc, ix2)
              | go_on off ↦ put_chain fuel ix2 off h key val
              | restart ↦
                  let (start, ix3) = start_page ix2 h in
                  elim start [
                    | error rc ↦ (some rc, ix3)
                    | done off ↦ put_chain fuel ix3 off h key val
                  ]
            ]
      ]
]

unfoldable pub paged_put : ℕ → Index → List ℕ → List ℕ → Option Rc × Index
unfolding start_page put_chain
paged_put fuel ix key val =
    let h = xxh64 key in
    let (start, ix1) = start_page ix h in
    elim start [ error rc ↦ (some rc, ix1) | done off ↦ put_chain fuel ix1 off h key val ]

-- The loop of `paged_insert`; a split page makes it a `paged_put`.
unfoldable pub insert_chain : ℕ → Index → ℕ → ℕ → List ℕ → List ℕ → Option Rc × Index
unfolding load insert_page put_chain start_page
insert_chain zero ix cur h key val = (none, ix)
insert_chain (suc fuel) ix cur h key val = elim (cur == 0) [
  | true ↦ (some enospc, ix)
  | false ↦
      let (page, ix1) = load ix cur in
      elim page [
        | none ↦ (some eio, ix1)
        | some pg ↦
            let (turn, ix2) = insert_page ix1 pg cur h key val in
            elim turn [
              | finish rc ↦ (some rc, ix2)
              | go_on off ↦ insert_chain fuel ix2 off h key val
              | restart ↦
                  let (start, ix3) = start_page ix2 h in
                  elim start [
                    | error rc ↦ (some rc, ix3)
                    | done off ↦ put_chain fuel ix3 off h key val
                  ]
            ]
      ]
]

unfoldable pub paged_insert : ℕ → Index → List ℕ → List ℕ → Option Rc × Index
unfolding start_page insert_chain
paged_insert fuel ix key val =
    let h = xxh64 key in
    let (start, ix1) = start_page ix h in
    elim start [ error rc ↦ (some rc, ix1) | done off ↦ insert_chain fuel ix1 off h key val ]
