-- ===== src/Paged/Index/Get.antt =====
-- lib/xxfs.c: `paged_get`. `room` is what `*vlen` says of the buffer; the loop over the pages of a
-- chain has a fuel, which is used up only by a chain that is longer.
pub mod Chain
pub mod Slots
use xxfs.Base.{
  ℕ, zero, suc, ◌+◌, Bool, true, false, not, ◌&&◌, ◌||◌, Option, none, some, List, [], ◌∷◌, ◌==◌,
  leb, ltb, if◌then◌else◌, length, u32,
}
use xxfs.Os.{Os, file_pread}
use xxfs.Os.Image.{slice, padded}
use xxfs.Paged.Dir.{entry, no_offset}
use xxfs.Paged.Hash.{xxh64, dir_index}
use xxfs.Paged.Index.{Rc, enoent, enospc, eio, Result, done, error, Index, load, buffer}
use xxfs.Paged.Page.{Slot, Page, key_prefix_len}
use xxfs.Paged.Slots.{bytes_eq, matches, is_inline, live}

-- A long key is compared in full; `bytes` begins with the slot's key.
abbrev pub other_key : List ℕ → List ℕ → Bool
other_key key bytes =
    ltb key_prefix_len (length key) && not (bytes_eq key (slice bytes 0 (length key)))

-- The value behind the key, if the caller has room for it.
abbrev pub value_for : Slot → List ℕ → ℕ → List ℕ → Option (Result (List ℕ))
value_for s key room bytes =
    if other_key key bytes
    then none
    else if ltb room s.vlen
    then some (error enospc)
    else some (done (slice bytes (length key) s.vlen))

-- A slot that matches, in the inline area; `none` is `continue`.
unfoldable pub get_inline : Page → Slot → List ℕ → ℕ → Option (Result (List ℕ))
get_inline pg s key room =
    value_for s key room (slice pg.inline_area s.file_off (length key + s.vlen))

-- A slot that matches, with its bytes in a record. What a short read leaves in the buffer is
-- undefined in C, and zeros here.
unfoldable pub get_record : Os → Slot → List ℕ → ℕ → Option (Result (List ℕ)) × Os
unfolding buffer
get_record os s key room =
    let len = u32 (8 + length key + s.vlen) in
    let (has_buffer, os1) = buffer os len in
    let (bytes, os2) = file_pread os1 len s.file_off in
    if has_buffer
    then (
      elim bytes [
        | none ↦ none
        | some bs ↦ value_for s key room (slice (padded bs len) 8 (length key + s.vlen))
      ],
      os2,
    )
    else (none, os1)

-- A slot that matches.
unfoldable pub get_slot : Os → Page → Slot → List ℕ → ℕ → Option (Result (List ℕ)) × Os
unfolding get_inline get_record
get_slot os pg s key room =
    if is_inline s then (get_inline pg s key room, os) else get_record os s key room

-- The loop over the slots of one page.
unfoldable pub get_slots : Os → Page → List Slot → ℕ → List ℕ → ℕ → Option (Result (List ℕ)) × Os
unfolding get_slot
get_slots os pg [] h key room = (none, os)
get_slots os pg (s ∷ ss) h key room = elim (matches s h key) [
  | false ↦ get_slots os pg ss h key room
  | true ↦
      let (reply, os1) = get_slot os pg s key room in
      elim reply [ none ↦ get_slots os1 pg ss h key room | some r ↦ (some r, os1) ]
]

-- The loop over the pages of a chain.
unfoldable pub get_chain : ℕ → Index → ℕ → ℕ → List ℕ → ℕ → Option (Result (List ℕ)) × Index
unfolding get_slots load
get_chain zero ix cur h key room = (none, ix)
get_chain (suc fuel) ix cur h key room = elim (cur == 0) [
  | true ↦ (some (error enoent), ix)
  | false ↦
      let (page, ix1) = load ix cur in
      elim page [
        | none ↦ (some (error eio), ix1)
        | some pg ↦
            let (reply, os) = get_slots ix1.os pg (live pg) h key room in
            let ix2 = record ix1 { os = os } in
            elim reply [
              | some r ↦ (some r, ix2)
              | none ↦ get_chain fuel ix2 pg.overflow_next h key room
            ]
      ]
]

unfoldable pub paged_get : ℕ → Index → List ℕ → ℕ → Option (Result (List ℕ)) × Index
unfolding get_chain
paged_get fuel ix key room =
    let h = xxh64 key in
    let i = dir_index h ix.pdir.global_depth in
    if leb ix.pdir.dir_size i || entry ix.pdir i == no_offset
    then (some (error enoent), ix)
    else get_chain fuel ix (entry ix.pdir i) h key room
