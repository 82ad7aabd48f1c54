-- ===== src/Paged/Entries.antt =====
-- The index as a list of keys with their values, page by page along a chain, and when the pages hold
-- such a list.
pub mod Append
pub mod Lookup
pub mod Match
use xxfs.Base.{
  ℕ, ◌+◌, ◌≤◌, ◌<◌, ◌≡◌, ◌≢◌, Bool, true, false, Option, none, some, List, [], ◌∷◌, ◌++◌,
  if◌then◌else◌, ltb, length, take,
}
use xxfs.Os.Image.{slice}
use xxfs.Paged.Cache.Coherent.{IsBlock}
use xxfs.Paged.Hash.{xxh64}
use xxfs.Paged.Index.{Rc, enoent, enospc, Result, done, error}
use xxfs.Paged.Page.{Slot, Page, slots_per_page, inline_space, slot_inline}
use xxfs.Paged.Page.Codec.{IsPage}
use xxfs.Paged.Slots.{bytes_eq, prefix_len, live}

-- A key and its value.
abbrev pub Entry : Type 0
Entry = List ℕ × List ℕ

unfoldable pub slot_key : Page → Slot → List ℕ
slot_key pg s = slice pg.inline_area s.file_off s.klen

unfoldable pub slot_val : Page → Slot → List ℕ
slot_val pg s = slice pg.inline_area (s.file_off + s.klen) s.vlen

-- The slot of an entry whose bytes are in the inline area.
pub record IsEntry (pg : Page) (s : Slot) : Type 0 where
  pub hash : s.hash ≡ xxh64 (slot_key pg s)
  pub flags : s.flags ≡ slot_inline
  pub inside : s.file_off + s.klen + s.vlen ≤ pg.inline_used
  pub key_prefix :
      take (prefix_len (slot_key pg s)) s.key_prefix
      ≡ take (prefix_len (slot_key pg s)) (slot_key pg s)

abbrev pub AllEntries : Page → List Slot → Type 0
AllEntries pg [] = Unit
AllEntries pg (s ∷ ss) = IsEntry pg s × AllEntries pg ss

-- A page whose slots in use all are entries in the inline area.
pub record IsEntries (pg : Page) : Type 0 where
  pub page : IsPage pg
  pub count : pg.count ≤ slots_per_page
  pub used : pg.inline_used ≤ inline_space
  pub all : AllEntries pg (live pg)

unfoldable pub slots_entries : Page → List Slot → List Entry
slots_entries pg [] = []
slots_entries pg (s ∷ ss) = (slot_key pg s, slot_val pg s) ∷ slots_entries pg ss

abbrev pub page_entries : Page → List Entry
page_entries pg = slots_entries pg (live pg)

-- The value of the first entry with the key.
unfoldable pub lookup : List Entry → List ℕ → Option (List ℕ)
lookup [] key = none
lookup ((k, v) ∷ es) key = if bytes_eq k key then some v else lookup es key

-- What a caller with `room` bytes is to get.
abbrev pub answer : ℕ → Option (List ℕ) → Result (List ℕ)
answer room none = error enoent
answer room (some v) = if ltb room (length v) then error enospc else done v

-- The pages at the offsets, in the order of their links, from `cur` on.
abbrev pub IsChain : (ℕ → Page) → ℕ → List ℕ → Type 0
IsChain pages cur [] = cur ≡ 0
IsChain pages cur (o ∷ offs) =
    (cur ≡ o)
    × (o ≢ 0)
    × IsBlock o
    × IsEntries (pages o)
    × IsChain pages (pages o).overflow_next offs

unfoldable pub chain_entries : (ℕ → Page) → List ℕ → List Entry
chain_entries pages [] = []
chain_entries pages (o ∷ offs) = page_entries (pages o) ++ chain_entries pages offs
