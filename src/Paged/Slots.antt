-- ===== src/Paged/Slots.antt =====
-- lib/xxfs.c: what `paged_get`, `paged_put`, `paged_insert`, `paged_del` and `page_split_and_retry`
-- do to the slots and the inline area of one page.
use xxfs.Base.{
  ℕ, ◌+◌, ◌-◌, ◌^◌, Bool, true, false, not, ◌&&◌, Option, none, some, List, [], ◌∷◌, ◌++◌, ◌==◌,
  ltb, leb, if◌then◌else◌, length, get_or, set, take, drop, replicate, bit_and, u16, u32,
}
use xxfs.Os.Image.{put_bytes, slice}
use xxfs.Paged.Hash.{dir_index}
use xxfs.Paged.Page.{
  Slot, Page, zero_slot, key_prefix_len, slots_per_page, inline_space, slot_inline,
}

-- `memcmp(a, b, n) == 0` on two blocks of the same length.
abbrev pub bytes_eq : List ℕ → List ℕ → Bool
bytes_eq [] [] = true
bytes_eq [] (b ∷ bs) = false
bytes_eq (a ∷ rest) [] = false
bytes_eq (a ∷ rest) (b ∷ bs) = a == b && bytes_eq rest bs

-- `pn`
abbrev pub prefix_len : List ℕ → ℕ
prefix_len key = if ltb (length key) key_prefix_len then length key else key_prefix_len

-- The hash, the length and the first bytes of the key are the slot's.
unfoldable pub matches : Slot → ℕ → List ℕ → Bool
matches s h key =
    s.hash == h
    && (s.klen == length key
        && bytes_eq (take (prefix_len key) s.key_prefix) (take (prefix_len key) key))

-- `s->flags & SLOT_F_INLINE`
abbrev pub is_inline : Slot → Bool
is_inline s = not (bit_and s.flags slot_inline == 0)

-- The slots in use; more than the array has is undefined in C.
abbrev pub live : Page → List Slot
live pg = take pg.count pg.slots

-- The first slot from `i` on that matches.
unfoldable pub find_match : ℕ → List Slot → ℕ → List ℕ → Option ℕ
find_match i [] h key = none
find_match i (s ∷ ss) h key = if matches s h key then some i else find_match (i + 1) ss h key

-- The new entry's slot, before its bytes have a place.
unfoldable pub new_slot : Slot → ℕ → List ℕ → ℕ → Slot
new_slot s h key vlen = record s {
  hash = h;
  klen = length key;
  vlen = vlen;
  key_prefix = take (prefix_len key) key ++ drop (prefix_len key) s.key_prefix;
  flags = 0;
}

-- Whether the new entry has room in the inline area.
unfoldable pub fits_inline : Page → List ℕ → List ℕ → Bool
fits_inline pg key val = leb (u32 (pg.inline_used + u32 (length key + length val))) inline_space

-- `pg->slots[pg->count]` before it is filled
abbrev pub next_slot : Page → Slot
next_slot pg = get_or pg.slots pg.count zero_slot

-- The page with a new entry in its inline area.
unfoldable pub append_inline : Page → ℕ → List ℕ → List ℕ → Page
unfolding new_slot
append_inline pg h key val =
    let s = new_slot (next_slot pg) h key (length val) in
    record pg {
      count = u16 (pg.count + 1);
      inline_used = u32 (pg.inline_used + u32 (length key + length val));
      slots = set pg.slots pg.count (record s { file_off = pg.inline_used; flags = slot_inline });
      inline_area =
          put_bytes (put_bytes pg.inline_area pg.inline_used key) (pg.inline_used + length key) val;
    }

-- The page with a new entry whose bytes are the record at `off`.
unfoldable pub append_record : Page → ℕ → List ℕ → ℕ → ℕ → Page
unfolding new_slot
append_record pg h key vlen off =
    let s = new_slot (next_slot pg) h key vlen in
    record pg {
      count = u16 (pg.count + 1);
      slots = set pg.slots pg.count (record s { file_off = off });
    }

-- What is left in the page when the record of a new entry could not be written.
unfoldable pub append_failed : Page → ℕ → List ℕ → ℕ → Page
unfolding new_slot
append_failed pg h key vlen = record pg {
  slots = set pg.slots pg.count (new_slot (next_slot pg) h key vlen);
}

-- A value written over a longer one, or one as long, in the inline area.
unfoldable pub replace_inline : Page → ℕ → Slot → List ℕ → List ℕ → Page
replace_inline pg i s key val = record pg {
  slots = set pg.slots i (record s { vlen = length val });
  inline_area = put_bytes pg.inline_area (s.file_off + length key) val;
}

-- The last slot in use moves into the place of slot `i`.
unfoldable pub delete_slot : Page → ℕ → Page
delete_slot pg i = record pg {
  count = pg.count - 1;
  slots =
      if ltb i (pg.count - 1)
      then set pg.slots i (get_or pg.slots (pg.count - 1) zero_slot)
      else pg.slots;
}

-- An entry of the page that is split comes to the end of the page `target`.
unfoldable pub place : List ℕ → Page → Slot → Page
place old_inline target s =
    let need = u32 (s.klen + s.vlen) in
    if is_inline s
    then record target {
      count = u16 (target.count + 1);
      slots = set target.slots target.count (record s { file_off = target.inline_used });
      inline_area =
          put_bytes target.inline_area target.inline_used (slice old_inline s.file_off need);
      inline_used = u32 (target.inline_used + need);
    }
    else record target { count = u16 (target.count + 1); slots = set target.slots target.count s }

-- `dir_index(s->hash, new_depth) & split_bit`
abbrev pub goes_up : ℕ → Slot → Bool
goes_up new_depth s = not (bit_and (dir_index s.hash new_depth) (2 ^ (new_depth - 1)) == 0)

-- The entries of the old page go, each in its turn, to it or to the new page.
unfoldable pub distribute : ℕ → List ℕ → List Slot → Page → Page → Page × Page
unfolding place
distribute new_depth old_inline [] pg new_pg = (pg, new_pg)
distribute new_depth old_inline (s ∷ ss) pg new_pg = elim (goes_up new_depth s) [
  | true ↦ distribute new_depth old_inline ss pg (place old_inline new_pg s)
  | false ↦ distribute new_depth old_inline ss (place old_inline pg s) new_pg
]

-- The old page without its entries; its inline area keeps the bytes it has.
unfoldable pub cleared : Page → ℕ → Page
cleared pg depth = record pg {
  count = 0;
  local_depth = depth;
  inline_used = 0;
  overflow_next = 0;
  slots = replicate slots_per_page zero_slot;
}
