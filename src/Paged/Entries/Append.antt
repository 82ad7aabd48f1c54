-- ===== src/Paged/Entries/Append.antt =====
-- `append_inline` puts an entry behind those of the page.
use xxfs.Base.{
  ℕ, zero, suc, ◌+◌, ◌≤◌, ◌<◌, ◌≡◌, inl, refl, sym, ap, ap₂, ◌∙◌, arith, List, [], ◌∷◌, ◌++◌,
  length, length-set, take, take-append, take-set, length-take, length-append, length-drop, drop,
  set, get_or, u16,
}
use xxfs.Os.Image.{put_bytes, slice, slice-put_bytes_self, slice-put_bytes_apart, length-put_bytes}
use xxfs.Paged.Entries.{
  slot_key, slot_val, IsEntry, AllEntries, IsEntries, slots_entries, page_entries,
}
use xxfs.Paged.Hash.{xxh64}
use xxfs.Paged.Page.{
  Slot, Page, zero_slot, slots_per_page, inline_space, slot_inline, key_prefix_len,
}
use xxfs.Paged.Hash.Range.{xxh64_bounds}
use xxfs.Paged.Page.Codec.{IsSlot, AllSlots, IsPage}
use xxfs.Paged.Slots.{prefix_len, live, new_slot, next_slot, append_inline}

-- A page that has all the bytes that the slots of another use.
module _ (pg pg' : Page) (more : pg.inline_used ≤ pg'.inline_used)
    (same : (off n : ℕ)
      → off + n ≤ pg.inline_used
      → slice pg'.inline_area off n ≡ slice pg.inline_area off n) where
  module _ (s : Slot) (is : IsEntry pg s) where
    slot_key_same : slot_key pg' s ≡ slot_key pg s
    unfolding slot_key
    slot_key_same = same s.file_off s.klen (omega (arith, is.inside))

    slot_val_same : slot_val pg' s ≡ slot_val pg s
    unfolding slot_val
    slot_val_same = same (s.file_off + s.klen) s.vlen is.inside

    IsEntry-same : IsEntry pg' s
    IsEntry-same = record {
      hash = is.hash ∙ ap xxh64 (sym slot_key_same);
      flags = is.flags;
      inside = omega (arith, is.inside);
      key_prefix = rw (slot_key_same) is.key_prefix;
    }

  AllEntries-same : (ss : List Slot) → AllEntries pg ss → AllEntries pg' ss
  AllEntries-same [] all = all
  AllEntries-same (s ∷ ss) (is, all) = (IsEntry-same s is, AllEntries-same ss all)

  slots_entries_same :
      (ss : List Slot) → AllEntries pg ss → slots_entries pg' ss ≡ slots_entries pg ss
  unfolding slots_entries
  slots_entries_same [] all = refl
  slots_entries_same (s ∷ ss) (is, all) =
      rw (slot_key_same s is, slot_val_same s is, slots_entries_same ss all)

slots_entries-append :
    (pg : Page) (ss : List Slot) (s : Slot)
    → slots_entries pg (ss ++ s ∷ []) ≡ slots_entries pg ss ++ (slot_key pg s, slot_val pg s) ∷ []
unfolding slots_entries
slots_entries-append pg [] s = refl
slots_entries-append pg (t ∷ ss) s =
    ap (λ es. (slot_key pg t, slot_val pg t) ∷ es) (slots_entries-append pg ss s)

AllEntries-append :
    (pg : Page) (ss : List Slot) (s : Slot)
    → AllEntries pg ss
    → IsEntry pg s
    → AllEntries pg (ss ++ s ∷ [])
AllEntries-append pg [] s all is = (is, tt)
AllEntries-append pg (t ∷ ss) s (first, all) is = (first, AllEntries-append pg ss s all is)

get_or-IsSlot :
    (ss : List Slot) (i : ℕ) → AllSlots ss → i < length ss → IsSlot (get_or ss i zero_slot)
get_or-IsSlot [] i all h = absurd (omega arith)
get_or-IsSlot (s ∷ ss) zero (is, all) h = is
get_or-IsSlot (s ∷ ss) (suc i) (is, all) h = get_or-IsSlot ss i all (omega arith)

set-AllSlots : (ss : List Slot) (i : ℕ) (v : Slot) → AllSlots ss → IsSlot v → AllSlots (set ss i v)
set-AllSlots [] i v all is = all
set-AllSlots (s ∷ ss) zero v (first, all) is = (is, all)
set-AllSlots (s ∷ ss) (suc i) v (first, all) is = (first, set-AllSlots ss i v all is)

module _ (pg : Page) (key val : List ℕ) (wf : IsEntries pg) (free : pg.count < slots_per_page)
    (room : pg.inline_used + length key + length val ≤ inline_space) where
  abbrev grown : Page
  grown = append_inline pg (xxh64 key) key val

  abbrev added : Slot
  added = record (new_slot (next_slot pg) (xxh64 key) key (length val)) {
    file_off = pg.inline_used;
    flags = slot_inline;
  }

  used_grown : grown.inline_used ≡ pg.inline_used + (length key + length val)
  unfolding append_inline
  used_grown = omega arith

  live-grown : live grown ≡ live pg ++ added ∷ []
  unfolding append_inline
  live-grown =
      ap (λ (n : ℕ). take n (set pg.slots pg.count added)) count_suc
      ∙ take-set pg.count pg.slots added (omega (arith, wf.page.length_slots))
    where
      count_suc : u16 (pg.count + 1) ≡ suc pg.count
      count_suc = omega arith

  -- The bytes below the old mark are as they were.
  area_below :
      (off n : ℕ)
      → off + n ≤ pg.inline_used
      → slice grown.inline_area off n ≡ slice pg.inline_area off n
  unfolding append_inline
  area_below off n h =
      slice-put_bytes_apart (put_bytes pg.inline_area pg.inline_used key)
        (pg.inline_used + length key) val off n (inl (omega arith))
      ∙ slice-put_bytes_apart pg.inline_area pg.inline_used key off n (inl h)

  slot_key-added : slot_key grown added ≡ key
  unfolding append_inline slot_key new_slot
  slot_key-added =
      slice-put_bytes_apart (put_bytes pg.inline_area pg.inline_used key)
        (pg.inline_used + length key) val pg.inline_used (length key) (inl (omega arith))
      ∙ slice-put_bytes_self pg.inline_area pg.inline_used key

  slot_val-added : slot_val grown added ≡ val
  unfolding append_inline slot_val new_slot
  slot_val-added =
      slice-put_bytes_self (put_bytes pg.inline_area pg.inline_used key)
        (pg.inline_used + length key) val

  prefix_added : take (prefix_len key) added.key_prefix ≡ take (prefix_len key) key
  unfolding new_slot
  prefix_added =
      take-append (prefix_len key) (take (prefix_len key) key)
        (drop (prefix_len key) (next_slot pg).key_prefix)
        (length-take (prefix_len key) key (ground arith))

  added-IsEntry : IsEntry grown added
  added-IsEntry = record {
    hash = unfold new_slot in ap xxh64 (sym slot_key-added);
    flags = refl;
    inside = unfold new_slot in omega (arith, used_grown);
    key_prefix = rw slot_key-added prefix_added;
  }

  area_grown : length grown.inline_area ≡ inline_space
  unfolding append_inline
  area_grown =
      let first : length (put_bytes pg.inline_area pg.inline_used key) ≡ length pg.inline_area =
        length-put_bytes pg.inline_area pg.inline_used key (omega (arith, wf.page.length_inline)) in
      length-put_bytes (put_bytes pg.inline_area pg.inline_used key) (pg.inline_used + length key)
        val (omega (arith, wf.page.length_inline))
      ∙ first
      ∙ wf.page.length_inline

  slots_grown : length grown.slots ≡ slots_per_page
  unfolding append_inline
  slots_grown = length-set pg.slots pg.count added ∙ wf.page.length_slots

  next_slot-IsSlot : IsSlot (next_slot pg)
  next_slot-IsSlot =
      get_or-IsSlot pg.slots pg.count wf.page.slots (omega (arith, wf.page.length_slots))

  length-prefix : length added.key_prefix ≡ key_prefix_len
  unfolding new_slot
  length-prefix = omega (
    arith,
    length-append (take (prefix_len key) key) (drop (prefix_len key) (next_slot pg).key_prefix),
    length-take (prefix_len key) key (ground arith),
    length-drop (prefix_len key) (next_slot pg).key_prefix
        (ground (arith, next_slot-IsSlot.key_prefix)),
    next_slot-IsSlot.key_prefix,
  )

  added-IsSlot : IsSlot added
  added-IsSlot = record {
    hash = unfold new_slot in (xxh64_bounds key).1;
    file_off = omega (arith, wf.used);
    klen = unfold new_slot in omega arith;
    vlen = unfold new_slot in omega arith;
    key_prefix = length-prefix;
    flags = omega arith;
    pad = unfold new_slot in next_slot-IsSlot.pad;
  }

  grown-IsPage : IsPage grown
  grown-IsPage = record {
    count = unfold append_inline in omega arith;
    local_depth = unfold append_inline in wf.page.local_depth;
    inline_used = omega (arith, used_grown);
    overflow_next = unfold append_inline in wf.page.overflow_next;
    length_slots = slots_grown;
    slots = unfold append_inline in set-AllSlots pg.slots pg.count added wf.page.slots added-IsSlot;
    length_inline = area_grown;
  }

  -- With a free slot and room in the inline area, `append_inline` puts the entry behind those of the
  -- page, and the page still holds entries only.
  pub append_inline-page_entries :
      (page_entries grown ≡ page_entries pg ++ (key, val) ∷ []) × IsEntries grown
  append_inline-page_entries = (
    ap (slots_entries grown) live-grown
        ∙ slots_entries-append grown (live pg) added
        ∙ ap₂ ◌++◌
            (slots_entries_same pg grown (omega (arith, used_grown)) area_below (live pg) wf.all)
            (ap₂ (λ k v. (k, v) ∷ []) slot_key-added slot_val-added),
    record {
      page = grown-IsPage;
      count = unfold append_inline in omega arith;
      used = omega (arith, used_grown);
      all = rw live-grown (
          AllEntries-append grown (live pg) added
            (AllEntries-same pg grown (omega (arith, used_grown)) area_below (live pg) wf.all)
            added-IsEntry);
    },
  )
