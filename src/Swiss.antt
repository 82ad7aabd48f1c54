-- ===== src/Swiss.antt =====
-- lib/xxfs.c: `struct dp_table` and `table_init` to `table_del`, a hash table of groups of 16 places
-- with a control byte each, which no other part of the library fills. An array is the list of its elements, and a null pointer is `[]`.
pub mod Counts
pub mod Groups
pub mod Insert
pub mod Loops
pub mod RoundTrip
pub mod Grow
pub mod Lost
pub mod Match
use xxfs.Base.{
  ℕ, zero, suc, ◌+◌, ◌-◌, ◌*◌, ◌/◌, ◌%◌, ◌^◌, Bool, true, false, not, ◌&&◌, ◌||◌, Option, none,
  some, List, [], ◌∷◌, ◌==◌, ltb, leb, if◌then◌else◌, get_or, set, take, replicate, bit_and, u32,
  u64, sub64,
}
use xxfs.Os.{Os, os_alloc}
use xxfs.Paged.Index.{Rc, ok, enoent, enomem}
use xxfs.Paged.Slots.{bytes_eq}

-- `GROUP_SIZE`
abbrev pub group_size : ℕ
group_size = 16

-- `CTRL_EMPTY`
abbrev pub ctrl_empty : ℕ
ctrl_empty = 0x80

-- `CTRL_DELETED`
abbrev pub ctrl_deleted : ℕ
ctrl_deleted = 0xFE

-- `struct dp_slot`, with the bytes that its pointers point to.
pub record DpSlot : Type 0 where
  pub hash : ℕ
  pub key : Option (List ℕ)
  pub val : Option (List ℕ)
  pub klen : ℕ
  pub vlen : ℕ
  pub file_off : ℕ

abbrev pub zero_dp_slot : DpSlot
zero_dp_slot = record { hash = 0; key = none; val = none; klen = 0; vlen = 0; file_off = 0 }

-- `struct dp_table`
pub record DpTable : Type 0 where
  pub ctrl : List ℕ
  pub slots : List DpSlot
  pub cap : ℕ
  pub mask : ℕ
  pub count : ℕ
  pub tombstones : ℕ
  pub grow_at : ℕ
  pub old_ctrl : List ℕ
  pub old_slots : List DpSlot
  pub old_cap : ℕ
  pub old_mask : ℕ
  pub old_migrated : ℕ
  pub old_grow_at : ℕ

abbrev pub table_init : DpTable
table_init = record {
  ctrl = [];
  slots = [];
  cap = 0;
  mask = 0;
  count = 0;
  tombstones = 0;
  grow_at = 0;
  old_ctrl = [];
  old_slots = [];
  old_cap = 0;
  old_mask = 0;
  old_migrated = 0;
  old_grow_at = 0;
}

abbrev pub table_destroy : DpTable → DpTable
table_destroy t = record t { ctrl = []; slots = []; old_ctrl = []; old_slots = [] }

-- The two allocations are made in any case.
unfoldable pub table_alloc : DpTable → ℕ → Os → Rc × DpTable × Os
table_alloc t size os =
    let (ctrl_room, os1) = os_alloc os in
    let (slots_room, os2) = os_alloc os1 in
    let sized = record t {
      cap = size;
      mask = sub64 size 1;
      grow_at = u64 (size * 14) / group_size;
    } in
    if ctrl_room && slots_room
    then (
      ok,
      record sized { ctrl = replicate size ctrl_empty; slots = replicate size zero_dp_slot },
      os2,
    )
    else (enomem, table_destroy sized, os2)

abbrev pub ctrl_at : List ℕ → ℕ → ℕ
ctrl_at ctrl i = get_or ctrl i ctrl_empty

abbrev pub dp_slot_at : List DpSlot → ℕ → DpSlot
dp_slot_at slots i = get_or slots i zero_dp_slot

abbrev pub ctrl_tag : ℕ → ℕ
ctrl_tag hash = hash % 2 ^ 7

unfoldable pub group_idx : ℕ → ℕ → ℕ
group_idx hash mask = bit_and (hash / 2 ^ 7) (mask / group_size)

-- `(g + 1) & (nr - 1)`
unfoldable pub next_group : ℕ → ℕ → ℕ
next_group nr g = bit_and (u64 (g + 1)) (sub64 nr 1)

-- The places from `i` on with this control byte, in the order in which `__builtin_ctz` gives the
-- bits of the mask.
unfoldable pub match_from : ℕ → List ℕ → ℕ → ℕ → List ℕ
match_from zero ctrl i tag = []
match_from (suc left) ctrl i tag =
    let rest = match_from left ctrl (i + 1) tag in if ctrl_at ctrl i == tag then i ∷ rest else rest

-- `match_group` of the group `g`; with `CTRL_EMPTY` it is `match_empty`.
abbrev pub match_group : List ℕ → ℕ → ℕ → List ℕ
match_group ctrl g tag = match_from group_size ctrl (g * group_size) tag

abbrev pub first_of : List ℕ → Option ℕ
first_of [] = none
first_of (i ∷ is) = some i

-- `xxfs_os_memcmp`, behind the test for a null pointer.
abbrev pub same_key : Option (List ℕ) → List ℕ → ℕ → Bool
same_key none key klen = false
same_key (some k) key klen = bytes_eq (take klen k) (take klen key)

abbrev pub is_slot : DpSlot → ℕ → List ℕ → ℕ → Bool
is_slot s hash key klen = s.hash == hash && (s.klen == klen && same_key s.key key klen)

-- The loop over the set bits.
unfoldable pub match_key : List ℕ → List DpSlot → ℕ → List ℕ → ℕ → Option ℕ
match_key [] slots hash key klen = none
match_key (i ∷ is) slots hash key klen =
    let rest = match_key is slots hash key klen in
    if is_slot (dp_slot_at slots i) hash key klen then some i else rest

abbrev pub found_in : Option ℕ → Option ℕ → List ℕ → Option ℕ
found_in rest (some i) empties = some i
found_in rest none [] = rest
found_in rest none (e ∷ es) = none

-- The groups from `g` on, up to one with a free place.
unfoldable pub find_from : ℕ → List ℕ → List DpSlot → ℕ → ℕ → ℕ → List ℕ → ℕ → Option ℕ
unfolding match_from match_key next_group
find_from zero ctrl slots nr g hash key klen = none
find_from (suc probes) ctrl slots nr g hash key klen =
    let rest = find_from probes ctrl slots nr (next_group nr g) hash key klen in
    found_in rest (match_key (match_group ctrl g (ctrl_tag hash)) slots hash key klen)
      (match_group ctrl g ctrl_empty)

-- `none` is -1.
unfoldable pub table_find : DpTable → ℕ → List ℕ → ℕ → Option ℕ
unfolding find_from group_idx
table_find t hash key klen =
    let nr = t.cap / group_size in
    find_from nr t.ctrl t.slots nr (group_idx hash t.mask) hash key klen

-- Where `table_insert` stores: in the slot that has the key, in a place of a group that has a free
-- one, in a deleted place behind the loop, or nowhere.
pub data Place : Type 0 where
  there fresh reused : ℕ → Place
  nowhere : Place

abbrev pub first_deleted : Option ℕ → List ℕ → Option ℕ
first_deleted (some i) deleted = some i
first_deleted none deleted = first_of deleted

abbrev pub behind_loop : Option ℕ → Place
behind_loop none = nowhere
behind_loop (some i) = reused i

abbrev pub or_free : Option ℕ → ℕ → Place
or_free none e = fresh e
or_free (some i) e = fresh i

abbrev pub in_group : Place → Option ℕ → Option ℕ → List ℕ → Place
in_group rest (some i) first_del empties = there i
in_group rest none first_del [] = rest
in_group rest none first_del (e ∷ es) = or_free first_del e

-- The loop of `table_insert`.
unfoldable pub find_place : ℕ → List ℕ → List DpSlot → ℕ → ℕ → Option ℕ → ℕ → List ℕ → ℕ → Place
unfolding match_from match_key next_group
find_place zero ctrl slots nr g first_del hash key klen = behind_loop first_del
find_place (suc probes) ctrl slots nr g first_del hash key klen =
    let del = first_deleted first_del (match_group ctrl g ctrl_deleted) in
    let rest = find_place probes ctrl slots nr (next_group nr g) del hash key klen in
    in_group rest (match_key (match_group ctrl g (ctrl_tag hash)) slots hash key klen) del
      (match_group ctrl g ctrl_empty)

abbrev pub put_entry : DpTable → ℕ → DpSlot → DpTable
put_entry t i s = record t {
  ctrl = set t.ctrl i (ctrl_tag s.hash);
  slots = set t.slots i s;
  count = u64 (t.count + 1);
}

-- A place that was deleted is a tombstone less.
abbrev pub raised : DpTable → DpTable
raised t = record t { tombstones = sub64 t.tombstones 1 }

abbrev pub put_at : DpTable → DpSlot → Place → ℕ × DpTable
put_at t s (there i) =
    let old = dp_slot_at t.slots i in
    (
      1,
      record t {
        slots = set t.slots i (record old { val = s.val; vlen = s.vlen; file_off = s.file_off });
      },
    )
put_at t s (fresh i) =
    let t' = put_entry t i s in (0, if ctrl_at t.ctrl i == ctrl_deleted then raised t' else t')
put_at t s (reused i) = (0, raised (put_entry t i s))
put_at t s nowhere = (2 ^ 32 - 1, t)

-- The bytes of a pointer that is not null.
abbrev pub key_bytes : Option (List ℕ) → List ℕ
key_bytes none = []
key_bytes (some k) = k

-- The arguments behind the table make up a slot; -1 is 2 ^ 32 - 1.
unfoldable pub table_insert : DpTable → DpSlot → ℕ × DpTable
unfolding find_place group_idx
table_insert t s =
    let nr = t.cap / group_size in
    put_at t s (
      find_place nr t.ctrl t.slots nr (group_idx s.hash t.mask) none s.hash (key_bytes s.key)
        s.klen)

abbrev pub entry_cleared : DpTable → ℕ → DpTable
entry_cleared t i = record t {
  slots = set t.slots i zero_dp_slot;
  ctrl = set t.ctrl i ctrl_deleted;
  count = sub64 t.count 1;
  tombstones = u64 (t.tombstones + 1);
}

abbrev pub del_at : DpTable → Option ℕ → Rc × DpTable
del_at t none = (enoent, t)
del_at t (some i) = (ok, entry_cleared t i)

unfoldable pub table_del : DpTable → ℕ → List ℕ → ℕ → Rc × DpTable
unfolding table_find
table_del t hash key klen = del_at t (table_find t hash key klen)
