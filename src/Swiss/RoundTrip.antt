-- ===== src/Swiss/RoundTrip.antt =====
-- `table_find` after `table_insert`, of a table that has its size.
use xxfs.Base.{
  ℕ, zero, suc, ◌-◌, ◌*◌, ◌/◌, ◌^◌, ◌<◌, ◌≡◌, ◌≢◌, inl, inr, refl, sym, ap, ◌∙◌, arith, true,
  Option, none, some, List, [], ◌∷◌, ◌==◌, ==→eq, ==→ne, ==_refl, Bool-cases, length, length-set,
  take, set, get_or-set_self, get_or-set_ne, bit_and_bound,
}
use xxfs.Paged.Entries.Match.{eq→bytes_eq}
use xxfs.Swiss.{
  DpSlot, DpTable, group_size, ctrl_tag, zero_dp_slot, dp_slot_at, group_idx, next_group,
  match_group, is_slot, match_key, find_from, table_find, Place, there, fresh, reused, nowhere,
  find_place, put_entry, put_at, table_insert, ctrl_at, ctrl_deleted,
}
use xxfs.Swiss.Insert.{find_inside, reused-deleted, there-found, taken-found}
use xxfs.Swiss.Loops.{taken, Free}
use xxfs.Paged.Dir.Double.{pow_pos}

-- A table of 2 ^ k groups.
pub record IsTable (t : DpTable) (k : ℕ) : Type 0 where
  pub size : t.cap ≡ 2 ^ k * group_size
  pub small : t.cap < 2 ^ 64
  pub mask_is : t.mask ≡ t.cap - 1
  pub ctrl_length : length t.ctrl ≡ t.cap
  pub slots_length : length t.slots ≡ t.cap

module _ (hash : ℕ) (key : List ℕ) (klen : ℕ) where
  -- Slots that hold the same keys.
  module _ (slots slots' : List DpSlot)
      (same : (j : ℕ)
        → is_slot (dp_slot_at slots' j) hash key klen
          ≡ is_slot (dp_slot_at slots j) hash key klen) where
    match_key-same :
        (is : List ℕ) → match_key is slots' hash key klen ≡ match_key is slots hash key klen
    unfolding match_key
    match_key-same [] = refl
    match_key-same (i ∷ is) = rw (same i, match_key-same is) refl

    find_from-same :
        (n : ℕ) (ctrl : List ℕ) (nr g : ℕ)
        → find_from n ctrl slots' nr g hash key klen ≡ find_from n ctrl slots nr g hash key klen
    unfolding find_from
    find_from-same zero ctrl nr g = refl
    find_from-same (suc n) ctrl nr g =
        rw
          (
            match_key-same (match_group ctrl g (ctrl_tag hash)),
            find_from-same n ctrl nr (next_group nr g),
          )
          refl

abbrev pub slot_of_args : ℕ → List ℕ → Option (List ℕ) → ℕ → ℕ → ℕ → DpSlot
slot_of_args hash key val klen vlen off = record {
  hash = hash;
  key = some key;
  val = val;
  klen = klen;
  vlen = vlen;
  file_off = off;
}

module _ (t : DpTable) (k : ℕ) (is : IsTable t k) (hash : ℕ) (key : List ℕ) (val : Option (List ℕ))
    (klen vlen off : ℕ) where
  abbrev pub s : DpSlot
  s = slot_of_args hash key val klen vlen off

  abbrev pub nr : ℕ
  nr = t.cap / group_size

  abbrev pub g : ℕ
  g = group_idx hash t.mask

  abbrev pub place : Place
  place = find_place nr t.ctrl t.slots nr g none hash key klen

  power : nr ≡ 2 ^ k
  power = omega (arith, is.size)

  small : nr < 2 ^ 60
  small = omega (arith, is.size, is.small)

  whole : length t.ctrl ≡ nr * group_size
  whole = omega (arith, is.ctrl_length, is.size)

  whole_slots : length t.slots ≡ nr * group_size
  whole_slots = omega (arith, is.slots_length, is.size)

  own : is_slot s hash key klen ≡ true
  own = rw (==_refl hash, ==_refl klen, eq→bytes_eq (take klen key) (take klen key) refl) refl

  inside : g < nr
  unfolding group_idx
  inside =
      let low : t.mask / group_size < 2 ^ k = omega (arith, is.mask_is, is.size, pow_pos k) in
      omega (arith, bit_and_bound k (hash / 2 ^ 7) (t.mask / group_size) low, power)

  -- The search in `t'` Finds what was inserted.
  abbrev Finds : DpTable → Type 0
  Finds t' =
      (i : ℕ) × (table_find t' hash key klen ≡ some i)
      × ((dp_slot_at t'.slots i).val ≡ val)
      × ((dp_slot_at t'.slots i).vlen ≡ vlen)
      × ((dp_slot_at t'.slots i).file_off ≡ off)

  pub newly_inside : (i : ℕ) → taken place ≡ some i → (i < t.cap) × Free t.ctrl i
  newly_inside i e =
      let (found, free) =
        taken-found nr hash key klen t.ctrl t.slots k power small whole whole_slots s own nr g i
          inside e in
      let bound =
        find_inside nr hash key klen (set t.ctrl i (ctrl_tag hash)) (set t.slots i s) k power small
          (length-set t.ctrl i (ctrl_tag hash) ∙ whole) (length-set t.slots i s ∙ whole_slots) s own
          nr g i inside found in
      (omega (arith, bound.0, whole_slots, is.slots_length), free)

  pub reused_was : (i : ℕ) → place ≡ reused i → ctrl_at t.ctrl i ≡ ctrl_deleted
  reused_was i e =
      reused-deleted nr hash key klen t.ctrl t.slots nr g i none (λ d h. absurd (cc h)) e

  pub found_inside :
      (i : ℕ)
      → table_find t hash key klen ≡ some i
      → (i < t.cap) × (ctrl_at t.ctrl i ≡ ctrl_tag hash)
  unfolding table_find
  found_inside i e =
      let (bound, tagged) =
        find_inside nr hash key klen t.ctrl t.slots k power small whole whole_slots s own nr g i
          inside e in
      (omega (arith, bound, whole_slots, is.slots_length), tagged)

  newly : (i : ℕ) → taken place ≡ some i → Finds (put_entry t i s)
  unfolding table_find
  newly i e =
      let (found, free) =
        taken-found nr hash key klen t.ctrl t.slots k power small whole whole_slots s own nr g i
          inside e in
      let inside_slots : i < length t.slots =
        omega (arith, (newly_inside i e).0, is.slots_length) in
      let at = get_or-set_self t.slots i s zero_dp_slot inside_slots in
      (i, found, ap (λ x. x.val) at, ap (λ x. x.vlen) at, ap (λ x. x.file_off) at)

  abbrev renewed : DpSlot → DpSlot
  renewed old = record old { val = val; vlen = vlen; file_off = off }

  insert_again : (i : ℕ) → place ≡ there i → Finds (put_at t s (there i)).1
  unfolding table_find
  insert_again i e =
      let found = there-found nr hash key klen t.ctrl t.slots nr g i none e in
      let bound =
        find_inside nr hash key klen t.ctrl t.slots k power small whole whole_slots s own nr g i
          inside found in
      let inside_slots : i < length t.slots = omega (arith, bound.0, whole_slots) in
      let at =
        get_or-set_self t.slots i (renewed (dp_slot_at t.slots i)) zero_dp_slot inside_slots in
      (
        i,
        find_from-same hash key klen t.slots (set t.slots i (renewed (dp_slot_at t.slots i)))
              (same_keys i inside_slots) nr t.ctrl nr g
            ∙ found,
        ap (λ x. x.val) at,
        ap (λ x. x.vlen) at,
        ap (λ x. x.file_off) at,
      )
    where
      same_keys :
          (i : ℕ)
          → i < length t.slots
          → (j : ℕ)
          → is_slot (dp_slot_at (set t.slots i (renewed (dp_slot_at t.slots i))) j) hash key klen
            ≡ is_slot (dp_slot_at t.slots j) hash key klen
      same_keys i low j = elim (Bool-cases (i == j)) [
        | inl same ↦
            let e = ==→eq i j same in
            ap
              (λ m.
                is_slot (dp_slot_at (set t.slots i (renewed (dp_slot_at t.slots i))) m) hash key
                  klen)
              (sym e)
            ∙ ap (λ x. is_slot x hash key klen)
                (get_or-set_self t.slots i (renewed (dp_slot_at t.slots i)) zero_dp_slot low)
            ∙ ap (λ m. is_slot (dp_slot_at t.slots m) hash key klen) e
        | inr other ↦
            ap (λ x. is_slot x hash key klen)
              (get_or-set_ne t.slots i j (renewed (dp_slot_at t.slots i)) zero_dp_slot
                (==→ne i j other))
      ]

  stored : (p : Place) → place ≡ p → (put_at t s p).0 ≢ 2 ^ 32 - 1 → Finds (put_at t s p).1
  unfolding table_find
  stored (there i) e h = insert_again i e
  stored (reused i) e h = newly i (ap taken e)
  stored nowhere e h = absurd (h refl)
  stored (fresh i) e h = elim (Bool-cases (ctrl_at t.ctrl i == ctrl_deleted)) [
    | inl d ↦ rw d (newly i (ap taken e))
    | inr d ↦ rw d (newly i (ap taken e))
  ]

  -- In a table of 2 ^ k groups: if `table_insert` does not return -1, then `table_find` Finds a slot
  -- for the key, and that slot has the value, its length and the offset that were inserted.
  pub table_find-table_insert :
      (table_insert t s).0 ≢ 2 ^ 32 - 1
      → (i : ℕ) × (table_find (table_insert t s).1 hash key klen ≡ some i)
        × ((dp_slot_at (table_insert t s).1.slots i).val ≡ val)
        × ((dp_slot_at (table_insert t s).1.slots i).vlen ≡ vlen)
        × ((dp_slot_at (table_insert t s).1.slots i).file_off ≡ off)
  unfolding table_insert
  table_find-table_insert h = stored place refl h
