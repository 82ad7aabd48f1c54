-- ===== src/Swiss/Counts.antt =====
-- `count` and `tombstones` of `struct dp_table` are numbers of control bytes.
use xxfs.Base.{
  ℕ, zero, suc, ◌+◌, ◌≤◌, ◌<◌, ◌≡◌, inl, inr, refl, sym, ap, ◌∙◌, arith, Bool, true, false, Option,
  none, some, List, [], ◌∷◌, ◌==◌, ==→eq, ==→ne, Bool-cases, length, length-set, set,
}
use xxfs.Swiss.{
  DpSlot, DpTable, ctrl_empty, ctrl_deleted, ctrl_tag, ctrl_at, zero_dp_slot, table_find, Place,
  there, fresh, reused, nowhere, put_entry, put_at, raised, table_insert, entry_cleared, del_at,
  table_del,
}
use xxfs.Swiss.Loops.{taken}
use xxfs.Swiss.RoundTrip.{IsTable, slot_of_args, place, newly_inside, reused_was, found_inside}

abbrev one_if : Bool → ℕ
one_if true = 1
one_if false = 0

-- How many control bytes are this one.
unfoldable pub tally : ℕ → List ℕ → ℕ
tally c [] = 0
tally c (x ∷ xs) = one_if (x == c) + tally c xs

tally-set :
    (c : ℕ) (xs : List ℕ) (i v : ℕ)
    → i < length xs
    → tally c (set xs i v) + one_if (ctrl_at xs i == c) ≡ tally c xs + one_if (v == c)
unfolding tally
tally-set c [] i v h = absurd (omega arith)
tally-set c (x ∷ xs) zero v h = omega arith
tally-set c (x ∷ xs) (suc i) v h = omega (arith, tally-set c xs i v (omega arith))

tallies_fit : (xs : List ℕ) → tally ctrl_deleted xs + tally ctrl_empty xs ≤ length xs
unfolding tally
tallies_fit [] = omega arith
tallies_fit (x ∷ xs) =
    let one : one_if (x == ctrl_deleted) + one_if (x == ctrl_empty) ≤ 1 = ground arith in
    omega (arith, one, tallies_fit xs)

-- Each place has an entry, is free, or is deleted.
pub record IsCounted (t : DpTable) (k : ℕ) : Type 0 where
  pub sized : IsTable t k
  pub deleted : t.tombstones ≡ tally ctrl_deleted t.ctrl
  pub all : t.count + t.tombstones + tally ctrl_empty t.ctrl ≡ t.cap

module _ (hash : ℕ) where
  pub tag_not_empty : (ctrl_tag hash == ctrl_empty) ≡ false
  tag_not_empty = ground arith

  pub tag_not_deleted : (ctrl_tag hash == ctrl_deleted) ≡ false
  tag_not_deleted = ground arith

module _ (t : DpTable) (k : ℕ) (is : IsCounted t k) (i : ℕ) (inside : i < length t.ctrl) where
  keeps_size :
      (t' : DpTable) (v : ℕ) (s : DpSlot)
      → t'.cap ≡ t.cap
      → t'.mask ≡ t.mask
      → t'.ctrl ≡ set t.ctrl i v
      → t'.slots ≡ set t.slots i s
      → IsTable t' k
  keeps_size t' v s cap_is mask_is ctrl_is slots_is = record {
    size = cap_is ∙ is.sized.size;
    small = omega (arith, cap_is, is.sized.small);
    mask_is = omega (arith, cap_is, mask_is, is.sized.mask_is);
    ctrl_length = ap length ctrl_is ∙ length-set t.ctrl i v ∙ is.sized.ctrl_length ∙ sym cap_is;
    slots_length = ap length slots_is ∙ length-set t.slots i s ∙ is.sized.slots_length ∙ sym cap_is;
  }

  module _ (s : DpSlot) where
    put_free : ctrl_at t.ctrl i ≡ ctrl_empty → IsCounted (put_entry t i s) k
    put_free e =
        let d = tally-set ctrl_deleted t.ctrl i (ctrl_tag s.hash) inside in
        let f = tally-set ctrl_empty t.ctrl i (ctrl_tag s.hash) inside in
        let d_old : one_if (ctrl_at t.ctrl i == ctrl_deleted) ≡ 0 = rw e refl in
        let f_old : one_if (ctrl_at t.ctrl i == ctrl_empty) ≡ 1 = rw e refl in
        let d_new = ap one_if (tag_not_deleted s.hash) in
        let f_new = ap one_if (tag_not_empty s.hash) in
        record {
          sized = keeps_size (put_entry t i s) (ctrl_tag s.hash) s refl refl refl refl;
          deleted = omega (arith, is.deleted, d, d_old, d_new);
          all = omega (arith, is.all, is.sized.small, f, f_old, f_new);
        }

    put_deleted : ctrl_at t.ctrl i ≡ ctrl_deleted → IsCounted (raised (put_entry t i s)) k
    put_deleted e =
        let d = tally-set ctrl_deleted t.ctrl i (ctrl_tag s.hash) inside in
        let f = tally-set ctrl_empty t.ctrl i (ctrl_tag s.hash) inside in
        let d_old : one_if (ctrl_at t.ctrl i == ctrl_deleted) ≡ 1 = rw e refl in
        let f_old : one_if (ctrl_at t.ctrl i == ctrl_empty) ≡ 0 = rw e refl in
        let d_new = ap one_if (tag_not_deleted s.hash) in
        let f_new = ap one_if (tag_not_empty s.hash) in
        record {
          sized = keeps_size (raised (put_entry t i s)) (ctrl_tag s.hash) s refl refl refl refl;
          deleted = omega (arith, is.deleted, is.all, is.sized.small, d, d_old, d_new);
          all = omega (arith, is.deleted, is.all, is.sized.small, d, d_old, d_new, f, f_old, f_new);
        }

  clear : (hash : ℕ) → ctrl_at t.ctrl i ≡ ctrl_tag hash → IsCounted (entry_cleared t i) k
  clear hash e =
      let d = tally-set ctrl_deleted t.ctrl i ctrl_deleted inside in
      let f = tally-set ctrl_empty t.ctrl i ctrl_deleted inside in
      let d_old = ap (λ c. one_if (c == ctrl_deleted)) e ∙ ap one_if (tag_not_deleted hash) in
      let f_old = ap (λ c. one_if (c == ctrl_empty)) e ∙ ap one_if (tag_not_empty hash) in
      let fits = tallies_fit (set t.ctrl i ctrl_deleted) in
      let whole = length-set t.ctrl i ctrl_deleted ∙ is.sized.ctrl_length in
      record {
        sized = keeps_size (entry_cleared t i) ctrl_deleted zero_dp_slot refl refl refl refl;
        deleted = omega (arith, is.deleted, is.all, is.sized.small, d, d_old, fits, whole);
        all = omega (arith, is.deleted, is.all, is.sized.small, d, d_old, f, f_old, fits, whole);
      }

module _ (t : DpTable) (k : ℕ) (is : IsCounted t k) (hash : ℕ) (key : List ℕ)
    (val : Option (List ℕ)) (klen vlen off : ℕ) where
  abbrev args : DpSlot
  args = slot_of_args hash key val klen vlen off

  abbrev at : Place
  at = place t k is.sized hash key val klen vlen off

  in_ctrl : (i : ℕ) → taken at ≡ some i → i < length t.ctrl
  in_ctrl i e =
      omega
        (arith, (newly_inside t k is.sized hash key val klen vlen off i e).0, is.sized.ctrl_length)

  kept : (p : Place) → at ≡ p → IsCounted (put_at t args p).1 k
  kept nowhere e = is
  kept (there i) e = record {
    sized = record {
      size = is.sized.size;
      small = is.sized.small;
      mask_is = is.sized.mask_is;
      ctrl_length = is.sized.ctrl_length;
      slots_length = length-set t.slots i _ ∙ is.sized.slots_length;
    };
    deleted = is.deleted;
    all = is.all;
  }
  kept (reused i) e =
      put_deleted t k is i (in_ctrl i (ap taken e)) args
        (reused_was t k is.sized hash key val klen vlen off i e)
  kept (fresh i) e = elim (Bool-cases (ctrl_at t.ctrl i == ctrl_deleted)) [
    | inl d ↦ rw d (
        put_deleted t k is i (in_ctrl i (ap taken e)) args
          (==→eq (ctrl_at t.ctrl i) ctrl_deleted d))
    | inr d ↦
        let free = (newly_inside t k is.sized hash key val klen vlen off i (ap taken e)).1 in
        rw d (
          put_free t k is i (in_ctrl i (ap taken e)) args
            (elim free [ inl f ↦ f | inr f ↦ absurd (==→ne (ctrl_at t.ctrl i) ctrl_deleted d f) ]))
  ]

  deleted_at :
      (found : Option ℕ) → table_find t hash key klen ≡ found → IsCounted (del_at t found).1 k
  deleted_at none e = is
  deleted_at (some i) e =
      let (low, tagged) = found_inside t k is.sized hash key val klen vlen off i e in
      clear t k is i (omega (arith, low, is.sized.ctrl_length)) hash tagged

  -- `table_insert` and `table_del` keep the counters of a table of 2 ^ k groups true, whatever they
  -- find: the tombstones are the deleted places, and the entries, the tombstones and the free places
  -- are all places. So are the sizes of its arrays.
  pub table_insert-table_del-IsCounted :
      IsCounted (table_insert t args).1 k × IsCounted (table_del t hash key klen).1 k
  unfolding table_insert table_del
  table_insert-table_del-IsCounted = (kept at refl, deleted_at (table_find t hash key klen) refl)
