-- ===== src/Swiss/Insert.antt =====
-- `table_find` after `table_insert`: the loops of the two look at the same groups.
use xxfs.Base.{
  ℕ, zero, suc, ◌+◌, ◌*◌, ◌^◌, ◌≤◌, ◌<◌, ◌≡◌, inl, inr, sym, ap, ◌∙◌, arith, true, Option, none,
  some, List, Option-cases, length, set, bit_and_bound, u64, sub64,
}
use xxfs.Swiss.{
  DpSlot, group_size, ctrl_empty, ctrl_deleted, ctrl_tag, ctrl_at, next_group, match_group,
  first_of, is_slot, find_from, there, reused, or_free, find_place,
}
use xxfs.Swiss.Loops.{
  List-cases, or_free-there, or_free-reused, first_deleted-was, Free, beside_group, taken, key_in,
  find_hit, find_on, find_stop, del, place_there, place_stop, place_on,
}
use xxfs.Swiss.Match.{match_from-first, match_from-beside}
use xxfs.Swiss.Groups.{looks-Found, looks-set, looks-beside}

module _ (nr hash : ℕ) (key : List ℕ) (klen : ℕ) where
  module _ (ctrl : List ℕ) (slots : List DpSlot) where
    -- Behind a deleted place, no other place is taken.
    taken-deleted :
        (n g d i : ℕ) → taken (find_place n ctrl slots nr g (some d) hash key klen) ≡ some i → d ≡ i
    unfolding find_place
    taken-deleted zero g d i h = cc h
    taken-deleted (suc n) g d i h = elim (Option-cases (key_in nr hash key klen ctrl slots g)) [
      | inr (j, e) ↦
          absurd
            (cc (ap taken (sym (place_there nr hash key klen ctrl slots n g (some d) j e)) ∙ h))
      | inl e ↦ elim (List-cases (match_group ctrl g ctrl_empty)) [
        | inr (x, xs, f) ↦
            cc (ap taken (sym (place_stop nr hash key klen ctrl slots n g (some d) x xs e f)) ∙ h)
        | inl f ↦
            taken-deleted n (next_group nr g) d i
              (ap taken (sym (place_on nr hash key klen ctrl slots n g (some d) e f)) ∙ h)
      ]
    ]

    -- What the insertion finds, the search finds.
    pub there-found :
        (n g i : ℕ) (fd : Option ℕ)
        → find_place n ctrl slots nr g fd hash key klen ≡ there i
        → find_from n ctrl slots nr g hash key klen ≡ some i
    unfolding find_place
    there-found zero g i none h = absurd (cc h)
    there-found zero g i (some d) h = absurd (cc h)
    there-found (suc n) g i fd h = elim (Option-cases (key_in nr hash key klen ctrl slots g)) [
      | inr (j, e) ↦
          find_hit nr hash key klen ctrl slots n g j e
          ∙ (let same : there j ≡ there i =
                sym (place_there nr hash key klen ctrl slots n g fd j e) ∙ h in
              cc same)
      | inl e ↦ elim (List-cases (match_group ctrl g ctrl_empty)) [
        | inr (x, xs, f) ↦ absurd (
            or_free-there (del nr hash key klen ctrl slots n g fd) x i
              (sym (place_stop nr hash key klen ctrl slots n g fd x xs e f) ∙ h))
        | inl f ↦
            find_on nr hash key klen ctrl slots n g e f
            ∙ there-found n (next_group nr g) i (del nr hash key klen ctrl slots n g fd)
                (sym (place_on nr hash key klen ctrl slots n g fd e f) ∙ h)
      ]
    ]

    -- What is taken behind the loop was deleted.
    pub reused-deleted :
        (n g i : ℕ) (fd : Option ℕ)
        → ((d : ℕ) → fd ≡ some d → ctrl_at ctrl d ≡ ctrl_deleted)
        → find_place n ctrl slots nr g fd hash key klen ≡ reused i
        → ctrl_at ctrl i ≡ ctrl_deleted
    unfolding find_place
    reused-deleted zero g i none was h = absurd (cc h)
    reused-deleted zero g i (some d) was h = let at : d ≡ i = cc h in was i (ap some at)
    reused-deleted (suc n) g i fd was h =
        elim (Option-cases (key_in nr hash key klen ctrl slots g)) [
          | inr (j, e) ↦ absurd (cc (sym (place_there nr hash key klen ctrl slots n g fd j e) ∙ h))
          | inl e ↦ elim (List-cases (match_group ctrl g ctrl_empty)) [
            | inr (x, xs, f) ↦ absurd (
                or_free-reused (del nr hash key klen ctrl slots n g fd) x i
                  (sym (place_stop nr hash key klen ctrl slots n g fd x xs e f) ∙ h))
            | inl f ↦
                reused-deleted n (next_group nr g) i (del nr hash key klen ctrl slots n g fd)
                  (first_deleted-was ctrl g fd was)
                  (sym (place_on nr hash key klen ctrl slots n g fd e f) ∙ h)
          ]
        ]

    -- A deleted place of the first group with one is what is taken.
    taken_first :
        (n g d i : ℕ)
        → key_in nr hash key klen ctrl slots g ≡ none
        → first_of (match_group ctrl g ctrl_deleted) ≡ some d
        → taken (find_place (suc n) ctrl slots nr g none hash key klen) ≡ some i
        → d ≡ i
    taken_first n g d i e head h = elim (List-cases (match_group ctrl g ctrl_empty)) [
      | inr (x, xs, f) ↦
          let stop =
            ap taken (sym (place_stop nr hash key klen ctrl slots n g none x xs e f)) ∙ h in
          let at : some d ≡ some i = ap (λ fd. taken (or_free fd x)) (sym head) ∙ stop in cc at
      | inl f ↦
          let on = ap taken (sym (place_on nr hash key klen ctrl slots n g none e f)) ∙ h in
          taken-deleted n (next_group nr g) d i (
            ap (λ fd. taken (find_place n ctrl slots nr (next_group nr g) fd hash key klen))
              (sym head)
            ∙ on)
    ]

    module _ (k : ℕ) (power : nr ≡ 2 ^ k) (small : nr < 2 ^ 60)
        (whole : length ctrl ≡ nr * group_size) (whole_slots : length slots ≡ nr * group_size)
        (s : DpSlot) (own : is_slot s hash key klen ≡ true) where
      pub next_inside : (g : ℕ) → 0 < nr → next_group nr g < nr
      unfolding next_group
      next_inside g h =
          let mask : sub64 nr 1 < 2 ^ k = omega (arith, power, small, h) in
          omega (arith, bit_and_bound k (u64 (g + 1)) (sub64 nr 1) mask, power)

      -- What is found is in the arrays, with the control byte of the hash.
      pub find_inside :
          (n g i : ℕ)
          → g < nr
          → find_from n ctrl slots nr g hash key klen ≡ some i
          → (i < nr * group_size) × (ctrl_at ctrl i ≡ ctrl_tag hash)
      unfolding find_from
      find_inside zero g i inside h = absurd (cc h)
      find_inside (suc n) g i inside h =
          elim (Option-cases (key_in nr hash key klen ctrl slots g)) [
            | inr (j, e) ↦
                let at : some j ≡ some i = sym (find_hit nr hash key klen ctrl slots n g j e) ∙ h in
                let same : j ≡ i = cc at in
                let (low, high, is, tagged) =
                  looks-Found ctrl slots hash key klen (ctrl_tag hash) group_size (g * group_size) j
                    e in
                (omega (arith, same, high, inside), ap (ctrl_at ctrl) (sym same) ∙ tagged)
            | inl e ↦ elim (List-cases (match_group ctrl g ctrl_empty)) [
              | inr (x, xs, f) ↦
                  absurd (cc (sym (find_stop nr hash key klen ctrl slots n g x xs e f) ∙ h))
              | inl f ↦
                  find_inside n (next_group nr g) i (next_inside g (omega (arith, inside)))
                    (sym (find_on nr hash key klen ctrl slots n g e f) ∙ h)
            ]
          ]

      -- The state behind the insertion.
      abbrev Finds : ℕ → ℕ → ℕ → Type 0
      Finds n g i =
          find_from n (set ctrl i (ctrl_tag hash)) (set slots i s) nr g hash key klen ≡ some i

      here :
          (n g i : ℕ)
          → g < nr
          → key_in nr hash key klen ctrl slots g ≡ none
          → g * group_size ≤ i
          → i < g * group_size + group_size
          → Finds (suc n) g i
      here n g i inside e low high =
          find_hit nr hash key klen (set ctrl i (ctrl_tag hash)) (set slots i s) n g i (
            looks-set ctrl slots hash key klen (ctrl_tag hash) i s group_size (g * group_size) e own
              low high (omega (arith, whole, high, inside))
              (omega (arith, whole_slots, high, inside)))

      -- The entry in a new place is found, and the place was free.
      pub taken-found :
          (n g i : ℕ)
          → g < nr
          → taken (find_place n ctrl slots nr g none hash key klen) ≡ some i
          → Finds n g i × Free ctrl i
      unfolding find_place
      taken-found zero g i inside h = absurd (cc h)
      taken-found (suc n) g i inside h =
          elim (Option-cases (key_in nr hash key klen ctrl slots g)) [
            | inr (j, e) ↦
                absurd
                  (cc (ap taken (sym (place_there nr hash key klen ctrl slots n g none j e)) ∙ h))
            | inl e ↦ elim (List-cases (match_group ctrl g ctrl_deleted)) [
              | inr (d, ds, q) ↦
                  let head : first_of (match_group ctrl g ctrl_deleted) ≡ some d = ap first_of q in
                  let (low, high, is) =
                    match_from-first group_size ctrl (g * group_size) ctrl_deleted d head in
                  let same : d ≡ i = taken_first n g d i e head h in
                  (
                    here n g i inside e (omega (arith, same, low)) (omega (arith, same, high)),
                    inr (ap (ctrl_at ctrl) (sym same) ∙ is),
                  )
              | inl q ↦ elim (List-cases (match_group ctrl g ctrl_empty)) [
                | inr (x, xs, f) ↦
                    let (low, high, is) =
                      match_from-first group_size ctrl (g * group_size) ctrl_empty x
                        (ap first_of f) in
                    let same : x ≡ i =
                      (let at : some x ≡ some i =
                          ap (λ fd. taken (or_free fd x)) (sym (ap first_of q))
                          ∙ ap taken
                              (sym (place_stop nr hash key klen ctrl slots n g none x xs e f))
                          ∙ h in
                        cc at) in
                    (
                      here n g i inside e (omega (arith, same, low)) (omega (arith, same, high)),
                      inl (ap (ctrl_at ctrl) (sym same) ∙ is),
                    )
                | inl f ↦
                    let (found, free) =
                      taken-found n (next_group nr g) i (next_inside g (omega (arith, inside))) (
                        ap
                          (λ fd.
                            taken (find_place n ctrl slots nr (next_group nr g) fd hash key klen))
                          (sym (ap first_of q))
                        ∙ ap taken (sym (place_on nr hash key klen ctrl slots n g none e f))
                        ∙ h) in
                    let beside = beside_group ctrl g i f q free in
                    let no_key =
                      looks-beside ctrl slots hash key klen (ctrl_tag hash) i s (ctrl_tag hash)
                        group_size (g * group_size) beside
                      ∙ e in
                    let no_free =
                      match_from-beside ctrl i (ctrl_tag hash) group_size (g * group_size)
                        ctrl_empty beside
                      ∙ f in
                    (
                      find_on nr hash key klen (set ctrl i (ctrl_tag hash)) (set slots i s) n g
                            no_key no_free
                          ∙ found,
                      free,
                    )
              ]
            ]
          ]
