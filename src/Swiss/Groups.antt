-- ===== src/Swiss/Groups.antt =====
-- The places of a group that `table_find` looks at, before and after one of them is set.
use xxfs.Base.{
  ℕ, zero, suc, ◌+◌, ◌≤◌, ◌<◌, ◌≡◌, ◌≢◌, ◌⊎◌, inl, inr, refl, sym, ap, ◌∙◌, arith, true, false,
  Option, none, some, List, ◌∷◌, ◌==◌, ==→eq, ==→ne, ==_refl, Bool-cases, length, set,
  get_or-set_self, get_or-set_ne,
}
use xxfs.Swiss.Match.{match_hit, match_miss}
use xxfs.Swiss.{
  DpSlot, ctrl_empty, ctrl_at, zero_dp_slot, dp_slot_at, match_from, is_slot, match_key,
}

-- The search for a key in a group.
key_hit :
    (i : ℕ) (is : List ℕ) (slots : List DpSlot) (hash : ℕ) (key : List ℕ) (klen : ℕ)
    → is_slot (dp_slot_at slots i) hash key klen ≡ true
    → match_key (i ∷ is) slots hash key klen ≡ some i
unfolding match_key
key_hit i is slots hash key klen e = rw e refl

key_miss :
    (i : ℕ) (is : List ℕ) (slots : List DpSlot) (hash : ℕ) (key : List ℕ) (klen : ℕ)
    → is_slot (dp_slot_at slots i) hash key klen ≡ false
    → match_key (i ∷ is) slots hash key klen ≡ match_key is slots hash key klen
unfolding match_key
key_miss i is slots hash key klen e = rw e refl

module _ (ctrl : List ℕ) (slots : List DpSlot) (hash : ℕ) (key : List ℕ) (klen tag : ℕ) where
  abbrev pub looks : List ℕ → List DpSlot → ℕ → ℕ → Option ℕ
  looks c s n a = match_key (match_from n c a tag) s hash key klen

  looks_miss :
      (c : List ℕ) (s : List DpSlot) (n a : ℕ)
      → (ctrl_at c a == tag) ≡ false
      → looks c s (suc n) a ≡ looks c s n (a + 1)
  looks_miss c s n a e = ap (λ is. match_key is s hash key klen) (match_miss n c a tag e)

  looks_other :
      (c : List ℕ) (s : List DpSlot) (n a : ℕ)
      → (ctrl_at c a == tag) ≡ true
      → is_slot (dp_slot_at s a) hash key klen ≡ false
      → looks c s (suc n) a ≡ looks c s n (a + 1)
  looks_other c s n a e other =
      ap (λ is. match_key is s hash key klen) (match_hit n c a tag e)
      ∙ key_miss a (match_from n c (a + 1) tag) s hash key klen other

  looks_own :
      (c : List ℕ) (s : List DpSlot) (n a : ℕ)
      → (ctrl_at c a == tag) ≡ true
      → is_slot (dp_slot_at s a) hash key klen ≡ true
      → looks c s (suc n) a ≡ some a
  looks_own c s n a e own =
      ap (λ is. match_key is s hash key klen) (match_hit n c a tag e)
      ∙ key_hit a (match_from n c (a + 1) tag) s hash key klen own

  abbrev pub Found : ℕ → ℕ → ℕ → Type 0
  Found n a i =
      (a ≤ i)
      × (i < a + n)
      × (is_slot (dp_slot_at slots i) hash key klen ≡ true)
      × (ctrl_at ctrl i ≡ tag)

  widen : (n a i : ℕ) → Found n (a + 1) i → Found (suc n) a i
  widen n a i (low, high, is, tagged) = (omega (arith, low), omega (arith, high), is, tagged)

  -- What was found is in the group, and has the key and the control byte.
  pub looks-Found : (n a i : ℕ) → looks ctrl slots n a ≡ some i → Found n a i
  unfolding match_from match_key
  looks-Found zero a i h = absurd (cc h)
  looks-Found (suc n) a i h = elim (Bool-cases (ctrl_at ctrl a == tag)) [
    | inr e ↦ widen n a i (looks-Found n (a + 1) i (sym (looks_miss ctrl slots n a e) ∙ h))
    | inl e ↦ elim (Bool-cases (is_slot (dp_slot_at slots a) hash key klen)) [
      | inr other ↦
          widen n a i (looks-Found n (a + 1) i (sym (looks_other ctrl slots n a e other) ∙ h))
      | inl own ↦
          let h' : some a ≡ some i = sym (looks_own ctrl slots n a e own) ∙ h in
          let same : a ≡ i = cc h' in
          (
            omega (arith, same),
            omega (arith, same),
            ap (λ k. is_slot (dp_slot_at slots k) hash key klen) (sym same) ∙ own,
            ap (ctrl_at ctrl) (sym same) ∙ ==→eq (ctrl_at ctrl a) tag e,
          )
    ]
  ]

  module _ (i : ℕ) (s : DpSlot) where
    abbrev ctrl_set : ℕ → List ℕ
    ctrl_set v = set ctrl i v

    abbrev slots_set : List DpSlot
    slots_set = set slots i s

    -- The key is found where it is put into the group.
    pub looks-set :
        (n a : ℕ)
        → looks ctrl slots n a ≡ none
        → is_slot s hash key klen ≡ true
        → a ≤ i
        → i < a + n
        → i < length ctrl
        → i < length slots
        → looks (ctrl_set tag) slots_set n a ≡ some i
    looks-set zero a h own low high in_ctrl in_slots = absurd (omega arith)
    looks-set (suc n) a h own low high in_ctrl in_slots = elim (Bool-cases (i == a)) [
      | inl same ↦
          let at : i ≡ a = ==→eq i a same in
          let tagged : (ctrl_at (ctrl_set tag) i == tag) ≡ true =
            rw (get_or-set_self ctrl i tag ctrl_empty in_ctrl) (==_refl tag) in
          let has : is_slot (dp_slot_at slots_set i) hash key klen ≡ true =
            rw (get_or-set_self slots i s zero_dp_slot in_slots) own in
          looks_own (ctrl_set tag) slots_set n a
            (ap (λ k. ctrl_at (ctrl_set tag) k == tag) (sym at) ∙ tagged)
            (ap (λ k. is_slot (dp_slot_at slots_set k) hash key klen) (sym at) ∙ has)
          ∙ ap some (sym at)
      | inr apart ↦
          let ne = ==→ne i a apart in
          let ctrl_same : ctrl_at (ctrl_set tag) a ≡ ctrl_at ctrl a =
            get_or-set_ne ctrl i a tag ctrl_empty ne in
          let slots_same : dp_slot_at slots_set a ≡ dp_slot_at slots a =
            get_or-set_ne slots i a s zero_dp_slot ne in
          elim (Bool-cases (ctrl_at ctrl a == tag)) [
            | inr e ↦
                looks_miss (ctrl_set tag) slots_set n a (ap (λ c. c == tag) ctrl_same ∙ e)
                ∙ looks-set n (a + 1) (sym (looks_miss ctrl slots n a e) ∙ h) own
                    (omega (arith, ne, low)) (omega (arith, high)) in_ctrl in_slots
            | inl e ↦ elim (Bool-cases (is_slot (dp_slot_at slots a) hash key klen)) [
              | inl has ↦ absurd (cc (sym (looks_own ctrl slots n a e has) ∙ h))
              | inr other ↦
                  looks_other (ctrl_set tag) slots_set n a (ap (λ c. c == tag) ctrl_same ∙ e)
                    (ap (λ x. is_slot x hash key klen) slots_same ∙ other)
                  ∙ looks-set n (a + 1) (sym (looks_other ctrl slots n a e other) ∙ h) own
                      (omega (arith, ne, low)) (omega (arith, high)) in_ctrl in_slots
            ]
          ]
    ]

    -- Beside that place, the search Finds what it found.
    pub looks-beside :
        (v n a : ℕ)
        → (i < a) ⊎ (a + n ≤ i)
        → looks (ctrl_set v) slots_set n a ≡ looks ctrl slots n a
    unfolding match_from match_key
    looks-beside v zero a h = refl
    looks-beside v (suc n) a h =
        let ne : i ≢ a = elim h [ inl p ↦ omega (arith, p) | inr p ↦ omega (arith, p) ] in
        let rest : (i < a + 1) ⊎ (a + 1 + n ≤ i) = elim h [
          | inl p ↦ inl (omega (arith, p))
          | inr p ↦ inr (omega (arith, p))
        ] in
        let ctrl_same : ctrl_at (ctrl_set v) a ≡ ctrl_at ctrl a =
          get_or-set_ne ctrl i a v ctrl_empty ne in
        let slots_same : dp_slot_at slots_set a ≡ dp_slot_at slots a =
          get_or-set_ne slots i a s zero_dp_slot ne in
        elim (Bool-cases (ctrl_at ctrl a == tag)) [
          | inr e ↦
              looks_miss (ctrl_set v) slots_set n a (ap (λ c. c == tag) ctrl_same ∙ e)
              ∙ looks-beside v n (a + 1) rest
              ∙ sym (looks_miss ctrl slots n a e)
          | inl e ↦
              let e' : (ctrl_at (ctrl_set v) a == tag) ≡ true = ap (λ c. c == tag) ctrl_same ∙ e in
              let is_same = ap (λ x. is_slot x hash key klen) slots_same in
              elim (Bool-cases (is_slot (dp_slot_at slots a) hash key klen)) [
                | inl own ↦
                    looks_own (ctrl_set v) slots_set n a e' (is_same ∙ own)
                    ∙ sym (looks_own ctrl slots n a e own)
                | inr other ↦
                    looks_other (ctrl_set v) slots_set n a e' (is_same ∙ other)
                    ∙ looks-beside v n (a + 1) rest
                    ∙ sym (looks_other ctrl slots n a e other)
              ]
        ]
