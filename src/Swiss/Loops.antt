-- ===== src/Swiss/Loops.antt =====
-- One step of the loops of `table_find` and `table_insert`.
use xxfs.Base.{
  ℕ, suc, ◌+◌, ◌*◌, ◌≤◌, ◌<◌, ◌≡◌, ◌≢◌, ◌⊎◌, inl, inr, refl, arith, Option, none, some, List, [],
  ◌∷◌, ltb, leb, ltb→lt, leb→le, Bool-cases,
}
use xxfs.Swiss.{
  DpSlot, group_size, ctrl_empty, ctrl_deleted, ctrl_tag, ctrl_at, next_group, match_group,
  match_key, find_from, Place, there, fresh, reused, nowhere, first_deleted, or_free, find_place,
}
use xxfs.Swiss.Match.{match_from-first, match_from-none}

pub List-cases : (xs : List ℕ) → (xs ≡ []) ⊎ ((x : ℕ) × (ys : List ℕ) × (xs ≡ x ∷ ys))
List-cases [] = inl refl
List-cases (x ∷ xs) = inr (x, xs, refl)

-- The place that an entry newly takes.
abbrev pub taken : Place → Option ℕ
taken (there i) = none
taken (fresh i) = some i
taken (reused i) = some i
taken nowhere = none

pub or_free-there : (fd : Option ℕ) (x i : ℕ) → or_free fd x ≢ there i
or_free-there none x i h = cc h
or_free-there (some d) x i h = cc h

pub or_free-reused : (fd : Option ℕ) (x i : ℕ) → or_free fd x ≢ reused i
or_free-reused none x i h = cc h
or_free-reused (some d) x i h = cc h

pub first_deleted-was :
    (ctrl : List ℕ) (g : ℕ) (fd : Option ℕ)
    → ((d : ℕ) → fd ≡ some d → ctrl_at ctrl d ≡ ctrl_deleted)
    → (d : ℕ) → first_deleted fd (match_group ctrl g ctrl_deleted) ≡ some d
    → ctrl_at ctrl d ≡ ctrl_deleted
first_deleted-was ctrl g (some x) was d h = was d h
first_deleted-was ctrl g none was d h =
    (match_from-first group_size ctrl (g * group_size) ctrl_deleted d h).2

-- A place that no entry has.
abbrev pub Free : List ℕ → ℕ → Type 0
Free ctrl i = (ctrl_at ctrl i ≡ ctrl_empty) ⊎ (ctrl_at ctrl i ≡ ctrl_deleted)

-- A group with neither a free place nor a deleted one.
pub beside_group :
    (ctrl : List ℕ) (g i : ℕ)
    → match_group ctrl g ctrl_empty ≡ []
    → match_group ctrl g ctrl_deleted ≡ []
    → Free ctrl i
    → (i < g * group_size) ⊎ (g * group_size + group_size ≤ i)
beside_group ctrl g i no_free no_deleted free = elim (Bool-cases (ltb i (g * group_size))) [
  | inl low ↦ inl (ltb→lt i (g * group_size) low)
  | inr low ↦ elim (Bool-cases (leb (g * group_size + group_size) i)) [
    | inl high ↦ inr (leb→le (g * group_size + group_size) i high)
    | inr high ↦
        let from : g * group_size ≤ i = ground arith in
        let to : i < g * group_size + group_size = ground arith in
        elim free [
          | inl e ↦
              absurd
                (match_from-none group_size ctrl (g * group_size) ctrl_empty i no_free from to e)
          | inr e ↦
              absurd (
                match_from-none group_size ctrl (g * group_size) ctrl_deleted i no_deleted from to
                  e)
        ]
  ]
]

module _ (nr hash : ℕ) (key : List ℕ) (klen : ℕ) where
  abbrev pub key_in : List ℕ → List DpSlot → ℕ → Option ℕ
  key_in ctrl slots g = match_key (match_group ctrl g (ctrl_tag hash)) slots hash key klen

  module _ (ctrl : List ℕ) (slots : List DpSlot) (n g : ℕ) where
    pub find_hit :
        (i : ℕ)
        → key_in ctrl slots g ≡ some i
        → find_from (suc n) ctrl slots nr g hash key klen ≡ some i
    unfolding find_from
    find_hit i e = rw e refl

    pub find_on :
        key_in ctrl slots g ≡ none
        → match_group ctrl g ctrl_empty ≡ []
        → find_from (suc n) ctrl slots nr g hash key klen
          ≡ find_from n ctrl slots nr (next_group nr g) hash key klen
    unfolding find_from
    find_on e none_free = rw (e, none_free) refl

    pub find_stop :
        (x : ℕ) (xs : List ℕ)
        → key_in ctrl slots g ≡ none
        → match_group ctrl g ctrl_empty ≡ x ∷ xs
        → find_from (suc n) ctrl slots nr g hash key klen ≡ none
    unfolding find_from
    find_stop x xs e free = rw (e, free) refl

    module _ (fd : Option ℕ) where
      abbrev pub del : Option ℕ
      del = first_deleted fd (match_group ctrl g ctrl_deleted)

      abbrev pub placed : ℕ → Place
      placed m = find_place m ctrl slots nr g fd hash key klen

      pub place_there : (i : ℕ) → key_in ctrl slots g ≡ some i → placed (suc n) ≡ there i
      unfolding find_place
      place_there i e = rw e refl

      pub place_stop :
          (x : ℕ) (xs : List ℕ)
          → key_in ctrl slots g ≡ none
          → match_group ctrl g ctrl_empty ≡ x ∷ xs
          → placed (suc n) ≡ or_free del x
      unfolding find_place
      place_stop x xs e free = rw (e, free) refl

      pub place_on :
          key_in ctrl slots g ≡ none
          → match_group ctrl g ctrl_empty ≡ []
          → placed (suc n) ≡ find_place n ctrl slots nr (next_group nr g) del hash key klen
      unfolding find_place
      place_on e free = rw (e, free) refl
