-- ===== src/Paged/Index/Get/Slots.antt =====
-- The loop of `paged_get` over the slots of a page finds the first entry with the key.
use mathlib.Core.Path.{subst}
use xxfs.Base.{
  ℕ, ◌+◌, ◌≡◌, ◌≢◌, inl, inr, refl, sym, ap, ap₂, ◌∙◌, arith, true, false, Option, none, some, List,
  [], ◌∷◌, ltb, length, drop, Bool-cases, if◌then◌else◌,
}
use xxfs.Os.{Os}
use xxfs.Os.Image.{slice, length-padded, slice-slice}
use xxfs.Paged.Entries.{slot_key, slot_val, IsEntry, AllEntries, slots_entries, lookup, answer}
use xxfs.Paged.Entries.Match.{bytes_eq→eq, eq→bytes_eq, matches_own, matches-parts, own_of_matches}
use xxfs.Paged.Hash.{xxh64}
use xxfs.Paged.Index.{Result}
use xxfs.Paged.Index.Get.{other_key, value_for, get_inline, get_slot, get_slots}
use xxfs.Paged.Page.{Slot, Page, key_prefix_len}
use xxfs.Paged.Slots.{bytes_eq, matches, is_inline}

-- What is found, or that the loop goes on.
abbrev pub reply : ℕ → Option (List ℕ) → Option (Result (List ℕ))
reply room none = none
reply room (some v) = some (answer room (some v))

value_for_own :
    (s : Slot) (key : List ℕ) (room : ℕ) (bytes v : List ℕ)
    → bytes_eq key (slice bytes 0 (length key)) ≡ true
    → slice bytes (length key) s.vlen ≡ v
    → length v ≡ s.vlen
    → value_for s key room bytes ≡ reply room (some v)
value_for_own s key room bytes v same val len =
    let mine : other_key key bytes ≡ false = ground arith in
    rw (mine, val, len) (elim (Bool-cases (ltb room s.vlen)) [ inl e ↦ rw e | inr e ↦ rw e ])

value_for_other :
    (s : Slot) (key : List ℕ) (room : ℕ) (bytes : List ℕ)
    → ltb key_prefix_len (length key) ≡ true
    → bytes_eq key (slice bytes 0 (length key)) ≡ false
    → value_for s key room bytes ≡ none
value_for_other s key room bytes long differ =
    let theirs : other_key key bytes ≡ true = ground arith in rw theirs

module _ (pg : Page) (s : Slot) (is : IsEntry pg s) where
  inline : is_inline s ≡ true
  inline = rw is.flags refl

  length-slot_val : length (slot_val pg s) ≡ s.vlen
  unfolding slot_val
  length-slot_val = length-padded (drop (s.file_off + s.klen) pg.inline_area) s.vlen

  module _ (key : List ℕ) (len : s.klen ≡ length key) where
    abbrev bytes : List ℕ
    bytes = slice pg.inline_area s.file_off (length key + s.vlen)

    key-bytes : slice bytes 0 (length key) ≡ slot_key pg s
    unfolding slot_key
    key-bytes =
        slice-slice pg.inline_area s.file_off (length key + s.vlen) 0 (length key) (omega arith)
        ∙ ap₂ (slice pg.inline_area) (omega arith) (sym len)

    val-bytes : slice bytes (length key) s.vlen ≡ slot_val pg s
    unfolding slot_val
    val-bytes =
        slice-slice pg.inline_area s.file_off (length key + s.vlen) (length key) s.vlen
          (omega arith)
        ∙ ap (λ (n : ℕ). slice pg.inline_area (s.file_off + n) s.vlen) (sym len)

    -- The entry's own key: the value, if there is room.
    get_inline_own :
        (room : ℕ)
        → key ≡ slot_key pg s
        → get_inline pg s key room ≡ reply room (some (slot_val pg s))
    unfolding get_inline
    get_inline_own room own =
        value_for_own s key room bytes (slot_val pg s)
          (eq→bytes_eq key (slice bytes 0 (length key)) (own ∙ sym key-bytes)) val-bytes
          length-slot_val

    -- Another key: the loop goes on.
    get_inline_other :
        (room : ℕ)
        → ltb key_prefix_len (length key) ≡ true
        → key ≢ slot_key pg s
        → get_inline pg s key room ≡ none
    unfolding get_inline
    get_inline_other room long other =
        elim (Bool-cases (bytes_eq key (slice bytes 0 (length key)))) [
          | inl e ↦ absurd (other (bytes_eq→eq key (slice bytes 0 (length key)) e ∙ key-bytes))
          | inr e ↦ value_for_other s key room bytes long e
        ]

  -- A slot that matches gives its value if it has the key, and nothing otherwise.
  get_inline_match :
      (key : List ℕ) (room : ℕ)
      → matches s (xxh64 key) key ≡ true
      → get_inline pg s key room
        ≡ reply room (if bytes_eq (slot_key pg s) key then some (slot_val pg s) else none)
  get_inline_match key room m =
      let (len, _) = matches-parts s (xxh64 key) key m in
      elim (Bool-cases (bytes_eq (slot_key pg s) key)) [
        | inl e ↦ rw e (get_inline_own key len room (sym (bytes_eq→eq (slot_key pg s) key e)))
        | inr e ↦
            let other : slot_key pg s ≢ key =
              λ same. absurd (cc (eq→bytes_eq (slot_key pg s) key same, e)) in
            rw e (elim (Bool-cases (ltb key_prefix_len (length key))) [
              | inl long ↦ get_inline_other key len room long (λ same. other (sym same))
              | inr short ↦ absurd (other (own_of_matches pg s is key m short))
            ])
      ]

  get_slot_match :
      (os : Os) (key : List ℕ) (room : ℕ)
      → matches s (xxh64 key) key ≡ true
      → get_slot os pg s key room
        ≡ (reply room (if bytes_eq (slot_key pg s) key then some (slot_val pg s) else none), os)
  unfolding get_slot
  get_slot_match os key room m = rw (get_slot, inline, get_inline_match key room m)

  -- A slot that does not match has another key.
  no_match :
      (key : List ℕ) → matches s (xxh64 key) key ≡ false → bytes_eq (slot_key pg s) key ≡ false
  no_match key m = elim (Bool-cases (bytes_eq (slot_key pg s) key)) [
    | inr e ↦ e
    | inl e ↦
        let same = bytes_eq→eq (slot_key pg s) key e in
        let own : matches s (xxh64 key) key ≡ true =
          subst (λ k. matches s (xxh64 k) k ≡ true) same (matches_own pg s is) in
        absurd (cc)
  ]

-- The loop over slots of the inline area gives the value of the first entry with the key, and makes
-- no call.
pub get_slots-lookup :
    (os : Os) (pg : Page) (ss : List Slot) (key : List ℕ) (room : ℕ)
    → AllEntries pg ss
    → get_slots os pg ss (xxh64 key) key room ≡ (reply room (lookup (slots_entries pg ss) key), os)
unfolding get_slots lookup slots_entries
get_slots-lookup os pg [] key room all = refl
get_slots-lookup os pg (s ∷ ss) key room (is, all) =
    let more = get_slots-lookup os pg ss key room all in
    elim (Bool-cases (matches s (xxh64 key) key)) [
      | inr m ↦ rw (m, get_slots, no_match pg s is key m, lookup) more
      | inl m ↦
          let found = get_slot_match pg s is os key room m in
          let quiet : (get_slot os pg s key room).1 ≡ os = ap (λ t. t.1) found in
          elim (Bool-cases (bytes_eq (slot_key pg s) key)) [
            | inl e ↦
                let hit : (get_slot os pg s key room).0 ≡ reply room (some (slot_val pg s)) =
                  ap (λ t. t.0) (rw e at found) in
                rw (m, get_slots, hit, quiet, e, lookup)
            | inr e ↦
                let miss : (get_slot os pg s key room).0 ≡ none = ap (λ t. t.0) (rw e at found) in
                rw (m, get_slots, miss, quiet, e, lookup) more
          ]
    ]
