-- ===== src/Paged/Page/Codec.antt =====
-- A page that fits its fields is read back from its bytes.
use native.Mathlib.Nat.{pow-suc}
use xxfs.Base.{
  ℕ, zero, suc, ◌+◌, ◌*◌, ◌/◌, ◌^◌, ◌<◌, ◌≡◌, refl, sym, ap, ap₂, ◌∙◌, arith, List, [], ◌∷◌, ◌++◌,
  append_assoc, length, length-append, take, drop, take-append, drop-append, take_all, replicate,
}
use xxfs.Paged.Page.{
  key_prefix_len, slots_per_page, inline_space, Slot, Page, zero_slot, empty_page, le, of_le,
  slot_bytes, slot_of, slots_bytes, slots_of, page_bytes, page_of,
}

pub record IsSlot (s : Slot) : Type 0 where
  pub hash : s.hash < 2 ^ 64
  pub file_off : s.file_off < 2 ^ 64
  pub klen : s.klen < 2 ^ 32
  pub vlen : s.vlen < 2 ^ 32
  pub key_prefix : length s.key_prefix ≡ key_prefix_len
  pub flags : s.flags < 2 ^ 8
  pub pad : s.pad < 2 ^ 56

abbrev pub AllSlots : List Slot → Type 0
AllSlots [] = Unit {0}
AllSlots (s ∷ ss) = IsSlot s × AllSlots ss

pub record IsPage (p : Page) : Type 0 where
  pub count : p.count < 2 ^ 16
  pub local_depth : p.local_depth < 2 ^ 16
  pub inline_used : p.inline_used < 2 ^ 32
  pub overflow_next : p.overflow_next < 2 ^ 64
  pub length_slots : length p.slots ≡ slots_per_page
  pub slots : AllSlots p.slots
  pub length_inline : length p.inline_area ≡ inline_space

pub length-le : (k n : ℕ) → length (le k n) ≡ k
unfolding le
length-le zero n = refl
length-le (suc k) n = ap suc (length-le k (n / 256))

pub of_le-le : (k n : ℕ) → n < 256 ^ k → of_le (le k n) ≡ n
unfolding le of_le
of_le-le zero n h = omega arith
of_le-le (suc k) n h =
    let smaller : n / 256 < 256 ^ k = omega (arith, pow-suc 256 k) in
    omega (arith, of_le-le k (n / 256) smaller)

module _ (k n : ℕ) (ys : List ℕ) where
  drop-le : drop k (le k n ++ ys) ≡ ys
  drop-le = drop-append k (le k n) ys (length-le k n)

  read-le : n < 256 ^ k → of_le (take k (le k n ++ ys)) ≡ n
  read-le h = ap of_le (take-append k (le k n) ys (length-le k n)) ∙ of_le-le k n h

module _ (s : Slot) (ys : List ℕ) (h : IsSlot s) where
  drop_prefix : (zs : List ℕ) → drop key_prefix_len (s.key_prefix ++ zs) ≡ zs
  drop_prefix zs = drop-append key_prefix_len s.key_prefix zs h.key_prefix

  take_prefix : (zs : List ℕ) → take key_prefix_len (s.key_prefix ++ zs) ≡ s.key_prefix
  take_prefix zs = take-append key_prefix_len s.key_prefix zs h.key_prefix

  -- A slot is read back, whatever stands behind it.
  pub slot_of-slot_bytes : slot_of (slot_bytes s ys) ≡ s
  unfolding slot_of slot_bytes
  slot_of-slot_bytes = simp (
    drop-le,
    drop_prefix,
    take_prefix,
    read-le 8 s.hash _ h.hash,
    read-le 8 s.file_off _ h.file_off,
    read-le 4 s.klen _ h.klen,
    read-le 4 s.vlen _ h.vlen,
    read-le 1 s.flags _ h.flags,
    read-le 7 s.pad _ h.pad,
  )

  slot_bytes-append : slot_bytes s ys ≡ slot_bytes s [] ++ ys
  unfolding slot_bytes
  slot_bytes-append = simp append_assoc

  length-slot_bytes : length (slot_bytes s ys) ≡ 48 + length ys
  unfolding slot_bytes
  length-slot_bytes = simp (length-append, length-le, h.key_prefix) (omega arith)

length-slot : (s : Slot) → IsSlot s → length (slot_bytes s []) ≡ 48
length-slot s h = length-slot_bytes s [] h

drop-slot_bytes : (s : Slot) (ys : List ℕ) → IsSlot s → drop 48 (slot_bytes s ys) ≡ ys
drop-slot_bytes s ys h =
    ap (drop 48) (slot_bytes-append s ys h) ∙ drop-append 48 (slot_bytes s []) ys (length-slot s h)

slots_of-slots_bytes :
    (ss : List Slot) (ys : List ℕ) → AllSlots ss → slots_of (length ss) (slots_bytes ss ys) ≡ ss
unfolding slots_of slots_bytes
slots_of-slots_bytes [] ys h = refl
slots_of-slots_bytes (s ∷ ss) ys h = ap₂ ◌∷◌ (slot_of-slot_bytes s (slots_bytes ss ys) h.0) (
    ap (slots_of (length ss)) (drop-slot_bytes s (slots_bytes ss ys) h.0)
    ∙ slots_of-slots_bytes ss ys h.1)

slots_bytes-append :
    (ss : List Slot) (ys : List ℕ) → AllSlots ss → slots_bytes ss ys ≡ slots_bytes ss [] ++ ys
unfolding slots_bytes
slots_bytes-append [] ys h = refl
slots_bytes-append (s ∷ ss) ys h =
    ap (slot_bytes s) (slots_bytes-append ss ys h.1)
    ∙ slot_bytes-append s (slots_bytes ss [] ++ ys) h.0
    ∙ sym (append_assoc (slot_bytes s []) (slots_bytes ss []) ys)
    ∙ ap (λ t. t ++ ys) (sym (slot_bytes-append s (slots_bytes ss []) h.0))

length-slots_bytes :
    (ss : List Slot) (ys : List ℕ)
    → AllSlots ss
    → length (slots_bytes ss ys) ≡ length ss * 48 + length ys
unfolding slots_bytes
length-slots_bytes [] ys h = omega arith
length-slots_bytes (s ∷ ss) ys h =
    omega (arith, length-slot_bytes s (slots_bytes ss ys) h.0, length-slots_bytes ss ys h.1)

drop-slots_bytes :
    (n : ℕ) (ss : List Slot) (ys : List ℕ)
    → AllSlots ss
    → length ss * 48 ≡ n
    → drop n (slots_bytes ss ys) ≡ ys
drop-slots_bytes n ss ys h e =
    ap (drop n) (slots_bytes-append ss ys h)
    ∙ drop-append n (slots_bytes ss []) ys (omega (arith, length-slots_bytes ss [] h))

module _ (p : Page) (h : IsPage p) where
  -- A page takes up exactly one block.
  pub length-page_bytes : length (page_bytes p) ≡ 4096
  unfolding page_bytes
  length-page_bytes =
      simp (length-append, length-le, length-slots_bytes p.slots p.inline_area h.slots)
        (omega (arith, h.length_slots, h.length_inline))

  slots_back : slots_of slots_per_page (slots_bytes p.slots p.inline_area) ≡ p.slots
  slots_back = rw (← h.length_slots) (slots_of-slots_bytes p.slots p.inline_area h.slots)

  inline_back : drop (slots_per_page * 48) (slots_bytes p.slots p.inline_area) ≡ p.inline_area
  inline_back =
      drop-slots_bytes (slots_per_page * 48) p.slots p.inline_area h.slots
        (ap (λ (t : ℕ). t * 48) h.length_slots)

  -- The bytes of a page are read back as the page, if every field fits its width.
  pub page_of-page_bytes : page_of (page_bytes p) ≡ p
  unfolding page_of page_bytes
  page_of-page_bytes = simp (
    drop-le,
    read-le 2 p.count _ h.count,
    read-le 2 p.local_depth _ h.local_depth,
    read-le 4 p.inline_used _ h.inline_used,
    read-le 8 p.overflow_next _ h.overflow_next,
    slots_back,
    inline_back,
    take_all inline_space p.inline_area h.length_inline,
  )

AllSlots-replicate : (n : ℕ) → AllSlots (replicate n zero_slot)
AllSlots-replicate zero = tt
AllSlots-replicate (suc n) = (omega arith, AllSlots-replicate n)

pub empty_page-IsPage : (depth : ℕ) → depth < 2 ^ 16 → IsPage (empty_page depth)
unfolding empty_page
empty_page-IsPage depth h = record {
  count = omega arith;
  local_depth = h;
  inline_used = omega arith;
  overflow_next = omega arith;
  length_slots = refl;
  slots = AllSlots-replicate slots_per_page;
  length_inline = refl;
}
