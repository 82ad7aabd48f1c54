-- ===== src/Paged/Entries/Match.antt =====
-- A slot of the inline area matches a key, and passes the comparison in full, just if it has that key.
use mathlib.Core.Path.{subst}
use xxfs.Base.{
  ℕ, ◌≡◌, refl, sym, ap, ap₂, ◌∙◌, arith, true, false, List, [], ◌∷◌, ltb, ==→eq, ==_refl, length,
  take, take_all, drop,
}
use xxfs.Os.Image.{length-padded}
use xxfs.Paged.Entries.{slot_key, IsEntry}
use xxfs.Paged.Hash.{xxh64}
use xxfs.Paged.Page.{Slot, Page, key_prefix_len}
use xxfs.Paged.Slots.{bytes_eq, prefix_len, matches}

pub bytes_eq→eq : (xs ys : List ℕ) → bytes_eq xs ys ≡ true → xs ≡ ys
bytes_eq→eq [] [] h = refl
bytes_eq→eq [] (y ∷ ys) h = absurd (cc h)
bytes_eq→eq (x ∷ xs) [] h = absurd (cc h)
bytes_eq→eq (x ∷ xs) (y ∷ ys) h =
    ap₂ ◌∷◌ (==→eq x y (ground arith)) (bytes_eq→eq xs ys (ground arith))

pub bytes_eq_refl : (xs : List ℕ) → bytes_eq xs xs ≡ true
bytes_eq_refl [] = refl
bytes_eq_refl (x ∷ xs) = rw (==_refl x) (bytes_eq_refl xs)

pub eq→bytes_eq : (xs ys : List ℕ) → xs ≡ ys → bytes_eq xs ys ≡ true
eq→bytes_eq xs ys e = subst (λ t. bytes_eq xs t ≡ true) e (bytes_eq_refl xs)

matches_of :
    (s : Slot) (h : ℕ) (key : List ℕ)
    → s.hash ≡ h
    → s.klen ≡ length key
    → take (prefix_len key) s.key_prefix ≡ take (prefix_len key) key
    → matches s h key ≡ true
unfolding matches
matches_of s h key e len same =
    let bytes = eq→bytes_eq (take (prefix_len key) s.key_prefix) (take (prefix_len key) key) same in
    ground arith

pub matches-parts :
    (s : Slot) (h : ℕ) (key : List ℕ)
    → matches s h key ≡ true
    → (s.klen ≡ length key) × (take (prefix_len key) s.key_prefix ≡ take (prefix_len key) key)
unfolding matches
matches-parts s h key m = (
  ground arith,
  bytes_eq→eq (take (prefix_len key) s.key_prefix) (take (prefix_len key) key) (ground arith),
)

prefix_len_short :
    (key : List ℕ) → ltb key_prefix_len (length key) ≡ false → prefix_len key ≡ length key
prefix_len_short key short = ground arith

module _ (pg : Page) (s : Slot) (is : IsEntry pg s) where
  pub length-slot_key : length (slot_key pg s) ≡ s.klen
  unfolding slot_key
  length-slot_key = length-padded (drop s.file_off pg.inline_area) s.klen

  pub matches_own : matches s (xxh64 (slot_key pg s)) (slot_key pg s) ≡ true
  matches_own =
      matches_of s (xxh64 (slot_key pg s)) (slot_key pg s) is.hash (sym length-slot_key)
        is.key_prefix

  -- A short key is all in its prefix.
  pub own_of_matches :
      (key : List ℕ)
      → matches s (xxh64 key) key ≡ true
      → ltb key_prefix_len (length key) ≡ false
      → slot_key pg s ≡ key
  own_of_matches key m short =
      let (len, same) = matches-parts s (xxh64 key) key m in
      let len' : length (slot_key pg s) ≡ length key = length-slot_key ∙ len in
      let all : prefix_len key ≡ length key = prefix_len_short key short in
      let all' : prefix_len (slot_key pg s) ≡ length key = rw (len', all) refl in
      sym (take_all (length key) (slot_key pg s) len')
      ∙ ap (λ (n : ℕ). take n (slot_key pg s)) (sym all')
      ∙ sym is.key_prefix
      ∙ ap (λ (n : ℕ). take n s.key_prefix) (all' ∙ sym all)
      ∙ same
      ∙ take_all (prefix_len key) key (sym all)
