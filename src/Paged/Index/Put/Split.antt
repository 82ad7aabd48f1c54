-- ===== src/Paged/Index/Put/Split.antt =====
-- A split page: its directory entries and its slots are told apart by the same bit.
use native.Mathlib.Nat.{pow-suc, mod-lt, div-add-mod, add-mul-div_left}
use xxfs.Base.{
  ℕ, zero, suc, ◌+◌, ◌-◌, ◌*◌, ◌/◌, ◌%◌, ◌^◌, ◌≤◌, ◌<◌, ◌≡◌, sym, ap, ◌∙◌, arith, not, ◌&&◌, List,
  [], ◌∷◌, ◌==◌, get_or, length, bit_and, bit_and-power, if◌then◌else◌,
}
use xxfs.Paged.Dir.{Dir, entry, no_offset}
use xxfs.Paged.Dir.Double.{IsDir, dir_index_lem, pow_pos}
use xxfs.Paged.Hash.{dir_index}
use xxfs.Paged.Index.Put.{relabel}
use xxfs.Paged.Page.{Slot}
use xxfs.Paged.Slots.{goes_up}

relabel_at :
    (i split_bit off new_off : ℕ) (offs : List ℕ) (j : ℕ)
    → j < length offs
    → let o = get_or offs j no_offset in
      get_or (relabel i split_bit off new_off offs) j no_offset
      ≡ (if o == off && not (bit_and (i + j) split_bit == 0) then new_off else o)
unfolding relabel
relabel_at i split_bit off new_off [] j h = absurd (omega arith)
relabel_at i split_bit off new_off (o ∷ offs) zero h =
    ap (λ (k : ℕ). if o == off && not (bit_and k split_bit == 0) then new_off else o) (omega arith)
relabel_at i split_bit off new_off (o ∷ offs) (suc j) h =
    relabel_at (i + 1) split_bit off new_off offs j (omega arith)
    ∙ ap
        (λ (k : ℕ).
          if get_or offs j no_offset == off && not (bit_and k split_bit == 0)
          then new_off
          else get_or offs j no_offset)
        (omega arith)

pow_split : (m r : ℕ) → 2 ^ (m + r) ≡ 2 ^ m * 2 ^ r
pow_split zero r =
    let start : zero + r ≡ r = omega arith in
    let one : 2 ^ r ≡ 2 ^ zero * 2 ^ r = omega arith in ap (λ (n : ℕ). 2 ^ n) start ∙ one
pow_split (suc m) r =
    let next : suc m + r ≡ suc (m + r) = omega arith in
    ap (λ (n : ℕ). 2 ^ n) next
    ∙ pow-suc 2 (m + r)
    ∙ ap (λ (n : ℕ). n * 2) (pow_split m r)
    ∙ regroup (2 ^ m) (2 ^ r)
    ∙ ap (λ (n : ℕ). n * 2 ^ r) (sym (pow-suc 2 m))
  where
    regroup : (a b : ℕ) → a * b * 2 ≡ a * 2 * b
    regroup a b = omega arith

-- The low bits have the bit.
low_bits : (h m wide : ℕ) → m < wide → h % 2 ^ wide / 2 ^ m % 2 ≡ h / 2 ^ m % 2
low_bits h m wide lt =
    let r = wide - suc m in
    let q = h / 2 ^ wide in
    let x = h % 2 ^ wide in
    let power : 2 ^ wide ≡ 2 ^ m * (2 ^ r * 2) =
      ap (λ (n : ℕ). 2 ^ n) sum ∙ pow_split m (suc r) ∙ ap (λ (n : ℕ). 2 ^ m * n) (pow-suc 2 r) in
    let whole : h ≡ x + 2 ^ m * (2 ^ r * 2 * q) =
      sym (div-add-mod h (2 ^ wide))
      ∙ ap (λ (n : ℕ). n * q + x) power
      ∙ regroup (2 ^ m) (2 ^ r * 2) q x in
    let above : h / 2 ^ m ≡ x / 2 ^ m + 2 ^ r * 2 * q =
      ap (λ (n : ℕ). n / 2 ^ m) whole ∙ add-mul-div_left x (2 ^ r * 2 * q) (pow_pos m) in
    parity (x / 2 ^ m) (h / 2 ^ m) (2 ^ r) q above
  where
    sum : wide ≡ m + suc (wide - suc m)
    sum = omega arith

    regroup : (a b c d : ℕ) → a * b * c + d ≡ d + a * (b * c)
    regroup a b c d = omega arith

    parity : (a b c d : ℕ) → b ≡ a + c * 2 * d → a % 2 ≡ b % 2
    parity a b c d e = rw e (omega arith)

-- Up to 20 bits, the bit of a hash is that of its index.
index_bit :
    (h m wide : ℕ)
    → m < wide
    → wide ≤ 20
    → bit_and (dir_index h wide) (2 ^ m) ≡ h / 2 ^ m % 2 * 2 ^ m
index_bit h m wide lt le =
    bit_and-power (dir_index h wide) m
    ∙ ap (λ (n : ℕ). n / 2 ^ m % 2 * 2 ^ m) (dir_index_lem h wide le)
    ∙ ap (λ (n : ℕ). n * 2 ^ m) (low_bits h m wide lt)

-- When a page is split to `depth` bits, no more than the directory has, a hash that led to the page
-- leads to the new page just if `page_split_and_retry` moves the slots of that hash there, and every
-- hash that led elsewhere still does.
pub relabel-goes_up :
    (d : Dir) (depth off new_off : ℕ) (s : Slot)
    → IsDir d
    → 0 < depth
    → depth ≤ d.global_depth
    → let i = dir_index s.hash d.global_depth in
      get_or (relabel 0 (2 ^ (depth - 1)) off new_off d.page_off) i no_offset
      ≡ (if entry d i == off && goes_up depth s then new_off else entry d i)
relabel-goes_up d depth off new_off s is pos le =
    let i = dir_index s.hash d.global_depth in
    let inside : i < length d.page_off = omega (
      arith,
      is.entries,
      is.size,
      dir_index_lem s.hash d.global_depth is.depth,
      mod-lt s.hash (pow_pos d.global_depth),
    ) in
    let same : bit_and (0 + i) (2 ^ (depth - 1))
        ≡ bit_and (dir_index s.hash depth) (2 ^ (depth - 1)) =
      ap (λ (k : ℕ). bit_and k (2 ^ (depth - 1))) (omega arith)
      ∙ index_bit s.hash (depth - 1) d.global_depth (omega arith) is.depth
      ∙ sym (index_bit s.hash (depth - 1) depth (omega arith) (omega (arith, is.depth))) in
    relabel_at 0 (2 ^ (depth - 1)) off new_off d.page_off i inside
    ∙ ap (λ (b : ℕ). if entry d i == off && not (b == 0) then new_off else entry d i) same
