-- ===== src/Paged/Dir/Double.antt =====
-- Doubling the directory changes where no hash leads.
use xxfs.Base.{
  ℕ, zero, suc, ◌+◌, ◌*◌, ◌^◌, ◌-◌, ◌%◌, ◌/◌, ◌≤◌, ◌<◌, ◌≡◌, ◌⊎◌, inl, inr, refl, sym, ap, ap₂, ltb,
  ltb→lt, ◌∙◌, arith, true, some, List, [], ◌∷◌, ◌++◌, ◌==◌, get_or, take_all, u32, length,
  length-append, Bool-cases,
}
use native.Mathlib.Nat.{
  mod-lt, mod-eq_of_lt, mod-eq-sub-mod, div-add-mod, mul-add-mod_self_left, pow-suc,
  pow-le-pow_right,
}
use xxfs.Os.{Os, os_alloc}
use xxfs.Paged.Dir.{Dir, entry, no_offset, paged_dir_double}
use xxfs.Paged.Hash.{dir_index}

-- The table has an entry for each value of `global_depth` bits, at most 20 of them.
pub record IsDir (d : Dir) : Type 0 where
  pub size : d.dir_size ≡ 2 ^ d.global_depth
  pub entries : length d.page_off ≡ d.dir_size
  pub depth : d.global_depth ≤ 20

get_or-append_left :
    (xs ys : List ℕ) (i d : ℕ) → i < length xs → get_or (xs ++ ys) i d ≡ get_or xs i d
get_or-append_left [] ys i d h = absurd (omega arith)
get_or-append_left (x ∷ xs) ys zero d h = refl
get_or-append_left (x ∷ xs) ys (suc i) d h = get_or-append_left xs ys i d (omega arith)

get_or-append_right :
    (xs ys : List ℕ) (n i d : ℕ) → length xs ≡ n → get_or (xs ++ ys) (n + i) d ≡ get_or ys i d
get_or-append_right [] ys n i d h = ap (λ (k : ℕ). get_or ys k d) (omega arith)
get_or-append_right (x ∷ xs) ys n i d h =
    ap (λ (k : ℕ). get_or (x ∷ xs ++ ys) k d) shifted
    ∙ get_or-append_right xs ys (n - 1) i d (omega arith)
  where
    shifted : n + i ≡ suc (n - 1 + i)
    shifted = omega arith

-- A remainder by twice `m` is the one by `m`, or `m` more.
twice : (h m : ℕ) → 0 < m → (h % (m * 2) ≡ h % m) ⊎ (h % (m * 2) ≡ m + h % m)
twice h m pos =
    let r = h % (m * 2) in
    let low : h % m ≡ r % m =
      ap (λ (t : ℕ). t % m) (sym (div-add-mod h (m * 2)) ∙ regroup (h / (m * 2)) r)
      ∙ mul-add-mod_self_left m (2 * (h / (m * 2))) r in
    elim (Bool-cases (ltb r m)) [
      | inl small ↦ inl (sym (mod-eq_of_lt (ltb→lt r m small)) ∙ sym low)
      | inr large ↦
          let above : m ≤ r = ground arith in
          let short : r < m * 2 = mod-lt h (omega arith) in
          inr (
            omega
              (arith, low, mod-eq-sub-mod above, mod-eq_of_lt {n = r - m} {m = m} (omega arith)))
    ]
  where
    regroup : (q r : ℕ) → m * 2 * q + r ≡ m * (2 * q) + r
    regroup q r = omega arith

pub pow_pos : (k : ℕ) → 0 < 2 ^ k
pow_pos zero = omega arith
pow_pos (suc k) = omega (arith, pow-suc 2 k, pow_pos k)

pub pow_next : (k : ℕ) → 2 ^ (k + 1) ≡ 2 ^ k * 2
pow_next k = let next : k + 1 ≡ suc k = omega arith in ap (λ (n : ℕ). 2 ^ n) next ∙ pow-suc 2 k

pow_20 : (k : ℕ) → k ≤ 20 → 2 ^ k < 2 ^ 21
pow_20 k h = omega (arith, pow-le-pow_right {n = 2} (omega arith) h)

pub dir_index_lem : (h k : ℕ) → k ≤ 20 → dir_index h k ≡ h % 2 ^ k
unfolding dir_index
dir_index_lem h k le = elim (Bool-cases (k == 0)) [
  | inl e ↦ rw (dir_index, e) (ground arith)
  | inr e ↦ rw (dir_index, e) (mod-eq_of_lt (omega (arith, mod-lt h (pow_pos k), pow_20 k le)))
]

module _ (d : Dir) (is : IsDir d) (room_left : d.global_depth < 20) where
  -- The directory of twice the size.
  abbrev doubled : Dir
  doubled = record {
    page_off = d.page_off ++ d.page_off;
    dir_size = d.dir_size * 2;
    global_depth = d.global_depth + 1;
  }

  size_small : d.dir_size < 2 ^ 21
  size_small = omega (arith, is.size, pow_20 d.global_depth is.depth)

  paged_dir_double-doubled :
      (os : Os) → (os_alloc os).0 ≡ true → (paged_dir_double d os).0 ≡ some doubled
  unfolding paged_dir_double
  paged_dir_double-doubled os room =
      let whole : length (d.page_off ++ d.page_off) ≡ u32 (d.dir_size * 2) =
        omega (arith, length-append d.page_off d.page_off, is.entries, size_small) in
      rw
        (
          room,
          take_all d.dir_size d.page_off is.entries,
          take_all (u32 (d.dir_size * 2)) (d.page_off ++ d.page_off) whole,
        )
        (ap some (
          ap₂
            (λ (n k : ℕ). record {
              page_off = d.page_off ++ d.page_off;
              dir_size = n;
              global_depth = k;
            })
            (omega (arith, size_small)) (omega (arith, room_left))))

  doubled-IsDir : IsDir doubled
  doubled-IsDir = record {
    size = omega (arith, is.size, pow_next d.global_depth);
    entries = omega (arith, length-append d.page_off d.page_off, is.entries);
    depth = omega arith;
  }

  entry-doubled :
      (h : ℕ)
      → entry doubled (dir_index h (d.global_depth + 1)) ≡ entry d (dir_index h d.global_depth)
  entry-doubled h =
      let m : ℕ = 2 ^ d.global_depth in
      let len : length d.page_off ≡ m = is.entries ∙ is.size in
      let low : h % m < m = mod-lt h (pow_pos d.global_depth) in
      let wide : h % 2 ^ (d.global_depth + 1) ≡ h % (m * 2) =
        ap (λ (n : ℕ). h % n) (pow_next d.global_depth) in
      rw
        (
          dir_index_lem h (d.global_depth + 1) (omega arith),
          dir_index_lem h d.global_depth is.depth,
          wide,
        )
        (elim (twice h m (pow_pos d.global_depth)) [
          | inl e ↦ rw e (get_or-append_left d.page_off d.page_off (h % m) no_offset (omega arith))
          | inr e ↦ rw e (get_or-append_right d.page_off d.page_off m (h % m) no_offset len)
        ])

-- With memory, and below 20 bits, `paged_dir_double` gives a directory of twice the size and one
-- bit more, in which every hash leads to the page that it led to before.
pub paged_dir_double-entry :
    (d : Dir) (os : Os)
    → IsDir d
    → d.global_depth < 20
    → (os_alloc os).0 ≡ true
    → (d' : Dir) × ((paged_dir_double d os).0 ≡ some d')
      × IsDir d'
      × (d'.global_depth ≡ d.global_depth + 1)
      × ((h : ℕ) → entry d' (dir_index h d'.global_depth) ≡ entry d (dir_index h d.global_depth))
paged_dir_double-entry d os is room_left room = (
  doubled d is room_left,
  paged_dir_double-doubled d is room_left os room,
  doubled-IsDir d is room_left,
  refl,
  entry-doubled d is room_left,
)
