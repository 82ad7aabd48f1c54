-- ===== src/Fs/Field.antt =====
-- Numbers in a C structure that is kept as its bytes.
use xxfs.Base.{
  ℕ, ◌+◌, ◌≤◌, ◌<◌, ◌^◌, ◌≡◌, ◌⊎◌, refl, sym, ap, ◌∙◌, inl, inr, Bool, true, false, ◌&&◌, ◌||◌,
  Option, none, some, List, [], ◌∷◌, ◌==◌, leb, ==→eq, leb→le, if◌then◌else◌, Bool-cases, arith,
  length,
}
use xxfs.Os.Image.{put_bytes, slice, slice-put_bytes_self, slice-put_bytes_apart, length-put_bytes}
use xxfs.Paged.Page.{le, of_le}
use xxfs.Paged.Page.Codec.{length-le, of_le-le}

-- Where a field lies, and its bytes.
pub record Field : Type 0 where
  pub off : ℕ
  pub width : ℕ

abbrev pub get : Field → List ℕ → ℕ
get f ino = of_le (slice ino f.off f.width)

abbrev pub put : Field → ℕ → List ℕ → List ℕ
put f v ino = put_bytes ino f.off (le f.width v)

pub get-put_self : (f : Field) (v : ℕ) (ino : List ℕ) → v < 256 ^ f.width → get f (put f v ino) ≡ v
get-put_self f v ino h =
    ap of_le (
      ap (slice (put f v ino) f.off) (sym (length-le f.width v))
      ∙ slice-put_bytes_self ino f.off (le f.width v))
    ∙ of_le-le f.width v h

abbrev pub Apart : Field → Field → Type 0
Apart f g = (f.off + f.width ≤ g.off) ⊎ (g.off + g.width ≤ f.off)

pub slice-put_apart :
    (f : Field) (v : ℕ) (ino : List ℕ) (b n : ℕ)
    → (b + n ≤ f.off) ⊎ (f.off + f.width ≤ b)
    → slice (put f v ino) b n ≡ slice ino b n
slice-put_apart f v ino b n apart =
    slice-put_bytes_apart ino f.off (le f.width v) b n (rw (length-le f.width v) apart)

pub get-put-Apart :
    (f g : Field) (v : ℕ) (ino : List ℕ) → Apart f g → get f (put g v ino) ≡ get f ino
get-put-Apart f g v ino apart = ap of_le (slice-put_apart g v ino f.off f.width apart)

-- Several fields, the last one of the list first.
abbrev pub put_all : List (Field × ℕ) → List ℕ → List ℕ
put_all [] mem = mem
put_all ((f, v) ∷ fvs) mem = put f v (put_all fvs mem)

abbrev same : Field → Field → Bool
same f g = f.off == g.off && f.width == g.width

abbrev beside : Field → Field → Bool
beside f g = leb (f.off + f.width) g.off || leb (g.off + g.width) f.off

-- What `put_all` leaves in a field, if it is one of the list or lies beside those in front of it.
abbrev pub value_in : List (Field × ℕ) → Field → Option ℕ
value_in [] f = none
value_in ((g, v) ∷ fvs) f = if same f g then some v else if beside f g then value_in fvs f else none

-- None of the fields touches these bytes.
abbrev pub spares : List (Field × ℕ) → ℕ → ℕ → Bool
spares [] off n = true
spares ((g, v) ∷ fvs) off n = (leb (off + n) g.off || leb (g.off + g.width) off) && spares fvs off n

one_of : (a b c d : ℕ) → (leb a b || leb c d) ≡ true → (a ≤ b) ⊎ (c ≤ d)
one_of a b c d h = elim (Bool-cases (leb a b)) [
  | inl e ↦ inl (leb→le a b e)
  | inr e ↦ inr (leb→le c d (rw e at h))
]

both_of : (a b : Bool) → (a && b) ≡ true → (a ≡ true) × (b ≡ true)
both_of true b h = (refl, h)
both_of false b h = absurd (cc h)

pub get-put_all :
    (fvs : List (Field × ℕ)) (mem : List ℕ) (f : Field) (v : ℕ)
    → value_in fvs f ≡ some v
    → v < 256 ^ f.width
    → get f (put_all fvs mem) ≡ v
get-put_all [] mem f v h bound = absurd (cc h)
get-put_all ((g, w) ∷ fvs) mem f v h bound = elim (Bool-cases (same f g)) [
  | inl e ↦
      let (o, d) = both_of (f.off == g.off) (f.width == g.width) e in
      let off_eq : f.off ≡ g.off = ==→eq _ _ o in
      let width_eq : f.width ≡ g.width = ==→eq _ _ d in
      let found : some w ≡ some v = rw e at h in
      let value_eq : w ≡ v = cc found in
      rw (off_eq, width_eq, ← value_eq)
        (get-put_self g w (put_all fvs mem) (rw (← width_eq, value_eq) bound))
  | inr e ↦ elim (Bool-cases (beside f g)) [
    | inl b ↦
        get-put-Apart f g w (put_all fvs mem) (one_of _ _ _ _ b)
        ∙ get-put_all fvs mem f v (rw (e, b) at h) bound
    | inr b ↦ absurd (let no : none ≡ some v = rw (e, b) at h in cc no)
  ]
]

pub slice-put_all :
    (fvs : List (Field × ℕ)) (mem : List ℕ) (off n : ℕ)
    → spares fvs off n ≡ true
    → slice (put_all fvs mem) off n ≡ slice mem off n
slice-put_all [] mem off n h = refl
slice-put_all ((g, w) ∷ fvs) mem off n h =
    let (here, rest) =
      both_of (leb (off + n) g.off || leb (g.off + g.width) off) (spares fvs off n) h in
    slice-put_apart g w (put_all fvs mem) off n (one_of _ _ _ _ here)
    ∙ slice-put_all fvs mem off n rest

-- All of the fields lie inside of `n` bytes.
abbrev pub all_inside : List (Field × ℕ) → ℕ → Bool
all_inside [] n = true
all_inside ((g, v) ∷ fvs) n = leb (g.off + g.width) n && all_inside fvs n

pub length-put_all :
    (fvs : List (Field × ℕ)) (mem : List ℕ)
    → all_inside fvs (length mem) ≡ true
    → length (put_all fvs mem) ≡ length mem
length-put_all [] mem h = refl
length-put_all ((g, w) ∷ fvs) mem h =
    let (here, rest) =
      both_of (leb (g.off + g.width) (length mem)) (all_inside fvs (length mem)) h in
    let same_length = length-put_all fvs mem rest in
    length-put_bytes (put_all fvs mem) g.off (le g.width w)
      (omega (arith, leb→le _ _ here, length-le g.width w, same_length))
    ∙ same_length
