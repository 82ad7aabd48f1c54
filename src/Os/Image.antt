-- ===== src/Os/Image.antt =====
-- The bytes of the image: writing and reading at an offset.
use xxfs.Base.{
  ℕ, zero, suc, ◌+◌, ◌-◌, ◌≤◌, ◌<◌, ◌≡◌, refl, sym, ap, ap₂, ◌∙◌, arith, Bool, ◌&&◌, List, [], ◌∷◌,
  ◌⊎◌, ltb, leb, if◌then◌else◌, length, get_or, take, drop,
}

overwrite : List ℕ → List ℕ → List ℕ
overwrite d [] = d
overwrite [] (b ∷ bs) = b ∷ bs
overwrite (x ∷ d) (b ∷ bs) = b ∷ overwrite d bs

unfoldable pub write : List ℕ → ℕ → List ℕ → List ℕ
unfolding overwrite
write d zero buf = overwrite d buf
write [] (suc n) buf = 0 ∷ write [] n buf
write (x ∷ d) (suc n) buf = x ∷ write d n buf

-- `pwrite(2)`: the bytes that it moves land at `off`, behind zeros if the image was shorter.
abbrev pub put_bytes : List ℕ → ℕ → List ℕ → List ℕ
put_bytes image off [] = image
put_bytes image off (b ∷ buf) = write image off (b ∷ buf)

-- The first `n` bytes, with zeros where there are none.
unfoldable pub padded : List ℕ → ℕ → List ℕ
padded xs zero = []
padded [] (suc n) = 0 ∷ padded [] n
padded (x ∷ xs) (suc n) = x ∷ padded xs n

-- A zeroed buffer of `n` bytes after a read at `off`.
abbrev pub slice : List ℕ → ℕ → ℕ → List ℕ
slice d off n = padded (drop off d) n

abbrev pub byte : List ℕ → ℕ → ℕ
byte d i = get_or d i 0

byte_past : (xs : List ℕ) (i : ℕ) → length xs ≤ i → byte xs i ≡ 0
byte_past [] i h = refl
byte_past (x ∷ xs) zero h = absurd (omega arith)
byte_past (x ∷ xs) (suc i) h = byte_past xs i (omega arith)

byte-overwrite :
    (d buf : List ℕ) (i : ℕ)
    → byte (overwrite d buf) i ≡ (if ltb i (length buf) then byte buf i else byte d i)
unfolding overwrite
byte-overwrite d [] i = ground arith
byte-overwrite [] (b ∷ bs) zero = ground arith
byte-overwrite [] (b ∷ bs) (suc i) = ground (arith, byte_past bs i)
byte-overwrite (x ∷ d) (b ∷ bs) zero = ground arith
byte-overwrite (x ∷ d) (b ∷ bs) (suc i) = ground (arith, byte-overwrite d bs i)

pub length-padded : (xs : List ℕ) (n : ℕ) → length (padded xs n) ≡ n
unfolding padded
length-padded xs zero = refl
length-padded [] (suc n) = ap suc (length-padded [] n)
length-padded (x ∷ xs) (suc n) = ap suc (length-padded xs n)

byte-padded : (xs : List ℕ) (n i : ℕ) → i < n → byte (padded xs n) i ≡ byte xs i
unfolding padded
byte-padded xs zero i h = absurd (omega arith)
byte-padded [] (suc n) zero h = refl
byte-padded [] (suc n) (suc i) h = byte-padded [] n i (omega arith)
byte-padded (x ∷ xs) (suc n) zero h = refl
byte-padded (x ∷ xs) (suc n) (suc i) h = byte-padded xs n i (omega arith)

byte-drop : (d : List ℕ) (n i : ℕ) → byte (drop n d) i ≡ byte d (n + i)
byte-drop d zero i = ap (byte d) (omega arith)
byte-drop [] (suc n) i = refl
byte-drop (x ∷ d) (suc n) i =
    byte-drop d n i ∙ (let e : suc (n + i) ≡ suc n + i = omega arith in ap (byte (x ∷ d)) e)

bytes_ext :
    (xs ys : List ℕ)
    → length xs ≡ length ys
    → ((i : ℕ) → i < length xs → byte xs i ≡ byte ys i)
    → xs ≡ ys
bytes_ext [] [] e h = refl
bytes_ext [] (y ∷ ys) e h = absurd (omega arith)
bytes_ext (x ∷ xs) [] e h = absurd (omega arith)
bytes_ext (x ∷ xs) (y ∷ ys) e h =
    ap₂ ◌∷◌ (h 0 (omega arith)) (bytes_ext xs ys (omega arith) (λ i p. h (suc i) (omega arith)))

abbrev covers : ℕ → ℕ → ℕ → Bool
covers a n i = leb a i && ltb i (a + n)

sub_zero : (i : ℕ) → i - 0 ≡ i
sub_zero i = omega arith

byte-write :
    (d : List ℕ) (a : ℕ) (buf : List ℕ) (i : ℕ)
    → byte (write d a buf) i ≡ (if covers a (length buf) i then byte buf (i - a) else byte d i)
unfolding write
byte-write d zero buf i = ground (arith, byte-overwrite d buf i, sub_zero i)
byte-write [] (suc a) buf zero = ground arith
byte-write [] (suc a) buf (suc i) = ground (arith, byte-write [] a buf i)
byte-write (x ∷ d) (suc a) buf zero = ground arith
byte-write (x ∷ d) (suc a) buf (suc i) = ground (arith, byte-write d a buf i)

byte-slice : (d : List ℕ) (b n i : ℕ) → i < n → byte (slice d b n) i ≡ byte d (b + i)
byte-slice d b n i h = byte-padded (drop b d) n i h ∙ byte-drop d b i

module _ (d : List ℕ) (a : ℕ) (buf : List ℕ) where
  -- A read of what was just written.
  pub slice-write_self : slice (write d a buf) a (length buf) ≡ buf
  slice-write_self =
      bytes_ext (slice (write d a buf) a (length buf)) buf
        (length-padded (drop a (write d a buf)) (length buf))
        (λ i h. same i (rw length-padded at h))
    where
      same : (i : ℕ) → i < length buf → byte (slice (write d a buf) a (length buf)) i ≡ byte buf i
      same i h = byte-slice (write d a buf) a (length buf) i h ∙ byte-write d a buf (a + i) ∙ inside
        where
          back : a + i - a ≡ i
          back = omega arith

          inside :
              (if covers a (length buf) (a + i) then byte buf (a + i - a) else byte d (a + i))
              ≡ byte buf i
          inside = rw back (ground arith)

  -- A read beside what was written.
  pub slice-write_apart :
      (b n : ℕ) → (b + n ≤ a) ⊎ (a + length buf ≤ b) → slice (write d a buf) b n ≡ slice d b n
  slice-write_apart b n apart =
      bytes_ext (slice (write d a buf) b n) (slice d b n)
        (length-padded (drop b (write d a buf)) n ∙ sym (length-padded (drop b d) n))
        (λ i h. same i (rw length-padded at h))
    where
      same : (i : ℕ) → i < n → byte (slice (write d a buf) b n) i ≡ byte (slice d b n) i
      same i h =
          byte-slice (write d a buf) b n i h
          ∙ byte-write d a buf (b + i)
          ∙ outside
          ∙ sym (byte-slice d b n i h)
        where
          outside :
              (if covers a (length buf) (b + i) then byte buf (b + i - a) else byte d (b + i))
              ≡ byte d (b + i)
          outside = ground arith

-- A full read into a zeroed buffer.
pub padded-take : (n : ℕ) (xs : List ℕ) → padded (take n xs) n ≡ padded xs n
unfolding padded
padded-take zero xs = refl
padded-take (suc n) [] = refl
padded-take (suc n) (x ∷ xs) = ap (λ t. x ∷ t) (padded-take n xs)

-- A part of a part.
pub slice-slice :
    (d : List ℕ) (a n b m : ℕ) → b + m ≤ n → slice (slice d a n) b m ≡ slice d (a + b) m
slice-slice d a n b m h =
    bytes_ext (slice (slice d a n) b m) (slice d (a + b) m)
      (length-padded (drop b (slice d a n)) m ∙ sym (length-padded (drop (a + b) d) m)) same
  where
    same :
        (i : ℕ)
        → i < length (slice (slice d a n) b m)
        → byte (slice (slice d a n) b m) i ≡ byte (slice d (a + b) m) i
    same i p =
        let q : i < m = omega (arith, length-padded (drop b (slice d a n)) m) in
        byte-slice (slice d a n) b m i q
        ∙ byte-slice d a n (b + i) (omega arith)
        ∙ ap (byte d) (omega arith)
        ∙ sym (byte-slice d (a + b) m i q)

-- `memcpy` into a buffer: what was copied, and what was not touched.
pub slice-put_bytes_self :
    (d : List ℕ) (a : ℕ) (buf : List ℕ) → slice (put_bytes d a buf) a (length buf) ≡ buf
slice-put_bytes_self d a [] = unfold padded in refl
slice-put_bytes_self d a (b ∷ buf) = slice-write_self d a (b ∷ buf)

pub slice-put_bytes_apart :
    (d : List ℕ) (a : ℕ) (buf : List ℕ) (b n : ℕ)
    → (b + n ≤ a) ⊎ (a + length buf ≤ b)
    → slice (put_bytes d a buf) b n ≡ slice d b n
slice-put_bytes_apart d a [] b n apart = refl
slice-put_bytes_apart d a (c ∷ buf) b n apart = slice-write_apart d a (c ∷ buf) b n apart

length-write :
    (d : List ℕ) (a : ℕ) (buf : List ℕ)
    → a + length buf ≤ length d
    → length (write d a buf) ≡ length d
unfolding write overwrite
length-write d zero [] h = refl
length-write [] zero (b ∷ buf) h = absurd (omega arith)
length-write (x ∷ d) zero (b ∷ buf) h = ap suc (length-write d zero buf (omega arith))
length-write [] (suc a) buf h = absurd (omega arith)
length-write (x ∷ d) (suc a) buf h = ap suc (length-write d a buf (omega arith))

pub length-put_bytes :
    (d : List ℕ) (a : ℕ) (buf : List ℕ)
    → a + length buf ≤ length d
    → length (put_bytes d a buf) ≡ length d
length-put_bytes d a [] h = refl
length-put_bytes d a (b ∷ buf) h = length-write d a (b ∷ buf) h

pub slice_ext :
    (d e : List ℕ) (b n : ℕ)
    → ((k : ℕ) → b ≤ k → k < b + n → byte d k ≡ byte e k)
    → slice d b n ≡ slice e b n
slice_ext d e b n h =
    bytes_ext (slice d b n) (slice e b n)
      (length-padded (drop b d) n ∙ sym (length-padded (drop b e) n))
      (λ i p.
        let q : i < n = omega (arith, length-padded (drop b d) n) in
        byte-slice d b n i q ∙ h (b + i) (omega arith) (omega arith) ∙ sym (byte-slice e b n i q))

pub byte-put_byte_self : (d : List ℕ) (a c : ℕ) → byte (put_bytes d a (c ∷ [])) a ≡ c
byte-put_byte_self d a c = byte-write d a (c ∷ []) a ∙ (ground (arith, sub_self a))
  where
    sub_self : (n : ℕ) → n - n ≡ 0
    sub_self n = omega arith

pub byte-put_bytes_before :
    (d : List ℕ) (a : ℕ) (buf : List ℕ) (k : ℕ) → k < a → byte (put_bytes d a buf) k ≡ byte d k
byte-put_bytes_before d a [] k h = refl
byte-put_bytes_before d a (c ∷ buf) k h = byte-write d a (c ∷ buf) k ∙ ground arith

reach-write :
    (d : List ℕ) (a : ℕ) (buf : List ℕ)
    → (a + length buf ≤ length (write d a buf)) × (length d ≤ length (write d a buf))
unfolding write overwrite
reach-write d zero [] = (omega arith, omega arith)
reach-write [] zero (b ∷ buf) = (omega arith, omega arith)
reach-write (x ∷ d) zero (b ∷ buf) =
    let (p, q) = reach-write d zero buf in (omega (arith, p), omega (arith, q))
reach-write [] (suc a) buf = let (p, q) = reach-write [] a buf in (omega (arith, p), omega arith)
reach-write (x ∷ d) (suc a) buf =
    let (p, q) = reach-write d a buf in (omega (arith, p), omega (arith, q))

-- The image reaches to the end of what was written, and does not shrink.
pub put_bytes_reaches :
    (d : List ℕ) (a : ℕ) (buf : List ℕ)
    → 0 < length buf
    → (a + length buf ≤ length (put_bytes d a buf)) × (length d ≤ length (put_bytes d a buf))
put_bytes_reaches d a [] h = absurd (omega arith)
put_bytes_reaches d a (b ∷ buf) h = reach-write d a (b ∷ buf)
