-- ===== src/Os/Parts.antt =====
-- Bytes in a row, and zeros.
use xxfs.Base.{
  ℕ, zero, suc, ◌+◌, ◌-◌, ◌≤◌, ◌≡◌, refl, sym, ap, ◌∙◌, arith, List, [], ◌∷◌, ◌++◌, drop, take,
  length, length-drop, take_all, replicate,
}
use xxfs.Os.Image.{padded, slice}

drop_nil : (n : ℕ) → drop {A = ℕ} n [] ≡ []
drop_nil zero = refl
drop_nil (suc n) = refl

drop-drop : (m n : ℕ) (d : List ℕ) → drop n (drop m d) ≡ drop (m + n) d
drop-drop zero n d = let e : n ≡ 0 + n = omega arith in ap (λ (k : ℕ). drop k d) e
drop-drop (suc m) n [] = drop_nil n ∙ sym (drop_nil (suc m + n))
drop-drop (suc m) n (x ∷ d) =
    drop-drop m n d
    ∙ (let e : suc (m + n) ≡ suc m + n = omega arith in ap (λ (k : ℕ). drop k (x ∷ d)) e)

padded_split : (xs : List ℕ) (m n : ℕ) → padded xs (m + n) ≡ padded xs m ++ padded (drop m xs) n
unfolding padded
padded_split xs zero n = let e : 0 + n ≡ n = omega arith in ap (λ (k : ℕ). padded xs k) e
padded_split [] (suc m) n =
    let e : suc m + n ≡ suc (m + n) = omega arith in
    ap (λ (k : ℕ). padded [] k) e
    ∙ ap (λ t. 0 ∷ t) (padded_split [] m n ∙ ap (λ t. padded [] m ++ padded t n) (drop_nil m))
padded_split (x ∷ xs) (suc m) n =
    let e : suc m + n ≡ suc (m + n) = omega arith in
    ap (λ (k : ℕ). padded (x ∷ xs) k) e ∙ ap (λ t. x ∷ t) (padded_split xs m n)

pub slice_split :
    (d : List ℕ) (off m n : ℕ) → slice d off (m + n) ≡ slice d off m ++ slice d (off + m) n
slice_split d off m n =
    padded_split (drop off d) m n ∙ ap (λ t. slice d off m ++ padded t n) (drop-drop off m d)

abbrev zeros : ℕ → List ℕ
zeros k = replicate k 0

drop-zeros : (off k : ℕ) → drop off (zeros k) ≡ zeros (k - off)
drop-zeros zero k = let e : k ≡ k - 0 = omega arith in ap zeros e
drop-zeros (suc off) zero = let e : 0 ≡ 0 - suc off = omega arith in ap zeros e
drop-zeros (suc off) (suc k) =
    drop-zeros off k ∙ (let e : k - off ≡ suc k - suc off = omega arith in ap zeros e)

padded_zeros : (k n : ℕ) → padded (replicate k 0) n ≡ replicate n 0
unfolding padded
padded_zeros k zero = refl
padded_zeros zero (suc n) = ap (λ t. 0 ∷ t) (padded_zeros zero n)
padded_zeros (suc k) (suc n) = ap (λ t. 0 ∷ t) (padded_zeros k n)

pub slice_zeros : (k off n : ℕ) → slice (replicate k 0) off n ≡ replicate n 0
slice_zeros k off n = ap (λ t. padded t n) (drop-zeros off k) ∙ padded_zeros (k - off) n

padded_inside : (n : ℕ) (xs : List ℕ) → n ≤ length xs → padded xs n ≡ take n xs
unfolding padded
padded_inside zero xs h = refl
padded_inside (suc n) [] h = absurd (omega arith)
padded_inside (suc n) (x ∷ xs) h = ap (λ t. x ∷ t) (padded_inside n xs (omega arith))

-- A read inside the image.
pub take-drop : (n off : ℕ) (d : List ℕ) → off + n ≤ length d → take n (drop off d) ≡ slice d off n
take-drop n off d h =
    sym (padded_inside n (drop off d) (omega (arith, h, length-drop off d (omega arith))))

pub padded_all : (n : ℕ) (xs : List ℕ) → length xs ≡ n → padded xs n ≡ xs
padded_all n xs h = padded_inside n xs (omega arith) ∙ take_all n xs h
