-- ===== src/Check/Lengths.antt =====
-- The repair of `xxfs_os_ecc_correct` keeps the size of the memory.
use xxfs.Base.{
  ℕ, zero, suc, ◌+◌, ◌*◌, ◌-◌, ◌^◌, ◌≤◌, ◌≡◌, inl, inr, refl, ap, ◌∙◌, arith, List, [], ◌∷◌, ◌==◌,
  ltb, bit_and, bit_xor, Bool-cases, length, get_or,
}
use xxfs.Check.{EccRc, intact, corrected, word, word_count, codes_from, correct_from, ecc_correct}
use xxfs.Os.Image.{put_bytes, length-put_bytes}
use xxfs.Paged.Page.{le}
use xxfs.Paged.Page.Codec.{length-le}

length-correct_from :
    (codes : List ℕ) (i at : ℕ) (rc : EccRc) (mem : List ℕ)
    → 8 * (i + length codes) ≤ length mem
    → length (correct_from codes i at rc mem).1 ≡ length mem
unfolding correct_from
length-correct_from [] i at rc mem h = refl
length-correct_from (c ∷ codes) i at rc mem h = elim (Bool-cases (syndrome == 0)) [
  | inl z ↦ rw (z, correct_from) (length-correct_from codes (i + 1) at rc mem (omega (arith, h)))
  | inr z ↦ elim (Bool-cases (bit_and syndrome 0x80 == 0)) [
    | inl t ↦ rw (z, t, correct_from) refl
    | inr t ↦ elim (Bool-cases (bit_pos == 0)) [
      | inl p ↦ rw (z, t, p, correct_from) refl
      | inr p ↦ elim (Bool-cases (ltb 64 bit_pos)) [
        | inl q ↦ rw (z, t, p, q, correct_from) refl
        | inr q ↦
            rw (z, t, p, q, correct_from)
              (length-correct_from codes (i + 1) at corrected (put_bytes mem (8 * i) fixed)
                  (omega (arith, h, same))
                ∙ same)
      ]
    ]
  ]
]
  where
    syndrome : ℕ
    syndrome = bit_xor (get_or mem (at + i) 0) c

    bit_pos : ℕ
    bit_pos = bit_and syndrome 0x7F

    fixed : List ℕ
    fixed = le 8 (bit_xor (word mem i) (2 ^ (bit_pos - 1)))

    same : length (put_bytes mem (8 * i) fixed) ≡ length mem
    same =
        length-put_bytes mem (8 * i) fixed
          (omega (arith, h, length-le 8 (bit_xor (word mem i) (2 ^ (bit_pos - 1)))))

length-codes_from : (n i : ℕ) (mem : List ℕ) → length (codes_from n i mem) ≡ n
unfolding codes_from
length-codes_from zero i mem = refl
length-codes_from (suc n) i mem = ap suc (length-codes_from n (i + 1) mem)

pub length-ecc_correct :
    (mem : List ℕ) (len at : ℕ)
    → 8 * word_count len ≤ length mem
    → length (ecc_correct mem len at).1 ≡ length mem
unfolding ecc_correct
length-ecc_correct mem len at h =
    length-correct_from (codes_from (word_count len) 0 mem) 0 at intact mem
      (omega (arith, h, length-codes_from (word_count len) 0 mem))
