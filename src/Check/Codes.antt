-- ===== src/Check/Codes.antt =====
-- When `xxfs_os_ecc_correct` finds nothing to correct, and that fresh codes are such.
use mathlib.Core.Path.{subst}
use xxfs.Base.{
  ℕ, zero, suc, ◌+◌, ◌*◌, ◌-◌, ◌^◌, ◌≤◌, ◌<◌, ◌≡◌, ◌≢◌, ◌↔◌, inl, inr, refl, sym, ap, ◌∙◌, arith,
  true, List, [], ◌∷◌, ◌==◌, ==→eq, ==→ne, ltb, bit_and, bit_xor, bit_xor_self, bit_xor_zero,
  Bool-cases, length,
}
use xxfs.Check.{
  EccRc, intact, corrected, ecc_word, word, word_count, compute_from, ecc_compute, codes_from,
  correct_from, ecc_correct,
}
use xxfs.Os.Image.{
  put_bytes, slice_ext, byte, byte-put_byte_self, byte-put_bytes_before, length-put_bytes,
}
use xxfs.Paged.Page.{le, of_le}

-- The codes in memory from `at + i` on are these.
abbrev pub Stored : List ℕ → ℕ → ℕ → List ℕ → Type 0
Stored [] i at mem = Unit
Stored (c ∷ codes) i at mem = (byte mem (at + i) ≡ c) × Stored codes (i + 1) at mem

-- Codes that are as computed: nothing is changed.
Stored-correct :
    (codes : List ℕ) (i at : ℕ) (rc : EccRc) (mem : List ℕ)
    → Stored codes i at mem
    → correct_from codes i at rc mem ≡ (rc, mem)
unfolding correct_from
Stored-correct [] i at rc mem same = refl
Stored-correct (c ∷ codes) i at rc mem (same, more) =
    let no_syndrome : (bit_xor (byte mem (at + i)) c == 0) ≡ true =
      rw (same, bit_xor_self c) refl in
    rw (no_syndrome, correct_from) (Stored-correct codes (i + 1) at rc mem more)

-- A changed word is never forgotten.
correct_from_changed :
    (codes : List ℕ) (i at : ℕ) (mem : List ℕ) → (correct_from codes i at corrected mem).0 ≢ intact
unfolding correct_from
correct_from_changed [] i at mem e = absurd (cc e)
correct_from_changed (c ∷ codes) i at mem e =
    let syndrome = bit_xor (byte mem (at + i)) c in
    let bit_pos = bit_and syndrome 0x7F in
    elim (Bool-cases (syndrome == 0)) [
      | inl z ↦ correct_from_changed codes (i + 1) at mem (rw (z, correct_from) at e)
      | inr z ↦ elim (Bool-cases (bit_and syndrome 0x80 == 0)) [
        | inl p ↦ absurd (cc (rw (z, correct_from, p) at e))
        | inr p ↦ elim (Bool-cases (bit_pos == 0)) [
          | inl q ↦ absurd (cc (rw (z, correct_from, p, q) at e))
          | inr q ↦ elim (Bool-cases (ltb 64 bit_pos)) [
            | inl r ↦ absurd (cc (rw (z, correct_from, p, q, r) at e))
            | inr r ↦
                correct_from_changed codes (i + 1) at
                  (put_bytes mem (8 * i) (le 8 (bit_xor (word mem i) (2 ^ (bit_pos - 1)))))
                  (rw (z, correct_from, p, q, r) at e)
          ]
        ]
      ]
    ]

correct-Stored :
    (codes : List ℕ) (i at : ℕ) (mem : List ℕ)
    → (correct_from codes i at intact mem).0 ≡ intact
    → Stored codes i at mem
unfolding correct_from
correct-Stored [] i at mem e = tt
correct-Stored (c ∷ codes) i at mem e =
    let syndrome = bit_xor (byte mem (at + i)) c in
    let bit_pos = bit_and syndrome 0x7F in
    elim (Bool-cases (syndrome == 0)) [
      | inl z ↦ (
        bit_xor_zero (byte mem (at + i)) c (==→eq syndrome 0 z),
        correct-Stored codes (i + 1) at mem (rw (z, correct_from) at e),
      )
      | inr z ↦ elim (Bool-cases (bit_and syndrome 0x80 == 0)) [
        | inl p ↦ absurd (cc (rw (z, correct_from, p) at e))
        | inr p ↦ elim (Bool-cases (bit_pos == 0)) [
          | inl q ↦ absurd (cc (rw (z, correct_from, p, q) at e))
          | inr q ↦ elim (Bool-cases (ltb 64 bit_pos)) [
            | inl r ↦ absurd (cc (rw (z, correct_from, p, q, r) at e))
            | inr r ↦ absurd (
                correct_from_changed codes (i + 1) at
                  (put_bytes mem (8 * i) (le 8 (bit_xor (word mem i) (2 ^ (bit_pos - 1)))))
                  (rw (z, correct_from, p, q, r) at e))
          ]
        ]
      ]
    ]

-- `xxfs_os_ecc_correct` finds the data intact just if every stored code is the computed one, and
-- then it changes nothing.
pub ecc_correct_intact :
    (mem : List ℕ) (len at : ℕ)
    → let codes = codes_from (word_count len) 0 mem in
      ((ecc_correct mem len at).0 ≡ intact ↔ Stored codes 0 at mem)
      × (Stored codes 0 at mem → (ecc_correct mem len at).1 ≡ mem)
unfolding ecc_correct
ecc_correct_intact mem len at =
    let codes = codes_from (word_count len) 0 mem in
    (
      (
        correct-Stored codes 0 at mem,
        λ same. ap (λ t. t.0) (Stored-correct codes 0 at intact mem same),
      ),
      λ same. ap (λ t. t.1) (Stored-correct codes 0 at intact mem same),
    )

word_same :
    (mem mem' : List ℕ) (i bound : ℕ)
    → 8 * i + 8 ≤ bound
    → ((k : ℕ) → k < bound → byte mem' k ≡ byte mem k)
    → word mem' i ≡ word mem i
unfolding word
word_same mem mem' i bound h same =
    ap of_le (slice_ext mem' mem (8 * i) 8 (λ k _ p. same k (omega arith)))

-- The codes go to the places from `at + i` on, each that of its word in the end, and no byte in
-- front of them is touched.
pub record Computed (left i at : ℕ) (mem mem' : List ℕ) : Type 0 where
  pub before : (k : ℕ) → k < at + i → byte mem' k ≡ byte mem k
  pub codes : (j : ℕ) → i ≤ j → j < i + left → byte mem' (at + j) ≡ ecc_word (word mem' j)

compute_from-Computed :
    (left i at : ℕ) (mem : List ℕ)
    → 7 * (i + left) + 1 ≤ at
    → Computed left i at mem (compute_from left i at mem)
unfolding compute_from
compute_from-Computed zero i at mem h = record {
  before = λ k _. refl;
  codes = λ j p q. absurd (omega arith);
}
compute_from-Computed (suc left) i at mem h =
    let mem1 = put_bytes mem (at + i) (ecc_word (word mem i) ∷ []) in
    let more = compute_from-Computed left (i + 1) at mem1 (omega arith) in
    let before : (k : ℕ) → k < at + i → byte (compute_from left (i + 1) at mem1) k ≡ byte mem k =
      λ k p.
        more.before k (omega arith)
        ∙ byte-put_bytes_before mem (at + i) (ecc_word (word mem i) ∷ []) k p in
    let own : byte (compute_from left (i + 1) at mem1) (at + i)
        ≡ ecc_word (word (compute_from left (i + 1) at mem1) i) =
      more.before (at + i) (omega arith)
      ∙ byte-put_byte_self mem (at + i) (ecc_word (word mem i))
      ∙ ap ecc_word (
          sym
            (word_same mem (compute_from left (i + 1) at mem1) i (at + i) (omega arith) before)) in
    record {
      before = before;
      codes = λ j p q. elim (Bool-cases (i == j)) [
        | inl e ↦
            subst
              (λ k.
                byte (compute_from left (i + 1) at mem1) (at + k)
                ≡ ecc_word (word (compute_from left (i + 1) at mem1) k))
              (==→eq i j e) own
        | inr e ↦ more.codes j (let ne = ==→ne i j e in omega arith) (omega arith)
      ];
    }

codes_from-Stored :
    (left i at : ℕ) (mem : List ℕ)
    → ((j : ℕ) → i ≤ j → j < i + left → byte mem (at + j) ≡ ecc_word (word mem j))
    → Stored (codes_from left i mem) i at mem
unfolding codes_from
codes_from-Stored zero i at mem h = tt
codes_from-Stored (suc left) i at mem h = (
  h i (omega arith) (omega arith),
  codes_from-Stored left (i + 1) at mem (λ j p q. h j (omega arith) (omega arith)),
)

pub ecc_compute-Computed :
    (mem : List ℕ) (len at : ℕ)
    → 7 * word_count len + 1 ≤ at
    → Computed (word_count len) 0 at mem (ecc_compute mem len at)
unfolding ecc_compute
ecc_compute-Computed mem len at h = compute_from-Computed (word_count len) 0 at mem (omega arith)

-- Data whose codes were just computed are intact, and stay as they are; the codes may overlap the
-- last words of the data, if each word ends in front of its own code.
pub ecc_correct-ecc_compute :
    (mem : List ℕ) (len at : ℕ)
    → 7 * word_count len + 1 ≤ at
    → ecc_correct (ecc_compute mem len at) len at ≡ (intact, ecc_compute mem len at)
unfolding ecc_correct
ecc_correct-ecc_compute mem len at h =
    let made = ecc_compute mem len at in
    Stored-correct (codes_from (word_count len) 0 made) 0 at intact made
      (codes_from-Stored (word_count len) 0 at made (ecc_compute-Computed mem len at h).codes)

length-compute_from :
    (left i at : ℕ) (mem : List ℕ)
    → at + i + left ≤ length mem
    → length (compute_from left i at mem) ≡ length mem
unfolding compute_from
length-compute_from zero i at mem h = refl
length-compute_from (suc left) i at mem h =
    let one = length-put_bytes mem (at + i) (ecc_word (word mem i) ∷ []) (omega (arith, h)) in
    length-compute_from left (i + 1) at (put_bytes mem (at + i) (ecc_word (word mem i) ∷ []))
      (omega (arith, h, one))
    ∙ one

pub length-ecc_compute :
    (mem : List ℕ) (len at : ℕ)
    → at + word_count len ≤ length mem
    → length (ecc_compute mem len at) ≡ length mem
unfolding ecc_compute
length-ecc_compute mem len at h = length-compute_from (word_count len) 0 at mem (omega (arith, h))
