-- ===== src/Os/Extend.antt =====
-- What `file_extend` promises where it succeeds, and where no call fails.
use xxfs.Base.{
  ℕ, ◌-◌, ◌^◌, ◌≤◌, ◌<◌, ◌≡◌, inl, inr, refl, sym, ap, ◌∙◌, arith, true, false, some, List, [], leb,
  leb→le, Bool-cases, length, if◌then◌else◌, length-append, length-replicate, replicate,
}
use xxfs.Os.{
  Os, Outcome, full, failed, short, next_outcome, called, later, succeeds, file_size, file_extend,
  grow_to,
}

length-grow_to : (image : List ℕ) (size : ℕ) → size ≤ length (grow_to image size)
length-grow_to image size = omega (
  arith,
  length-append image (replicate (size - length image) 0),
  length-replicate {A = ℕ} (size - length image) 0,
)

-- A call in front of the extension that does not fail.
size_known :
    (os : Os) (o : Outcome)
    → next_outcome os.outcomes ≡ o
    → succeeds o ≡ true
    → file_size os ≡ (some (length os.image), called os)
unfolding file_size
size_known os full e h = rw e refl
size_known os (short k) e h = rw e refl
size_known os failed e h = absurd (cc h)

size_unknown :
    (os : Os) (size : ℕ) → next_outcome os.outcomes ≡ failed → (file_extend os size).0 ≡ false
unfolding file_extend file_size
size_unknown os size e = rw (e, file_extend, file_size) refl

module _ (os : Os) (size : ℕ) (low : size < 2 ^ 63)
    (known : file_size os ≡ (some (length os.image), called os)) where
  fits : leb (2 ^ 63) size ≡ false
  fits = ground arith

  -- The image is long enough.
  enough : leb size (length os.image) ≡ true → file_extend os size ≡ (true, called os)
  unfolding file_extend
  enough e = rw (ap (λ r. r.0) known, ap (λ r. r.1) known, fits, e, file_extend) refl

  -- It grows, or cannot.
  grown : Os
  grown = record { image = grow_to os.image size; outcomes = later (called os).outcomes }

  grows :
      (o : Outcome)
      → next_outcome (called os).outcomes ≡ o
      → leb size (length os.image) ≡ false
      → file_extend os size ≡ (if succeeds o then (true, grown) else (false, called (called os)))
  unfolding file_extend grown
  grows full e more = rw (ap (λ r. r.0) known, ap (λ r. r.1) known, fits, more, e, file_extend) refl
  grows (short k) e more =
      rw (ap (λ r. r.0) known, ap (λ r. r.1) known, fits, more, e, file_extend) refl
  grows failed e more =
      rw (ap (λ r. r.0) known, ap (λ r. r.1) known, fits, more, e, file_extend) refl

  reaches_known : (file_extend os size).0 ≡ true → size ≤ length (file_extend os size).1.image
  unfolding grown
  reaches_known h = elim (Bool-cases (leb size (length os.image))) [
    | inl e ↦ rw (enough e) (leb→le size (length os.image) e)
    | inr e ↦
        let o = next_outcome (called os).outcomes in
        elim (Bool-cases (succeeds o)) [
          | inl works ↦
              let g : file_extend os size ≡ (true, grown) = grows o refl e ∙ rw works refl in
              rw g (length-grow_to os.image size)
          | inr fails ↦
              let g : file_extend os size ≡ (false, called (called os)) =
                grows o refl e ∙ rw fails refl in
              absurd (cc (sym h ∙ ap (λ r. r.0) g))
        ]
  ]

-- Where it succeeds, the image has at least the size.
pub file_extend_reaches :
    (os : Os) (size : ℕ)
    → size < 2 ^ 63
    → (file_extend os size).0 ≡ true
    → size ≤ length (file_extend os size).1.image
file_extend_reaches os size low h = elim (Bool-cases (succeeds (next_outcome os.outcomes))) [
  | inl works ↦ reaches_known os size low (size_known os (next_outcome os.outcomes) refl works) h
  | inr fails ↦
      absurd (cc (sym h ∙ size_unknown os size (failing (next_outcome os.outcomes) fails)))
]
  where
    failing : (o : Outcome) → succeeds o ≡ false → o ≡ failed
    failing full e = absurd (cc e)
    failing (short k) e = absurd (cc e)
    failing failed e = refl

-- Where no failure is to come, it succeeds.
pub file_extend_calm :
    (os : Os) (size : ℕ)
    → size < 2 ^ 63
    → os.outcomes ≡ []
    → ((file_extend os size).0 ≡ true) × ((file_extend os size).1.outcomes ≡ [])
file_extend_calm os size low calm =
    let known = size_known os full (rw calm refl) refl in
    elim (Bool-cases (leb size (length os.image))) [
      | inl e ↦ rw (enough os size low known e) (refl, rw calm refl)
      | inr e ↦
          rw (grows os size low known full (rw calm refl) e) (refl, unfold grown in rw calm refl)
    ]
