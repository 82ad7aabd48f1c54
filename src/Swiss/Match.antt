-- ===== src/Swiss/Match.antt =====
-- The places of a group with a control byte, before and after one of them is set.
use xxfs.Base.{
  ℕ, zero, suc, ◌+◌, ◌≤◌, ◌<◌, ◌≡◌, ◌≢◌, ◌⊎◌, inl, inr, refl, sym, ap, ◌∙◌, arith, true, false,
  some, List, [], ◌∷◌, ◌==◌, ==→eq, ==→ne, Bool-cases, set, get_or-set_ne,
}
use xxfs.Swiss.{ctrl_empty, ctrl_at, match_from, first_of}

-- The head of the places with a control byte.
pub match_hit :
    (n : ℕ) (ctrl : List ℕ) (a tag : ℕ)
    → (ctrl_at ctrl a == tag) ≡ true
    → match_from (suc n) ctrl a tag ≡ a ∷ match_from n ctrl (a + 1) tag
unfolding match_from
match_hit n ctrl a tag e = rw e refl

pub match_miss :
    (n : ℕ) (ctrl : List ℕ) (a tag : ℕ)
    → (ctrl_at ctrl a == tag) ≡ false
    → match_from (suc n) ctrl a tag ≡ match_from n ctrl (a + 1) tag
unfolding match_from
match_miss n ctrl a tag e = rw e refl

pub match_from-first :
    (n : ℕ) (ctrl : List ℕ) (a tag i : ℕ)
    → first_of (match_from n ctrl a tag) ≡ some i
    → (a ≤ i) × (i < a + n) × (ctrl_at ctrl i ≡ tag)
unfolding match_from
match_from-first zero ctrl a tag i h = absurd (cc h)
match_from-first (suc n) ctrl a tag i h = elim (Bool-cases (ctrl_at ctrl a == tag)) [
  | inl e ↦
      let h' : some a ≡ some i = rw (match_hit n ctrl a tag e) at h in
      let same : a ≡ i = cc h' in
      (
        omega (arith, same),
        omega (arith, same),
        ap (ctrl_at ctrl) (sym same) ∙ ==→eq (ctrl_at ctrl a) tag e,
      )
  | inr e ↦
      let (low, high, is) =
        match_from-first n ctrl (a + 1) tag i (rw (match_miss n ctrl a tag e) at h) in
      (omega (arith, low), omega (arith, high), is)
]

pub match_from-none :
    (n : ℕ) (ctrl : List ℕ) (a tag i : ℕ)
    → match_from n ctrl a tag ≡ []
    → a ≤ i
    → i < a + n
    → ctrl_at ctrl i ≢ tag
match_from-none zero ctrl a tag i h low high is = omega arith
match_from-none (suc n) ctrl a tag i h low high is = elim (Bool-cases (ctrl_at ctrl a == tag)) [
  | inl e ↦ cc (sym (match_hit n ctrl a tag e) ∙ h)
  | inr e ↦ elim (Bool-cases (a == i)) [
    | inl same ↦ ==→ne (ctrl_at ctrl a) tag e (ap (ctrl_at ctrl) (==→eq a i same) ∙ is)
    | inr other ↦
        match_from-none n ctrl (a + 1) tag i (rw (match_miss n ctrl a tag e) at h)
          (omega (arith, low, ==→ne a i other)) (omega (arith, high)) is
  ]
]

module _ (ctrl : List ℕ) (i v : ℕ) where
  -- Beside the place that is set.
  pub match_from-beside :
      (n a tag : ℕ)
      → (i < a) ⊎ (a + n ≤ i)
      → match_from n (set ctrl i v) a tag ≡ match_from n ctrl a tag
  unfolding match_from
  match_from-beside zero a tag h = refl
  match_from-beside (suc n) a tag h =
      let apart : i ≢ a = elim h [ inl p ↦ omega (arith, p) | inr p ↦ omega (arith, p) ] in
      let rest : (i < a + 1) ⊎ (a + 1 + n ≤ i) = elim h [
        | inl p ↦ inl (omega (arith, p))
        | inr p ↦ inr (omega (arith, p))
      ] in
      rw (get_or-set_ne ctrl i a v ctrl_empty apart, match_from-beside n (a + 1) tag rest) refl
