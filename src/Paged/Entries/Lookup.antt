-- ===== src/Paged/Entries/Lookup.antt =====
-- Looking up in lists of entries that are put together.
use xxfs.Base.{
  ℕ, ◌≡◌, inl, inr, refl, sym, ap, ◌∙◌, Option, none, some, List, [], ◌∷◌, ◌++◌, append_assoc,
  Bool-cases, Option-cases, if◌then◌else◌,
}
use xxfs.Paged.Entries.{Entry, lookup}
use xxfs.Paged.Entries.Match.{bytes_eq→eq}
use xxfs.Paged.Slots.{bytes_eq}

-- The first result, or else the second.
abbrev pub or_else : Option (List ℕ) → Option (List ℕ) → Option (List ℕ)
or_else none o = o
or_else (some v) o = some v

pub lookup-append :
    (es fs : List Entry) (key : List ℕ)
    → lookup (es ++ fs) key ≡ or_else (lookup es key) (lookup fs key)
unfolding lookup
lookup-append [] fs key = refl
lookup-append ((k, v) ∷ es) fs key = elim (Bool-cases (bytes_eq k key)) [
  | inl e ↦ rw (e, lookup)
  | inr e ↦ rw (e, lookup) (lookup-append es fs key)
]

pub lookup-append_none :
    (es fs : List Entry) (key : List ℕ)
    → lookup (es ++ fs) key ≡ none
    → (lookup es key ≡ none) × (lookup fs key ≡ none)
lookup-append_none es fs key h = elim (Option-cases (lookup es key)) [
  | inl e ↦ (e, rw (lookup-append es fs key, e) at h)
  | inr (v, e) ↦ absurd (let bad : some v ≡ none = rw (lookup-append es fs key, e) at h in cc)
]

-- A new entry between others, with a key that the first ones do not have.
pub lookup-insert :
    (es fs : List Entry) (key val k : List ℕ)
    → lookup es key ≡ none
    → lookup ((es ++ (key, val) ∷ []) ++ fs) k
      ≡ (if bytes_eq key k then some val else lookup (es ++ fs) k)
unfolding lookup
lookup-insert es fs key val k fresh =
    rw
      (
        append_assoc es ((key, val) ∷ []) fs,
        lookup-append es ((key, val) ∷ fs) k,
        lookup-append es fs k,
      )
      (elim (Bool-cases (bytes_eq key k)) [
        | inr e ↦ rw e
        | inl e ↦
            let none_k : lookup es k ≡ none = ap (lookup es) (sym (bytes_eq→eq key k e)) ∙ fresh in
            rw (none_k, lookup, e)
      ])

-- A new entry among the later ones.
pub lookup-behind :
    (es fs' fs : List Entry) (key val k : List ℕ)
    → lookup es key ≡ none
    → lookup fs' k ≡ (if bytes_eq key k then some val else lookup fs k)
    → lookup (es ++ fs') k ≡ (if bytes_eq key k then some val else lookup (es ++ fs) k)
lookup-behind es fs' fs key val k fresh later =
    rw (lookup-append es fs' k, lookup-append es fs k, later)
      (elim (Bool-cases (bytes_eq key k)) [
        | inr e ↦ rw e
        | inl e ↦
            let none_k : lookup es k ≡ none = ap (lookup es) (sym (bytes_eq→eq key k e)) ∙ fresh in
            rw (none_k, e)
      ])
