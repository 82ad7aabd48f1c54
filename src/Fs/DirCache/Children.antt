-- ===== src/Fs/DirCache/Children.antt =====
-- The list of children: what `find_child` finds and what `remove_at` leaves.
use mathlib.Core.List.{Perm, perm_append_singleton}
use mathlib.Core.List.Perm
use mathlib.Core.Option
use mathlib.Core.Path.{subst}
use xxfs.Base.{
  ℕ, zero, suc, ◌+◌, ◌-◌, ◌<◌, ◌≡◌, inl, inr, refl, sym, ap, ◌∙◌, arith, true, false, Option, none,
  some, List, [], ◌∷◌, ◌++◌, length, get_or, set, take-append, length-append, length-set, ltb,
  ltb→lt, Bool-cases,
}
use xxfs.Fs.DirCache.{is_child, find_child, remove_at}

module _ {ℓ} {A : Type ℓ} where
  snoc_cases : (xs : List A) → 0 < length xs → (front : List A) × (z : A) × (xs ≡ front ++ z ∷ [])
  snoc_cases [] h = absurd (omega arith)
  snoc_cases (x ∷ []) h = ([], x, refl)
  snoc_cases (x ∷ y ∷ xs) h =
      let (front, z, e) = snoc_cases (y ∷ xs) (omega arith) in (x ∷ front, z, ap (λ t. x ∷ t) e)

  pub get_or-append_last : (xs : List A) (z d : A) → get_or (xs ++ z ∷ []) (length xs) d ≡ z
  get_or-append_last [] z d = refl
  get_or-append_last (x ∷ xs) z d = get_or-append_last xs z d

  get_or-append_left :
      (xs ys : List A) (i : ℕ) (d : A) → i < length xs → get_or (xs ++ ys) i d ≡ get_or xs i d
  get_or-append_left [] ys i d h = absurd (omega arith)
  get_or-append_left (x ∷ xs) ys zero d h = refl
  get_or-append_left (x ∷ xs) ys (suc i) d h = get_or-append_left xs ys i d (omega arith)

  set-append_left :
      (xs ys : List A) (i : ℕ) (v : A) → i < length xs → set (xs ++ ys) i v ≡ set xs i v ++ ys
  set-append_left [] ys i v h = absurd (omega arith)
  set-append_left (x ∷ xs) ys zero v h = refl
  set-append_left (x ∷ xs) ys (suc i) v h =
      ap (λ t. x ∷ t) (set-append_left xs ys i v (omega arith))

  set-append_last : (xs : List A) (z v : A) → set (xs ++ z ∷ []) (length xs) v ≡ xs ++ v ∷ []
  set-append_last [] z v = refl
  set-append_last (x ∷ xs) z v = ap (λ t. x ∷ t) (set-append_last xs z v)

  -- An element changes places with one in front of the list.
  swap_in :
      (xs : List A) (i : ℕ) (z d : A) → i < length xs → Perm (z ∷ xs) (get_or xs i d ∷ set xs i z)
  swap_in [] i z d h = absurd (omega arith)
  swap_in (x ∷ xs) zero z d h = Perm.swap x z xs
  swap_in (x ∷ xs) (suc i) z d h = Perm.trans (Perm.swap x z xs) (
      Perm.trans (Perm.cons x (swap_in xs i z d (omega arith)))
        (Perm.swap (get_or xs i d) x (set xs i z)))

module _ (front : List (List ℕ)) (z : List ℕ) where
  last_place : length (front ++ z ∷ []) - 1 ≡ length front
  last_place = omega (arith, length-append front (z ∷ []))

  pub remove_at_last : remove_at (front ++ z ∷ []) (length front) ≡ front
  unfolding remove_at
  remove_at_last =
      rw (last_place, get_or-append_last front z [], set-append_last front z z)
        (take-append (length front) front (z ∷ []) refl)

  remove_at_inner : (i : ℕ) → i < length front → remove_at (front ++ z ∷ []) i ≡ set front i z
  unfolding remove_at
  remove_at_inner i h =
      rw (last_place, get_or-append_last front z [], set-append_left front (z ∷ []) i z h)
        (take-append (length front) (set front i z) (z ∷ []) (length-set front i z))

  remove_split :
      (i : ℕ)
      → i < length (front ++ z ∷ [])
      → Perm (front ++ z ∷ []) (get_or (front ++ z ∷ []) i [] ∷ remove_at (front ++ z ∷ []) i)
  remove_split i h = elim (Bool-cases (ltb i (length front))) [
    | inl e ↦
        let p = ltb→lt i (length front) e in
        rw (get_or-append_left front (z ∷ []) i [] p, remove_at_inner i p)
          (Perm.trans (perm_append_singleton z front) (swap_in front i z [] p))
    | inr e ↦
        let last : i ≡ length front = let n = length-append front (z ∷ []) in ground arith in
        rw (last, get_or-append_last front z [], remove_at_last) (perm_append_singleton z front)
  ]

-- One child goes, the others stay, in another order.
pub remove_at-Perm :
    (cs : List (List ℕ)) (i : ℕ) → i < length cs → Perm cs (get_or cs i [] ∷ remove_at cs i)
remove_at-Perm cs i h =
    let (front, z, e) = snoc_cases cs (omega arith) in
    subst (λ t. Perm t (get_or t i [] ∷ remove_at t i)) (sym e)
      (remove_split front z i (omega (arith, h, ap length e)))

-- Where the search ends, a child has the name, and if it finds none, no child has it.
abbrev pub Found : List (List ℕ) → List ℕ → Option ℕ → Type 0
Found cs name none = (j : ℕ) → j < length cs → is_child name (get_or cs j []) ≡ false
Found cs name (some i) = (i < length cs) × (is_child name (get_or cs i []) ≡ true)

find_child-shift :
    (i : ℕ) (cs : List (List ℕ)) (name : List ℕ)
    → find_child (suc i) cs name ≡ Option.map suc (find_child i cs name)
unfolding find_child
find_child-shift i [] name = refl
find_child-shift i (c ∷ cs) name = elim (Bool-cases (is_child name c)) [
  | inl e ↦ rw e refl
  | inr e ↦ rw e (find_child-shift (suc i) cs name)
]

none_later :
    (c : List ℕ) (cs : List (List ℕ)) (name : List ℕ)
    → is_child name c ≡ false
    → Found cs name none
    → Found (c ∷ cs) name none
none_later c cs name e f zero h = e
none_later c cs name e f (suc j) h = f j (omega arith)

later-Found :
    (c : List ℕ) (cs : List (List ℕ)) (name : List ℕ) (o : Option ℕ)
    → is_child name c ≡ false
    → Found cs name o
    → Found (c ∷ cs) name (Option.map suc o)
later-Found c cs name none e f = none_later c cs name e f
later-Found c cs name (some i) e (h, f) = (omega arith, f)

pub find_child-Found : (cs : List (List ℕ)) (name : List ℕ) → Found cs name (find_child 0 cs name)
unfolding find_child
find_child-Found [] name = λ j h. absurd (omega arith)
find_child-Found (c ∷ cs) name = elim (Bool-cases (is_child name c)) [
  | inl e ↦ rw e (omega arith, e)
  | inr e ↦
      rw (e, find_child-shift 0 cs name)
        (later-Found c cs name (find_child 0 cs name) e (find_child-Found cs name))
]

-- A child that is put behind children of other names is found there.
pub find_child-append :
    (i : ℕ) (cs : List (List ℕ)) (c name : List ℕ)
    → find_child i cs name ≡ none
    → is_child name c ≡ true
    → find_child i (cs ++ c ∷ []) name ≡ some (i + length cs)
unfolding find_child
find_child-append i [] c name absent own = rw own (ap some (omega arith))
find_child-append i (d ∷ cs) c name absent own = elim (Bool-cases (is_child name d)) [
  | inl e ↦ absurd (cc (rw e at absent))
  | inr e ↦ rw e (find_child-append (suc i) cs c name (rw e at absent) own ∙ ap some (omega arith))
]
