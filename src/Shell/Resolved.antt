-- ===== src/Shell/Resolved.antt =====
-- What `path_resolve` makes of any input.
use mathlib.Core.Path.{subst}
use xxfs.Base.{
  ℕ, ◌-◌, ◌<◌, ◌≡◌, ◌≢◌, inl, inr, refl, sym, ap, ◌∙◌, arith, Bool, true, false, ◌&&◌, ◌||◌, List,
  [], ◌∷◌, reverse, reverse-reverse, ◌==◌, ==→eq, ==→ne, leb, length, length-reverse, Bool-cases,
}
use xxfs.PathName.{slash, dot, max_path, at_slash, at_boundary, skips, strip, lead}
use xxfs.Shell.{is_up, up_to_slash, go_up, resolve_loop, full_path, path_resolve}

-- A reversed path that begins with a slash and has no two slashes in a row.
abbrev pub IsTidy : List ℕ → Type 0
IsTidy [] = ⊥
IsTidy (c ∷ []) = c ≡ slash
IsTidy (c ∷ d ∷ out) = IsTidy (d ∷ out) × ((c == slash && d == slash) ≡ false)

-- Its last byte is no slash, but for the root.
abbrev pub IsEnded : List ℕ → Type 0
IsEnded [] = ⊥
IsEnded (c ∷ []) = Unit {0}
IsEnded (c ∷ d ∷ out) = c ≢ slash

-- The same, and the size of the array that holds it.
abbrev Fits : ℕ → List ℕ → Type 0
Fits n out = IsTidy out × (length out < n)

up_to_slash-Fits : (n : ℕ) (out : List ℕ) → Fits n out → Fits n (up_to_slash out)
unfolding up_to_slash
up_to_slash-Fits n [] h = h
up_to_slash-Fits n (c ∷ []) h = h
up_to_slash-Fits n (c ∷ d ∷ out) ((tidy, apart), short) = elim (Bool-cases (c == slash)) [
  | inl e ↦ rw e ((tidy, apart), short)
  | inr e ↦ rw e (up_to_slash-Fits n (d ∷ out) (tidy, omega (arith, short)))
]

strip-Fits : (n : ℕ) (out : List ℕ) → Fits n out → Fits n (strip out) × IsEnded (strip out)
unfolding strip
strip-Fits n [] h = absurd h.0
strip-Fits n (c ∷ []) h = (h, tt)
strip-Fits n (c ∷ d ∷ out) ((tidy, apart), short) = elim (Bool-cases (c == slash)) [
  | inl e ↦ rw e (strip-Fits n (d ∷ out) (tidy, omega (arith, short)))
  | inr e ↦ rw e (((tidy, apart), short), ==→ne c slash e)
]

go_up-Fits : (n : ℕ) (out : List ℕ) → Fits n out → Fits n (go_up out)
go_up-Fits n [] h = h
go_up-Fits n (c ∷ []) h = h
go_up-Fits n (c ∷ d ∷ out) ((tidy, apart), short) =
    up_to_slash-Fits n (d ∷ out) (tidy, omega (arith, short))

pushed : (c : ℕ) (p out : List ℕ) → skips c p out ≡ false → IsTidy out → IsTidy (c ∷ out)
pushed c p [] e tidy = absurd tidy
pushed c p (o ∷ out) e tidy = elim (Bool-cases (c == slash && o == slash)) [
  | inl both ↦ absurd (cc (ap (λ b. b || c == dot && at_boundary p && o == slash) (sym both) ∙ e))
  | inr apart ↦ (tidy, apart)
]

resolve_loop-Fits :
    (second : Bool) (p out : List ℕ)
    → Fits (max_path - 1) out
    → Fits max_path (resolve_loop second p out)
unfolding resolve_loop
resolve_loop-Fits second [] out (tidy, short) = (tidy, omega (arith, short))
resolve_loop-Fits true (c ∷ p) out h = resolve_loop-Fits false p out h
resolve_loop-Fits false (c ∷ p) out h = elim (Bool-cases (skips c p out)) [
  | inl e ↦ rw (e, resolve_loop) (resolve_loop-Fits false p out h)
  | inr e ↦ elim (Bool-cases (is_up c p)) [
    | inl u ↦
        rw (e, u, resolve_loop)
          (resolve_loop-Fits true p (go_up out) (go_up-Fits (max_path - 1) out h))
    | inr u ↦
        let tidy = pushed c p out e h.0 in
        elim (Bool-cases (leb (max_path - 1) (length (c ∷ out)))) [
          | inl full ↦ rw (e, u, full, resolve_loop) (tidy, omega (arith, h.1))
          | inr room ↦
              let short : length (c ∷ out) < max_path - 1 = ground arith in
              rw (e, u, room, resolve_loop) (resolve_loop-Fits false p (c ∷ out) (tidy, short))
        ]
  ]
]

not_up : (p : List ℕ) → is_up slash p ≡ false
not_up [] = refl
not_up (d ∷ q) = refl

-- The loop begins behind the slash that the path has or gets.
started : (p : List ℕ) → Fits max_path (resolve_loop false p (lead p))
unfolding resolve_loop
started p = elim (Bool-cases (at_slash p)) [
  | inr e ↦ rw e (resolve_loop-Fits false p (slash ∷ []) (refl, omega arith))
  | inl e ↦ rw e (behind p e)
]
  where
    behind : (p : List ℕ) → at_slash p ≡ true → Fits max_path (resolve_loop false p [])
    behind [] e = absurd (cc e)
    behind (c ∷ p) e =
        subst (λ x. Fits max_path (resolve_loop false (x ∷ p) [])) (sym (==→eq c slash e))
          (rw (not_up p, resolve_loop) (resolve_loop-Fits false p (slash ∷ []) (refl, omega arith)))

-- Whatever the current directory and the input are, the path that `path_resolve` gives begins with a
-- slash, has no two slashes in a row, ends with a slash only if it is the root, and is shorter than
-- `XXFS_MAX_PATH`.
pub path_resolve-IsTidy :
    (cwd input : List ℕ)
    → IsTidy (reverse (path_resolve cwd input))
      × IsEnded (reverse (path_resolve cwd input))
      × (length (path_resolve cwd input) < max_path)
unfolding path_resolve
path_resolve-IsTidy cwd input =
    let tmp = full_path cwd input in
    let out = resolve_loop false tmp (lead tmp) in
    let ((tidy, short), ended) = strip-Fits max_path out (started tmp) in
    rw (reverse-reverse (strip out), length-reverse (strip out)) (tidy, ended, short)
