-- ===== src/PathName.antt =====
-- lib/xxfs.c: `path_normalize`, `get_parent_path` and `get_basename`. A C string is the list of
-- its bytes before the terminator; `path_normalize` writes its output array from the left, so the
-- loop keeps it reversed, with `out[len - 1]` at the head.
pub mod Bounds
pub mod Canonical
pub mod Emit
pub mod Idempotent
pub mod Names
pub mod Parent
use xxfs.Base.{
  ℕ, ◌-◌, Bool, true, false, ◌&&◌, ◌||◌, List, [], ◌∷◌, reverse, ◌==◌, leb, if◌then◌else◌, length,
}

abbrev pub slash : ℕ
slash = b'/'

abbrev pub dot : ℕ
dot = b'.'

-- `XXFS_MAX_PATH`
abbrev pub max_path : ℕ
max_path = 4096

-- `*p == '/'`
abbrev pub at_slash : List ℕ → Bool
at_slash [] = false
at_slash (c ∷ p) = c == slash

-- `*p == '/' || *p == 0`
abbrev pub at_boundary : List ℕ → Bool
at_boundary [] = true
at_boundary (c ∷ p) = c == slash

-- The two tests of the loop that skip the byte `c` in front of `p`.
abbrev pub skips : ℕ → List ℕ → List ℕ → Bool
skips c p [] = c == dot && at_boundary p
skips c p (o ∷ out) = c == slash && o == slash || c == dot && at_boundary p && o == slash

-- The loop: what is left of the path, and the output so far.
unfoldable pub normalize_loop : List ℕ → List ℕ → List ℕ
normalize_loop [] out = out
normalize_loop (c ∷ p) out = elim (skips c p out) [
  | true ↦ normalize_loop p out
  | false ↦ elim (leb (max_path - 1) (length (c ∷ out))) [
    | true ↦ c ∷ out
    | false ↦ normalize_loop p (c ∷ out)
  ]
]

-- `while (len > 1 && out[len - 1] == '/') len--;`
unfoldable pub strip : List ℕ → List ℕ
strip (c ∷ d ∷ out) = if c == slash then strip (d ∷ out) else c ∷ d ∷ out
strip out = out

-- What the output holds before the loop.
abbrev pub lead : List ℕ → List ℕ
lead p = if at_slash p then [] else slash ∷ []

unfoldable pub path_normalize : List ℕ → List ℕ
unfolding normalize_loop strip
path_normalize path = reverse (strip (normalize_loop path (lead path)))

-- The walk back from the end to the last slash: what lies up to it, reversed, and what follows it.
unfoldable pub back_to_slash : List ℕ → List ℕ → List ℕ × List ℕ
back_to_slash [] base = ([], base)
back_to_slash (c ∷ rest) base =
    if c == slash then (c ∷ rest, base) else back_to_slash rest (c ∷ base)

unfoldable pub get_basename : List ℕ → List ℕ
unfolding back_to_slash
get_basename norm = (back_to_slash (reverse norm) []).1

-- `parent` from what lies up to the last slash, reversed.
abbrev pub parent_of : List ℕ → List ℕ
parent_of (c ∷ d ∷ rest) = reverse (d ∷ rest)
parent_of rest = slash ∷ []

unfoldable pub get_parent_path : List ℕ → List ℕ
unfolding back_to_slash
get_parent_path norm =
    if leb (length norm) 1 then slash ∷ [] else parent_of (back_to_slash (reverse norm) []).0
