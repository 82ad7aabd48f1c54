-- ===== src/Shell.antt =====
-- shell/shell.c: `path_resolve`. A string is the list of its bytes before the terminator, and the
-- output of the loop is kept reversed, as in PathName.
pub mod Resolved
use xxfs.Base.{
  ℕ, ◌-◌, Bool, true, false, ◌&&◌, List, [], ◌∷◌, ◌++◌, reverse, ◌==◌, leb, if◌then◌else◌, length,
  take,
}
use xxfs.PathName.{slash, dot, max_path, at_slash, at_boundary, skips, strip, lead}

-- `..` in front of a slash or the end.
abbrev pub is_up : ℕ → List ℕ → Bool
is_up c [] = false
is_up c (d ∷ q) = c == dot && (d == dot && at_boundary q)

-- `while (len > 1 && norm[len-1] != '/') len--;`
unfoldable pub up_to_slash : List ℕ → List ℕ
up_to_slash (c ∷ d ∷ out) = if c == slash then c ∷ d ∷ out else up_to_slash (d ∷ out)
up_to_slash out = out

abbrev pub go_up : List ℕ → List ℕ
go_up (c ∷ d ∷ out) = up_to_slash (d ∷ out)
go_up out = out

-- The loop; the flag says that the byte in front is the second dot of a `..`, which it has read.
unfoldable pub resolve_loop : Bool → List ℕ → List ℕ → List ℕ
unfolding up_to_slash
resolve_loop second [] out = out
resolve_loop true (c ∷ p) out = resolve_loop false p out
resolve_loop false (c ∷ p) out = elim (skips c p out) [
  | true ↦ resolve_loop false p out
  | false ↦ elim (is_up c p) [
    | true ↦ resolve_loop true p (go_up out)
    | false ↦ elim (leb (max_path - 1) (length (c ∷ out))) [
      | true ↦ c ∷ out
      | false ↦ resolve_loop false p (c ∷ out)
    ]
  ]
]

-- What `snprintf` leaves in `tmp`.
abbrev pub full_path : List ℕ → List ℕ → List ℕ
full_path cwd input = take (max_path - 1) (if at_slash input then input else cwd ++ slash ∷ input)

unfoldable pub path_resolve : List ℕ → List ℕ → List ℕ
unfolding resolve_loop
path_resolve cwd input =
    let tmp = full_path cwd input in reverse (strip (resolve_loop false tmp (lead tmp)))
