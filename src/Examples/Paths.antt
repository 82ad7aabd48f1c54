-- ===== src/Examples/Paths.antt =====
-- lib/xxfs.c: `path_normalize`, `get_parent_path` and `get_basename` on concrete paths;
-- shell/shell.c: `path_resolve`.
use xxfs.Base.{ℕ, ◌<◌, ◌≡◌, refl, arith, List, [], ◌∷◌, ◌++◌, length, reverse}
use xxfs.Shell.{path_resolve}
use xxfs.Shell.Resolved.{IsTidy, IsEnded, path_resolve-IsTidy}
use xxfs.PathName.{strip, max_path, path_normalize, get_basename, get_parent_path}
use xxfs.PathName.Canonical.{path_normalize-render}
use xxfs.PathName.Idempotent.{path_normalize_idempotent}
use xxfs.PathName.Names.{names, render, is_name}
use xxfs.PathName.Bounds.{path_normalize_bounds}
use xxfs.PathName.Parent.{get_basename-render, get_parent_path-render}

-- `a//./b/..`
abbrev messy : List ℕ
messy = b'a' ∷ b'/' ∷ b'/' ∷ b'.' ∷ b'/' ∷ b'b' ∷ b'/' ∷ b'.' ∷ b'.' ∷ []

-- `..` is a name like another.
messy_normal : path_normalize messy ≡ b'/' ∷ b'a' ∷ b'/' ∷ b'b' ∷ b'/' ∷ b'.' ∷ b'.' ∷ []
unfolding path_normalize
messy_normal = refl

path_normalize-render_example : path_normalize messy ≡ render (names messy)
path_normalize-render_example = path_normalize-render messy (omega arith)

path_normalize_idempotent_example : path_normalize (path_normalize messy) ≡ path_normalize messy
path_normalize_idempotent_example = path_normalize_idempotent messy (omega arith)

abbrev parent_names : List (List ℕ)
parent_names = (b'u' ∷ b's' ∷ b'r' ∷ []) ∷ []

abbrev last_name : List ℕ
last_name = b'b' ∷ b'i' ∷ b'n' ∷ []

-- `/usr/bin`
abbrev two_names : List ℕ
two_names = render (parent_names ++ last_name ∷ [])

get_basename-render_example : get_basename two_names ≡ last_name
get_basename-render_example = get_basename-render parent_names last_name (unfold is_name in refl)

get_parent_path-render_example : get_parent_path two_names ≡ render parent_names
get_parent_path-render_example =
    get_parent_path-render parent_names b'b' (b'i' ∷ b'n' ∷ []) (unfold is_name in refl)

path_normalize_bounds_example :
    (0 < length (path_normalize messy)) × (length (path_normalize messy) < max_path)
path_normalize_bounds_example = path_normalize_bounds messy

-- `cd b/..` in the directory `/a`, and a name that ends with two dots.
up_is : path_resolve (b'/' ∷ b'a' ∷ []) (b'b' ∷ b'/' ∷ b'.' ∷ b'.' ∷ []) ≡ b'/' ∷ b'a' ∷ []
unfolding path_resolve strip
up_is = refl

dots_are : path_resolve (b'/' ∷ []) (b'/' ∷ b'a' ∷ b'.' ∷ b'.' ∷ []) ≡ b'/' ∷ []
unfolding path_resolve strip
dots_are = refl

path_resolve-IsTidy_example :
    IsTidy (reverse (path_resolve (b'/' ∷ b'a' ∷ []) (b'b' ∷ b'/' ∷ b'.' ∷ b'.' ∷ [])))
    × IsEnded (reverse (path_resolve (b'/' ∷ b'a' ∷ []) (b'b' ∷ b'/' ∷ b'.' ∷ b'.' ∷ [])))
    × (length (path_resolve (b'/' ∷ b'a' ∷ []) (b'b' ∷ b'/' ∷ b'.' ∷ b'.' ∷ [])) < 4096)
path_resolve-IsTidy_example =
    path_resolve-IsTidy (b'/' ∷ b'a' ∷ []) (b'b' ∷ b'/' ∷ b'.' ∷ b'.' ∷ [])
