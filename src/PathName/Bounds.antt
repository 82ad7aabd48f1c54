-- ===== src/PathName/Bounds.antt =====
-- `path_normalize` and its buffer of `XXFS_MAX_PATH` bytes.
use xxfs.Base.{ℕ, ◌-◌, ◌≤◌, ◌<◌, min, arith, List, [], ◌∷◌, length, length-reverse}
use xxfs.PathName.{slash, max_path, normalize_loop, strip, lead, path_normalize}

loop_bounds :
    (p out : List ℕ)
    → length out < max_path - 1
    → (length out ≤ length (normalize_loop p out)) × (length (normalize_loop p out) < max_path)
unfolding normalize_loop
loop_bounds [] out h = omega arith
loop_bounds (c ∷ p) out h = ground (arith, loop_bounds p out h, loop_bounds p (c ∷ out))

strip_bounds :
    (out : List ℕ) → (length (strip out) ≤ length out) × (min 1 (length out) ≤ length (strip out))
unfolding strip
strip_bounds [] = omega arith
strip_bounds (c ∷ []) = omega arith
strip_bounds (c ∷ d ∷ out) = ground (arith, strip_bounds (d ∷ out))

-- The first round of a path with a leading slash writes it.
loop_not_empty : (p : List ℕ) → 0 < length (normalize_loop p (lead p))
unfolding normalize_loop
loop_not_empty [] = omega arith
loop_not_empty (c ∷ p) = ground (
  arith,
  loop_bounds p (c ∷ []) (omega arith),
  loop_bounds p (slash ∷ []) (omega arith),
  loop_bounds p (c ∷ slash ∷ []) (omega arith),
)

-- For every path the output has at least one byte, and room for its terminator is left.
pub path_normalize_bounds :
    (path : List ℕ) → (0 < length (path_normalize path)) × (length (path_normalize path) < max_path)
unfolding path_normalize
path_normalize_bounds path = rw length-reverse (
    omega (
      arith,
      strip_bounds (normalize_loop path (lead path)),
      loop_not_empty path,
      loop_bounds path (lead path) (ground arith),
    ))
