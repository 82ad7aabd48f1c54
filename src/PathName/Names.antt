-- ===== src/PathName/Names.antt =====
-- What a path means: the names between its slashes, without the empty ones and the dots.
use xxfs.Base.{
  ℕ, ◌≡◌, refl, arith, Bool, true, false, ◌&&◌, not, List, [], ◌∷◌, ◌++◌, ◌==◌, if◌then◌else◌,
}
use xxfs.PathName.{slash, dot}

-- The bytes between two slashes.
abbrev pub Segment : Type 0
Segment = List ℕ

unfoldable pub cons_first : ℕ → List Segment → List Segment
cons_first c [] = (c ∷ []) ∷ []
cons_first c (w ∷ ws) = (c ∷ w) ∷ ws

unfoldable pub segments : List ℕ → List Segment
unfolding cons_first
segments [] = [] ∷ []
segments (c ∷ p) = if c == slash then [] ∷ segments p else cons_first c (segments p)

-- Neither empty nor a dot.
abbrev pub keeps : Segment → Bool
keeps [] = false
keeps (c ∷ []) = not (c == dot)
keeps (c ∷ d ∷ w) = true

unfoldable pub kept : List Segment → List Segment
kept [] = []
kept (w ∷ ws) = if keeps w then w ∷ kept ws else kept ws

-- The names along a path.
unfoldable pub names : List ℕ → List Segment
unfolding segments kept
names p = kept (segments p)

unfoldable pub join : List Segment → List ℕ
join [] = []
join (w ∷ ws) = slash ∷ (w ++ join ws)

-- The absolute path with these names, and no others.
unfoldable pub render : List Segment → List ℕ
unfolding join
render [] = slash ∷ []
render (w ∷ ws) = join (w ∷ ws)

-- No byte of the segment is a slash.
unfoldable pub is_name : Segment → Bool
is_name [] = true
is_name (c ∷ w) = not (c == slash) && is_name w

unfoldable pub all_names : List Segment → Bool
unfolding is_name
all_names [] = true
all_names (w ∷ ws) = is_name w && all_names ws

cons_first-names :
    (c : ℕ) (ws : List Segment)
    → (c == slash) ≡ false
    → all_names ws ≡ true
    → all_names (cons_first c ws) ≡ true
unfolding cons_first all_names
cons_first-names c [] h a = ground arith
cons_first-names c (w ∷ ws) h a = ground arith

pub all_names-segments : (p : List ℕ) → all_names (segments p) ≡ true
unfolding segments all_names
all_names-segments [] = refl
all_names-segments (c ∷ p) = ground (arith, all_names-segments p, cons_first-names c (segments p))

pub all_names-kept : (ws : List Segment) → all_names ws ≡ true → all_names (kept ws) ≡ true
unfolding kept all_names
all_names-kept [] h = refl
all_names-kept (w ∷ ws) h = ground (arith, all_names-kept ws)
