-- ===== src/PathName/Parent.antt =====
-- `get_parent_path` and `get_basename` on the names of a path.
use mathlib.Core.List.{reverse_aux}
use xxfs.Base.{
  ℕ, ◌<◌, ◌≡◌, refl, ap, ◌∙◌, arith, true, false, ◌&&◌, List, [], ◌∷◌, ◌++◌, append-nil,
  append_assoc, reverse, reverse-append, reverse-reverse, leb, length, length-reverse,
  length-append,
}
use xxfs.PathName.{slash, back_to_slash, get_basename, get_parent_path, parent_of}
use xxfs.PathName.Names.{Segment, join, render, is_name}

back-name :
    (w base out : List ℕ)
    → is_name w ≡ true
    → back_to_slash (w ++ slash ∷ out) base ≡ (slash ∷ out, reverse_aux w base)
unfolding back_to_slash is_name
back-name [] base out h = refl
back-name (c ∷ w) base out h = ground (arith, back-name w (c ∷ base) out)

is_name-append : (v w : List ℕ) → is_name (v ++ w) ≡ (is_name v && is_name w)
unfolding is_name
is_name-append [] w = refl
is_name-append (c ∷ v) w = ground (arith, is_name-append v w)

is_name-reverse : (w : List ℕ) → is_name (reverse w) ≡ is_name w
unfolding is_name
is_name-reverse [] = refl
is_name-reverse (c ∷ w) =
    ap is_name (reverse-append (c ∷ []) w)
    ∙ ground (arith, is_name-append (reverse w) (c ∷ []), is_name-reverse w)

join-append : (ws : List Segment) (w : Segment) → join (ws ++ w ∷ []) ≡ join ws ++ slash ∷ w
unfolding join
join-append [] w = simp append-nil
join-append (v ∷ ws) w = rw (join-append ws w, append_assoc)

render_last : (ws : List Segment) (w : Segment) → render (ws ++ w ∷ []) ≡ join ws ++ slash ∷ w
unfolding render
render_last [] w = join-append [] w
render_last (v ∷ ws) w = join-append (v ∷ ws) w

module _ (ws : List Segment) (w : Segment) (is : is_name w ≡ true) where
  back-render : back_to_slash (reverse (render (ws ++ w ∷ []))) [] ≡ (slash ∷ reverse (join ws), w)
  back-render =
      rw (render_last ws w, reverse-append (join ws) (slash ∷ w), reverse-append (slash ∷ []) w)
        (rw (append_assoc (reverse w) (slash ∷ []) (reverse (join ws))) (
          back-name (reverse w) [] (reverse (join ws)) (is_name-reverse w ∙ is)
          ∙ ap (λ (t : List ℕ). (slash ∷ reverse (join ws), t)) (reverse-reverse w)))

  -- The basename of a path is its last name, if that is free of slashes.
  pub get_basename-render : get_basename (render (ws ++ w ∷ [])) ≡ w
  unfolding get_basename
  get_basename-render = ap (λ t. t.1) back-render

parent_of-cons : (r : List ℕ) → 0 < length r → parent_of (slash ∷ r) ≡ reverse r
parent_of-cons [] h = absurd (omega arith)
parent_of-cons (c ∷ r) h = refl

parent_of-join : (ws : List Segment) → parent_of (slash ∷ reverse (join ws)) ≡ render ws
unfolding join render
parent_of-join [] = refl
parent_of-join (v ∷ ws) =
    parent_of-cons (reverse (join (v ∷ ws))) (rw length-reverse (omega arith))
    ∙ reverse-reverse (join (v ∷ ws))

-- The parent of a path is the path of its names but the last, if that has a byte and no slash.
pub get_parent_path-render :
    (ws : List Segment) (c : ℕ) (w : Segment)
    → is_name (c ∷ w) ≡ true
    → get_parent_path (render (ws ++ (c ∷ w) ∷ [])) ≡ render ws
unfolding get_parent_path
get_parent_path-render ws c w is =
    let long : leb (length (render (ws ++ (c ∷ w) ∷ []))) 1 ≡ false =
      rw (render_last ws (c ∷ w), length-append (join ws) (slash ∷ c ∷ w)) (ground arith) in
    rw (long, get_parent_path)
      (ap (λ t. parent_of t.0) (back-render ws (c ∷ w) is) ∙ parent_of-join ws)
