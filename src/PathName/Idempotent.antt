-- ===== src/PathName/Idempotent.antt =====
-- The names of a rendered path, and `path_normalize` on its own output.
use xxfs.Base.{
  ℕ, suc, ◌+◌, ◌-◌, ◌≤◌, ◌<◌, ◌≡◌, refl, ap, ◌∙◌, arith, true, List, [], ◌∷◌, ◌++◌, append-nil,
  length, length-append,
}
use xxfs.PathName.{slash, max_path, path_normalize}
use xxfs.PathName.Canonical.{path_normalize-render}
use xxfs.PathName.Names.{
  Segment, cons_first, segments, kept, names, join, render, is_name, all_names, all_names-segments,
  all_names-kept,
}

segments-name : (w r : List ℕ) → is_name w ≡ true → segments (w ++ slash ∷ r) ≡ w ∷ segments r
unfolding segments cons_first is_name
segments-name [] r h = refl
segments-name (c ∷ w) r h = ground (arith, segments-name w r)

segments_last : (w : List ℕ) → is_name w ≡ true → segments w ≡ w ∷ []
unfolding segments cons_first is_name
segments_last [] h = refl
segments_last (c ∷ w) h = ground (arith, segments_last w)

segments-join :
    (v : Segment) (ws : List Segment)
    → all_names (v ∷ ws) ≡ true
    → segments (join (v ∷ ws)) ≡ [] ∷ v ∷ ws
unfolding segments join all_names
segments-join v [] h = rw append-nil (ap (λ t. [] ∷ t) (segments_last v (ground arith)))
segments-join v (w ∷ ws) h =
    ap (λ t. [] ∷ t) (segments-name v (w ++ join ws) (ground arith))
    ∙ ap (λ t. [] ∷ v ∷ t) (tail_eq (segments-join w ws (ground arith)))
  where
    tail_eq :
        ◌≡◌ {A = List Segment} ([] ∷ segments (w ++ join ws)) ([] ∷ w ∷ ws)
        → segments (w ++ join ws) ≡ w ∷ ws
    tail_eq e = cc

kept-kept : (ws : List Segment) → kept (kept ws) ≡ kept ws
unfolding kept
kept-kept [] = refl
kept-kept (w ∷ ws) = ground (arith, kept-kept ws)

-- The names of a rendered path are the names it was rendered from.
pub names-render : (ws : List Segment) → all_names ws ≡ true → kept ws ≡ ws → names (render ws) ≡ ws
unfolding names render
names-render [] a k = unfold segments kept in refl
names-render (v ∷ ws) a k = ap kept (segments-join v ws a) ∙ unfold kept in k

weight : List Segment → ℕ
weight [] = 0
weight (w ∷ ws) = suc (length w) + weight ws

weight-cons_first :
    (c : ℕ) (ws : List Segment) → 0 < weight ws → weight (cons_first c ws) ≡ suc (weight ws)
unfolding weight cons_first
weight-cons_first c [] h = absurd (omega arith)
weight-cons_first c (w ∷ ws) h = omega arith

weight-segments : (p : List ℕ) → weight (segments p) ≡ suc (length p)
unfolding weight segments
weight-segments [] = refl
weight-segments (c ∷ p) = ground (arith, weight-segments p, weight-cons_first c (segments p))

length-join-kept : (ws : List Segment) → length (join (kept ws)) ≤ weight ws
unfolding weight join kept
length-join-kept [] = omega arith
length-join-kept (w ∷ ws) = ground (arith, length-join-kept ws, length-append w (join (kept ws)))

length-render : (ns : List Segment) (n : ℕ) → length (join ns) ≤ n → 0 < n → length (render ns) ≤ n
unfolding render join
length-render [] n h p = omega arith
length-render (w ∷ ws) n h p = h

length-render-names : (p : List ℕ) → length (render (names p)) ≤ suc (length p)
unfolding names
length-render-names p =
    length-render (kept (segments p)) (suc (length p))
      (omega (arith, length-join-kept (segments p), weight-segments p)) (omega arith)

-- A second pass changes nothing, for a path that fits the buffer with a slash before it.
pub path_normalize_idempotent :
    (p : List ℕ) → length p < max_path - 3 → path_normalize (path_normalize p) ≡ path_normalize p
path_normalize_idempotent p h = rw (path_normalize-render p (omega arith)) (
    path_normalize-render (render (names p)) (omega (arith, length-render-names p))
    ∙ ap render (
        names-render (names p) (unfold names in all_names-kept (segments p) (all_names-segments p))
          (unfold names in kept-kept (segments p))))
