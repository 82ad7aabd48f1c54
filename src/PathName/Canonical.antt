-- ===== src/PathName/Canonical.antt =====
-- `path_normalize` against the names of a path.
use xxfs.Base.{
  ℕ, ◌-◌, ◌<◌, ◌≡◌, refl, sym, ap, ◌∙◌, arith, Bool, true, false, not, inl, inr, List, [], ◌∷◌,
  ◌++◌, append-nil, ◌⊎◌, reverse, reverse-append, reverse-reverse, ◌==◌, ==→eq, length, Bool-cases,
}
use xxfs.PathName.{slash, max_path, normalize_loop, strip, lead, path_normalize}
use xxfs.PathName.Emit.{
  loop-emit, opened, emit-opened, segments-slash, opened_empty, Buffer, exact, longer,
  opened-Buffer,
}
use xxfs.PathName.Names.{
  Segment, segments, keeps, kept, names, join, render, is_name, all_names, all_names-segments,
}

-- The last byte is there, and is no slash.
ends_in_name : List ℕ → Bool
ends_in_name [] = false
ends_in_name (c ∷ []) = not (c == slash)
ends_in_name (c ∷ d ∷ xs) = ends_in_name (d ∷ xs)

reverse_ends :
    (xs : List ℕ)
    → ends_in_name xs ≡ true
    → (d : ℕ) × (r : List ℕ) × (reverse xs ≡ d ∷ r) × ((d == slash) ≡ false)
unfolding ends_in_name
reverse_ends [] h = cc
reverse_ends (c ∷ []) h = (c, [], refl, ground arith)
reverse_ends (c ∷ d ∷ xs) h =
    let (e, r, q, n) = reverse_ends (d ∷ xs) h in
    (e, r ++ c ∷ [], reverse-append (c ∷ []) (d ∷ xs) ∙ ap (λ t. t ++ c ∷ []) q, n)

strip_ends : (xs : List ℕ) → ends_in_name xs ≡ true → strip (reverse xs) ≡ reverse xs
unfolding strip
strip_ends xs h = let (d, r, q, n) = reverse_ends xs h in rw q (keep d r n)
  where
    keep : (d : ℕ) (r : List ℕ) → (d == slash) ≡ false → strip (d ∷ r) ≡ d ∷ r
    keep d [] n = refl
    keep d (e ∷ r) n = rw n

strip-slash :
    (xs : List ℕ) → ends_in_name xs ≡ true → strip (reverse (xs ++ slash ∷ [])) ≡ reverse xs
unfolding strip
strip-slash xs h =
    let (d, r, q, n) = reverse_ends xs h in
    ap strip (reverse-append xs (slash ∷ []))
    ∙ ap (λ t. strip (slash ∷ t)) q
    ∙ ap strip (sym q)
    ∙ strip_ends xs h

ends-append : (xs ys : List ℕ) → ends_in_name ys ≡ true → ends_in_name (xs ++ ys) ≡ true
unfolding ends_in_name
ends-append [] ys h = h
ends-append (c ∷ []) [] h = cc
ends-append (c ∷ []) (y ∷ ys) h = h
ends-append (c ∷ d ∷ xs) ys h = ends-append (d ∷ xs) ys h

name_ends : (w : Segment) → keeps w ≡ true → is_name w ≡ true → ends_in_name w ≡ true
unfolding ends_in_name is_name
name_ends [] k h = k
name_ends (c ∷ []) k h = ground arith
name_ends (c ∷ d ∷ w) k h = name_ends_long d w (ground arith)
  where
    name_ends_long : (d : ℕ) (w : Segment) → is_name (d ∷ w) ≡ true → ends_in_name (d ∷ w) ≡ true
    name_ends_long d [] h = ground arith
    name_ends_long d (e ∷ w) h = name_ends_long e w (ground arith)

join-ends :
    (ws : List Segment)
    → all_names ws ≡ true
    → (kept ws ≡ []) ⊎ (ends_in_name (join (kept ws)) ≡ true)
unfolding kept all_names join
join-ends [] h = inl refl
join-ends (w ∷ ws) h = elim (Bool-cases (keeps w)) [
  | inr k ↦ rw k (join-ends ws (ground arith))
  | inl k ↦ rw k (
      inr (elim (join-ends ws (ground arith)) [
        | inl none_kept ↦
            rw none_kept (rw append-nil (ends-append (slash ∷ []) w (name_ends w k (ground arith))))
        | inr e ↦ ends-append (slash ∷ w) (join (kept ws)) e
      ]))
]

strip-Buffer :
    (ns : List Segment) (b : List ℕ)
    → (ns ≡ []) ⊎ (ends_in_name (join ns) ≡ true)
    → Buffer ns b
    → reverse (strip (reverse b)) ≡ render ns
unfolding render strip join
strip-Buffer [] b e (exact _ some_name _) = absurd (some_name refl)
strip-Buffer [] b e (longer _ is) = rw is
strip-Buffer (n ∷ ns) b (inl e) buffer = cc
strip-Buffer (n ∷ ns) b (inr e) (exact _ some_name is) =
    ap (λ t. reverse (strip (reverse t))) is
    ∙ ap reverse (strip_ends (join (n ∷ ns)) e)
    ∙ reverse-reverse (join (n ∷ ns))
strip-Buffer (n ∷ ns) b (inr e) (longer _ is) =
    ap (λ t. reverse (strip (reverse t))) is
    ∙ ap reverse (strip-slash (join (n ∷ ns)) e)
    ∙ reverse-reverse (join (n ∷ ns))

-- The leading slash is written before the loop, or in its first round.
loop_start :
    (c : ℕ) (q : List ℕ)
    → (c == slash) ≡ true
    → normalize_loop (c ∷ q) [] ≡ normalize_loop q (slash ∷ [])
unfolding normalize_loop
loop_start c q h = rw (==→eq c slash h)

loop-opened :
    (p : List ℕ)
    → length p < max_path - 2
    → normalize_loop p (lead p) ≡ reverse (opened (segments p))
loop-opened [] h = unfold normalize_loop opened segments in refl
loop-opened (c ∷ q) h = elim (Bool-cases (c == slash)) [
  | inl e ↦
      rw (e, loop_start c q e, segments-slash c q e, opened_empty)
        (loop-emit q slash [] (omega arith) ∙ ap reverse (emit-opened q))
  | inr e ↦ rw e (loop-emit (c ∷ q) slash [] (omega arith) ∙ ap reverse (emit-opened (c ∷ q)))
]

-- For a path that fits the buffer, `path_normalize` is the rendering of the path's names.
pub path_normalize-render :
    (p : List ℕ) → length p < max_path - 2 → path_normalize p ≡ render (names p)
unfolding path_normalize names
path_normalize-render p h = rw (loop-opened p h) (
    strip-Buffer (kept (segments p)) (opened (segments p))
      (join-ends (segments p) (all_names-segments p)) (opened-Buffer (segments p)))
