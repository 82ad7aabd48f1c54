-- ===== src/PathName/Emit.antt =====
-- The loop of `path_normalize` without its buffer: what it writes, from whether it stands behind
-- a slash. It writes the kept segments, and perhaps one slash too many.
use mathlib.Core.List.{reverse_aux}
use xxfs.Base.{
  ℕ, ◌+◌, ◌-◌, ◌<◌, ◌≡◌, refl, sym, ap, ◌∙◌, arith, Bool, true, false, ◌&&◌, ◌||◌, inl, inr, List,
  [], ◌∷◌, ◌++◌, append-nil, append_assoc, ◌≢◌, ◌⊎◌, ◌==◌, ==→eq, length, if◌then◌else◌, Bool-cases,
}
use xxfs.PathName.{slash, dot, max_path, at_boundary, normalize_loop}
use xxfs.PathName.Names.{Segment, cons_first, segments, keeps, kept, join}

pub emit : List ℕ → Bool → List ℕ
emit [] behind = []
emit (c ∷ p) true = elim (c == slash || c == dot && at_boundary p) [
  | true ↦ emit p true
  | false ↦ c ∷ emit p false
]
emit (c ∷ p) false = c ∷ emit p (c == slash)

-- While the buffer has room, the loop writes `emit`.
pub loop-emit :
    (p : List ℕ) (o : ℕ) (out : List ℕ)
    → length p + length (o ∷ out) < max_path - 1
    → normalize_loop p (o ∷ out) ≡ reverse_aux (emit p (o == slash)) (o ∷ out)
unfolding normalize_loop emit
loop-emit [] o out h = ground arith
loop-emit (c ∷ p) o out h =
    ground (arith, loop-emit p o out (omega arith), loop-emit p c (o ∷ out) (omega arith))

-- What the segments leave in the buffer behind a slash; `after` is the same behind a segment.
after : List Segment → List ℕ → List ℕ
after [] r = []
after (w ∷ ws) r = r

unfoldable pub opened : List Segment → List ℕ
unfolding after
opened [] = slash ∷ []
opened (w ∷ ws) = if keeps w then slash ∷ (w ++ after ws (opened ws)) else opened ws

first : List Segment → Segment
first [] = []
first (w ∷ ws) = w

rest : List Segment → List Segment
rest [] = []
rest (w ∷ ws) = ws

-- From a segment on: its own bytes, then what its followers leave.
abbrev middle : List Segment → List ℕ
middle ws = first ws ++ after (rest ws) (opened (rest ws))

middle-cons_first : (c : ℕ) (ws : List Segment) → middle (cons_first c ws) ≡ c ∷ middle ws
unfolding cons_first first rest after
middle-cons_first c [] = refl
middle-cons_first c (w ∷ ws) = refl

abbrev empty : Segment → Bool
empty [] = true
empty (c ∷ w) = false

-- There is a first segment, and it is empty exactly if the path is at a boundary.
segments-cons :
    (p : List ℕ)
    → (w : Segment) × (ws : List Segment) × (segments p ≡ w ∷ ws) × (empty w ≡ at_boundary p)
unfolding segments cons_first
segments-cons [] = ([], [], refl, refl)
segments-cons (c ∷ p) = elim (Bool-cases (c == slash)) [
  | inl e ↦ ([], segments p, rw e, sym e)
  | inr e ↦ (c ∷ first (segments p), rest (segments p), rw e (step (segments p)), sym e)
]
  where
    step : (ws : List Segment) → cons_first c ws ≡ (c ∷ first ws) ∷ rest ws
    step [] = unfold first rest in refl
    step (w ∷ ws) = unfold first rest in refl

middle-slash : (p : List ℕ) → middle ([] ∷ segments p) ≡ opened (segments p)
unfolding first rest after
middle-slash p = let (w, ws, e, _) = segments-cons p in rw e

keeps-cons :
    (c : ℕ) (p : List ℕ) (w : Segment)
    → empty w ≡ at_boundary p
    → (c == slash || c == dot && at_boundary p) ≡ false
    → keeps (c ∷ w) ≡ true
keeps-cons c p [] e h = ground arith
keeps-cons c p (d ∷ w) e h = refl

opened-cons_first :
    (c : ℕ) (p : List ℕ)
    → (c == slash || c == dot && at_boundary p) ≡ false
    → opened (cons_first c (segments p)) ≡ slash ∷ (c ∷ middle (segments p))
unfolding opened cons_first first rest
opened-cons_first c p h = let (w, ws, e, b) = segments-cons p in rw (e, keeps-cons c p w b h)

dot_first :
    (c : ℕ) (w : Segment) (ws : List Segment)
    → (c == dot) ≡ true
    → empty w ≡ true
    → opened ((c ∷ w) ∷ ws) ≡ opened (w ∷ ws)
unfolding opened
dot_first c [] ws h e = rw h
dot_first c (d ∷ w) ws h e = cc

-- A dot before a boundary leaves nothing.
opened-dot :
    (c : ℕ) (p : List ℕ)
    → (c == dot) ≡ true
    → at_boundary p ≡ true
    → opened (cons_first c (segments p)) ≡ opened (segments p)
unfolding opened cons_first
opened-dot c p h b = let (w, ws, e, f) = segments-cons p in rw e (dot_first c w ws h (f ∙ b))

pub opened_empty : (ws : List Segment) → opened ([] ∷ ws) ≡ opened ws
unfolding opened
opened_empty ws = refl

module _ (c : ℕ) (p : List ℕ) where
  skipped : Bool
  skipped = c == slash || c == dot && at_boundary p

  emit_skip : skipped ≡ true → emit (c ∷ p) true ≡ emit p true
  unfolding emit skipped
  emit_skip h = rw (h, emit)

  emit_put : skipped ≡ false → emit (c ∷ p) true ≡ c ∷ emit p false
  unfolding emit skipped
  emit_put h = rw (h, emit)

  emit_middle : emit (c ∷ p) false ≡ c ∷ emit p (c == slash)
  unfolding emit
  emit_middle = refl

  pub segments-slash : (c == slash) ≡ true → segments (c ∷ p) ≡ [] ∷ segments p
  unfolding segments
  segments-slash h = rw h

  segments_other : (c == slash) ≡ false → segments (c ∷ p) ≡ cons_first c (segments p)
  unfolding segments
  segments_other h = rw h

-- The buffer holds what the segments leave.
emit-segments :
    (p : List ℕ)
    → (slash ∷ emit p true ≡ opened (segments p)) × (emit p false ≡ middle (segments p))
emit-segments [] = unfold emit segments opened first rest after in (refl, refl)
emit-segments (c ∷ p) =
    let (start, mid) = emit-segments p in
    elim (Bool-cases (c == slash)) [
      | inl e ↦ (
        rw (emit_skip c p (skip e), segments-slash c p e, opened_empty) start,
        rw (emit_middle c p, segments-slash c p e, middle-slash p, e, ← start)
            (ap (λ k. k ∷ emit p true) (==→eq c slash e)),
      )
      | inr e ↦ (
        rw (segments_other c p e) (elim (Bool-cases (c == dot && at_boundary p)) [
          | inl d ↦
              rw (emit_skip c p (skip_dot d))
                (start ∙ sym (opened-dot c p (ground arith) (ground arith)))
          | inr d ↦
              rw (emit_put c p (put e d), opened-cons_first c p (unfold skipped in put e d), mid)
        ]),
        rw (emit_middle c p, segments_other c p e, middle-cons_first, e, mid),
      )
    ]
  where
    skip : (c == slash) ≡ true → skipped c p ≡ true
    skip e = unfold skipped in rw e

    skip_dot : (c == dot && at_boundary p) ≡ true → skipped c p ≡ true
    skip_dot d = unfold skipped in ground arith

    put : (c == slash) ≡ false → (c == dot && at_boundary p) ≡ false → skipped c p ≡ false
    put e d = unfold skipped in rw (e, d)

pub emit-opened : (p : List ℕ) → slash ∷ emit p true ≡ opened (segments p)
emit-opened p = (emit-segments p).0

-- The slash too many, if there is one.
trailing : List Segment → List ℕ
unfolding after
trailing [] = slash ∷ []
trailing (w ∷ ws) = if keeps w then after ws (trailing ws) else trailing ws

after-append :
    (w : Segment) (ws : List Segment) (r : List ℕ)
    → opened ws ≡ join (kept ws) ++ r
    → w ++ after ws (opened ws) ≡ (w ++ join (kept ws)) ++ after ws r
unfolding after join kept
after-append w [] r h = simp append-nil
after-append w (v ∷ ws) r h = rw (h, append_assoc)

opened-join : (ws : List Segment) → opened ws ≡ join (kept ws) ++ trailing ws
unfolding opened kept join trailing
opened-join [] = refl
opened-join (w ∷ ws) = elim (Bool-cases (keeps w)) [
  | inl e ↦ rw e (ap (λ t. slash ∷ t) (after-append w ws (trailing ws) (opened-join ws)))
  | inr e ↦ rw e (opened-join ws)
]

trailing_cases : (ws : List Segment) → (trailing ws ≡ []) ⊎ (trailing ws ≡ slash ∷ [])
unfolding trailing after
trailing_cases [] = inr refl
trailing_cases (w ∷ []) = ground arith
trailing_cases (w ∷ v ∷ ws) = ground (arith, trailing_cases (v ∷ ws))

trailing-kept : (ws : List Segment) → kept ws ≡ [] → trailing ws ≡ slash ∷ []
unfolding trailing kept
trailing-kept [] h = refl
trailing-kept (w ∷ ws) h = ground (arith, trailing-kept ws)

-- The buffer is the rendered names with at most one slash behind, and exactly `/` for no name.
pub data Buffer (ns : List Segment) : List ℕ → Type 0 where
  exact : (b : List ℕ) → ns ≢ [] → b ≡ join ns → Buffer ns b
  longer : (b : List ℕ) → b ≡ join ns ++ slash ∷ [] → Buffer ns b

pub opened-Buffer : (ws : List Segment) → Buffer (kept ws) (opened ws)
opened-Buffer ws = elim (trailing_cases ws) [
  | inr e ↦ longer _ (opened-join ws ∙ ap (λ t. join (kept ws) ++ t) e)
  | inl e ↦
      exact _ (λ none_kept. clash (sym e ∙ trailing-kept ws none_kept))
        (opened-join ws ∙ ap (λ t. join (kept ws) ++ t) e ∙ append-nil (join (kept ws)))
]
  where
    clash : ◌≡◌ {A = List ℕ} [] (slash ∷ []) → ⊥
    clash e = cc
