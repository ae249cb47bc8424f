-- ===== src/Diagnosis/Grounded.antt =====
-- What an accepted answer cites.
use processguard_ai.Diagnosis.Citations.{
  space_underscores, judge_hypothesis, or_citation, invalid_points, Reading, valid_answer,
  cited_points, judge_points, validate_point, CitedPoint, parse_and_validate, history_citation,
  sop_citation, sensor_citation, names, CitationKind, Citation, put, Evidence, put_history,
  first_named, put_all,
}
use mathlib.Core.Path.{subst}
use processguard_ai.Base.{
  ap, sym, map, ◌&&◌, ◌||◌, text_eq_sound, contains_text, some-injective, if_ind, All-imp, lower,
  text_eq_refl, text_eq, ℕ, zero, suc, ◌≤◌, ◌≡◌, refl, ◌≢◌, ◌⊎◌, inl, inr, Bool, true, false,
  Option, none, some, List, [], ◌∷◌, arith, if◌then◌else◌, Bool-cases, Option-cases, any, is_empty,
  All, Text, codes,
}

abbrev pub is_among : Text → List Text → Bool
is_among t ts = any (λ (u : Text). text_eq u t) ts

-- The key of a citation stands in the text of the point, and is not empty.
abbrev pub IsWritten : Text → Text → Type 0
IsWritten key point = (is_empty key ≡ false) × (contains_text key point ≡ true)

-- The texts of a historical incident of the evidence: its source or its id, in lower case.
abbrev pub refers : Text → Text → List (Text × Text) → Bool
refers key ref refs =
    any
      (λ (r : Text × Text). text_eq r.0 ref && (text_eq (lower r.0) key || text_eq (lower r.1) key))
      refs

-- The citation is of the evidence, and the point, in lower case, names it: a sensor by its type, with
-- underscores or blanks, a document by its id, and a historical incident by its source or id.
abbrev pub IsNamedAs : Evidence → CitationKind → Text → Text → Type 0
IsNamedAs e sensor_citation ref point =
    (is_among ref e.sensor_types ≡ true)
    × (IsWritten (lower ref) point
        ⊎ (is_empty (lower ref) ≡ false)
          × (contains_text (space_underscores (lower ref)) point ≡ true))
IsNamedAs e sop_citation ref point = (is_among ref e.sop_ids ≡ true) × IsWritten (lower ref) point
IsNamedAs e history_citation ref point =
    (key : Text) × (refers key ref e.history_refs ≡ true) × IsWritten key point

abbrev pub IsNamed : Evidence → Citation → Text → Type 0
IsNamed e c point = IsNamedAs e c.citation_kind c.ref point

among_self : (ts : List Text) → All (λ (t : Text). is_among t ts ≡ true) ts
among_self [] = tt
among_self (t ∷ ts) =
    (ground (arith, text_eq_refl t), All-imp _ _ (λ u h. ground (arith, h)) ts (among_self ts))

-- `P` of the key and the display of each entry.
module _ (P : Text → Text → Type 0) where
  abbrev IsEntry : Text × Text → Type 0
  IsEntry (key, display) = P key display

  put-All :
      (key display : Text) (entries : List (Text × Text))
      → P key display
      → All IsEntry entries
      → All IsEntry (put key display entries)
  unfolding put
  put-All key display [] p h = (p, tt)
  put-All key display ((k, d) ∷ rest) p h = elim (Bool-cases (text_eq k key)) [
    | inl same ↦ rw same (subst (λ x. P x display) (sym (text_eq_sound k key same)) p, h.1)
    | inr other ↦ rw other (h.0, put-All key display rest p h.1)
  ]

  put_all-All :
      (ts : List Text) (entries : List (Text × Text))
      → All (λ t. P (lower t) t) ts
      → All IsEntry entries
      → All IsEntry (put_all ts entries)
  unfolding put_all
  put_all-All [] entries p h = h
  put_all-All (t ∷ ts) entries p h =
      put_all-All ts (put (lower t) t entries) p.1 (put-All (lower t) t entries p.0 h)

  put_history-All :
      (refs : List (Text × Text)) (entries : List (Text × Text))
      → All (λ (r : Text × Text). P (lower r.0) r.0 × P (lower r.1) r.0) refs
      → All IsEntry entries
      → All IsEntry (put_history refs entries)
  unfolding put_history
  put_history-All [] entries p h = h
  put_history-All ((source, id) ∷ rest) entries p h =
      put_history-All rest (put (lower id) source (put (lower source) source entries)) p.1 (
        put-All (lower id) source (put (lower source) source entries) p.0.1
          (put-All (lower source) source entries p.0.0 h))

  first_named-All :
      (kind : CitationKind) (entries : List (Text × Text)) (point : Text) (c : Citation)
      → All IsEntry entries
      → first_named kind entries point ≡ some c
      → (c.citation_kind ≡ kind) × (key : Text) × P key c.ref × (names kind key point ≡ true)
  unfolding first_named
  first_named-All kind [] point c h e = absurd (ground arith)
  first_named-All kind ((key, display) ∷ rest) point c h e =
      elim (Bool-cases (names kind key point)) [
        | inl named ↦
            let same : record { citation_kind = kind; ref = display } ≡ c =
              some-injective _ c (rw (named, first_named) at e) in
            rw⁻¹ same (refl, key, h.0, named)
        | inr other ↦ first_named-All kind rest point c h.1 (rw (other, first_named) at e)
      ]

if-cases :
    {A C : Type 0} (b : Bool) (x y v : A)
    → (b ≡ true → x ≡ v → C)
    → (b ≡ false → y ≡ v → C)
    → (if b then x else y) ≡ v
    → C
if-cases true x y v f g h = f refl h
if-cases false x y v f g h = g refl h

refers_self :
    (refs : List (Text × Text))
    → All
        (λ (r : Text × Text).
          (refers (lower r.0) r.0 refs ≡ true) × (refers (lower r.1) r.0 refs ≡ true))
        refs
refers_self [] = tt
refers_self ((source, id) ∷ rest) = (
  (
    ground (arith, text_eq_refl source, text_eq_refl (lower source)),
    ground (arith, text_eq_refl source, text_eq_refl (lower id)),
  ),
  All-imp _ _ (λ r h. (ground (arith, h.0), ground (arith, h.1))) rest (refers_self rest),
)

sensor-IsWritten :
    (key point : Text)
    → names sensor_citation key point ≡ true
    → IsWritten key point
      ⊎ (is_empty key ≡ false) × (contains_text (space_underscores key) point ≡ true)
sensor-IsWritten key point h = elim (Bool-cases (contains_text key point)) [
  | inl plain ↦ inl (ground (arith, h), plain)
  | inr spaced ↦ inr (ground (arith, h), ground (arith, h, spaced))
]

module _ (e : Evidence) where
  sensor-IsNamed :
      (point : Text) (c : Citation)
      → first_named sensor_citation (put_all e.sensor_types []) point ≡ some c
      → IsNamed e c point
  sensor-IsNamed point c h =
      let P : Text → Text → Type 0 =
        λ key ref. (is_among ref e.sensor_types ≡ true) × (key ≡ lower ref) in
      let (kind, key, (known, low), named) =
        first_named-All P sensor_citation _ point c
          (put_all-All P e.sensor_types []
            (All-imp _ _ (λ t among. (among, refl)) e.sensor_types (among_self e.sensor_types)) tt)
          h in
      subst (λ k. IsNamedAs e k c.ref point) (sym kind)
        (known, sensor-IsWritten (lower c.ref) point (rw low at named))

  sop-IsNamed :
      (point : Text) (c : Citation)
      → first_named sop_citation (put_all e.sop_ids []) point ≡ some c
      → IsNamed e c point
  sop-IsNamed point c h =
      let P : Text → Text → Type 0 =
        λ key ref. (is_among ref e.sop_ids ≡ true) × (key ≡ lower ref) in
      let (kind, key, (known, low), named) =
        first_named-All P sop_citation _ point c
          (put_all-All P e.sop_ids []
            (All-imp _ _ (λ t among. (among, refl)) e.sop_ids (among_self e.sop_ids)) tt)
          h in
      let written : names sop_citation (lower c.ref) point ≡ true = rw low at named in
      subst (λ k. IsNamedAs e k c.ref point) (sym kind)
        (known, (ground (arith, written), ground (arith, written)))

  history-IsNamed :
      (point : Text) (c : Citation)
      → first_named history_citation (put_history e.history_refs []) point ≡ some c
      → IsNamed e c point
  history-IsNamed point c h =
      let P : Text → Text → Type 0 = λ key ref. refers key ref e.history_refs ≡ true in
      let (kind, key, known, named) =
        first_named-All P history_citation _ point c
          (put_history-All P e.history_refs [] (refers_self e.history_refs) tt) h in
      subst (λ k. IsNamedAs e k c.ref point) (sym kind)
        (key, known, (ground (arith, named), ground (arith, named)))

  or_citation-IsNamed :
      (point : Text) (a b : Option Citation) (c : Citation)
      → (a ≡ some c → IsNamed e c point)
      → (b ≡ some c → IsNamed e c point)
      → or_citation a b ≡ some c
      → IsNamed e c point
  or_citation-IsNamed point none b c fa fb h = fb h
  or_citation-IsNamed point (some x) b c fa fb h = fa h

  pub validate_point-IsNamed :
      (point : Text) (c : Citation) → validate_point point e ≡ some c → IsNamed e c (lower point)
  unfolding validate_point
  validate_point-IsNamed point c =
      if_ind (λ (o : Option Citation). o ≡ some c → IsNamed e c (lower point))
        (contains_text (codes "[sensor reading]") (lower point)) _ _
        (sensor-IsNamed (lower point) c)
        (if_ind (λ (o : Option Citation). o ≡ some c → IsNamed e c (lower point))
          (contains_text (codes "sop citation") (lower point)) _ _ (sop-IsNamed (lower point) c)
          (if_ind (λ (o : Option Citation). o ≡ some c → IsNamed e c (lower point))
            (contains_text (codes "historical incident") (lower point)) _ _
            (history-IsNamed (lower point) c)
            (or_citation-IsNamed (lower point) _ _ c (sop-IsNamed (lower point) c)
              (history-IsNamed (lower point) c))))

  abbrev pub IsGrounded : CitedPoint → Type 0
  IsGrounded p = IsNamed e p.citation (lower p.point)

  pub cited_points-IsGrounded : (points : List Text) → All IsGrounded (cited_points points e)
  unfolding cited_points
  cited_points-IsGrounded [] = tt
  cited_points-IsGrounded (p ∷ ps) = elim (Option-cases (validate_point p e)) [
    | inl uncited ↦ rw (uncited, cited_points) (cited_points-IsGrounded ps)
    | inr (c, found) ↦
        rw (found, cited_points) (validate_point-IsNamed p c found, cited_points-IsGrounded ps)
  ]

  -- Where no point is invalid, the points that are cited are all of them.
  pub map-cited_points :
      (points : List Text)
      → invalid_points points e ≡ 0
      → map (λ (p : CitedPoint). p.point) (cited_points points e) ≡ points
  unfolding cited_points invalid_points
  map-cited_points [] h = refl
  map-cited_points (p ∷ ps) h = elim (Option-cases (validate_point p e)) [
    | inl uncited ↦ absurd (ground (arith, uncited))
    | inr (c, found) ↦
        rw (found, cited_points)
          (ap (◌∷◌ p) (map-cited_points ps (rw (found, invalid_points) at h)))
  ]

  judge_points-valid :
      (h : Text) (confidence : Option ℕ) (cited : List CitedPoint) (invalid : ℕ) (h2 : Text) (n : ℕ)
      (accepted : List CitedPoint)
      → judge_points h confidence cited invalid ≡ valid_answer h2 n accepted
      → (accepted ≡ cited) × (cited ≢ []) × (invalid ≡ 0) × (n ≤ 100) × (h ≡ h2)
  unfolding judge_points
  judge_points-valid h confidence [] invalid h2 n accepted eq = absurd (ground arith)
  judge_points-valid h confidence (c ∷ cited) (suc invalid) h2 n accepted eq = absurd (ground arith)
  judge_points-valid h none (c ∷ cited) zero h2 n accepted eq = absurd (ground arith)
  judge_points-valid h (some k) (c ∷ cited) zero h2 n accepted eq = ground arith

  judge_hypothesis-valid :
      (o : Option Text) (r : Reading) (h : Text) (n : ℕ) (cited : List CitedPoint)
      → judge_hypothesis o r e ≡ valid_answer h n cited
      → (o ≡ some h)
        × All IsGrounded cited
        × (cited ≢ [])
        × (map (λ (p : CitedPoint). p.point) cited ≡ r.points)
        × (n ≤ 100)
  judge_hypothesis-valid none r h n cited eq = absurd (ground arith)
  judge_hypothesis-valid (some x) r h n cited eq = elim (Bool-cases (is_empty x)) [
    | inl blank ↦ absurd (ground (arith, eq, blank))
    | inr stated ↦
        let (same, some_point, all_cited, bounded, names_h) =
          judge_points-valid x r.confidence (cited_points r.points e) (invalid_points r.points e) h
            n cited (rw stated at eq) in
        (
          ap (λ y. some y) names_h,
          rw same (cited_points-IsGrounded r.points),
          rw same some_point,
          rw same (map-cited_points r.points all_cited),
          bounded,
        )
  ]

  -- An answer that is accepted either says that the evidence is insufficient, and then is its first line
  -- with confidence 0 and no citation, or it is the hypothesis that it states, with a confidence of at
  -- most 100: it cites at least one point, the points cited are all that it makes, and each citation is of
  -- a sensor type, document or historical incident of the evidence that the text of its point names.
  pub parse_and_validate-IsGrounded :
      (r : Reading) (h : Text) (n : ℕ) (cited : List CitedPoint)
      → parse_and_validate r e ≡ valid_answer h n cited
      → ((r.insufficient ≡ true) × (h ≡ r.first_line) × (n ≡ 0) × (cited ≡ []))
        ⊎ ((r.hypothesis ≡ some h)
            × All IsGrounded cited
            × (cited ≢ [])
            × (map (λ (p : CitedPoint). p.point) cited ≡ r.points)
            × (n ≤ 100))
  unfolding parse_and_validate
  parse_and_validate-IsGrounded r h n cited =
      if-cases r.insufficient _ _ (valid_answer h n cited)
        (λ honest eq. inl (ground (arith, eq, honest)))
        (λ judged eq. inr (judge_hypothesis-valid r.hypothesis r h n cited eq))
