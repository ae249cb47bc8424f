-- ===== src/Diagnosis/Citations.antt =====
-- `_validate_point` and `_parse_and_validate`. What the regular expressions of the module find in the
-- model's text is a `Reading`.
use processguard_ai.Base.{
  contains_text, text_eq, lower, ℕ, zero, suc, Bool, not, ◌&&◌, ◌||◌, Option, none, some, List, [],
  ◌∷◌, ltb, ◌==◌, if◌then◌else◌, is_empty, Text, codes,
}

-- What can be cited: the sensor types of the summary, the ids of the SOP chunks, and the source and id
-- of each matched historical incident.
pub record Evidence : Type 0 where
  pub sensor_types : List Text
  pub sop_ids : List Text
  pub history_refs : List (Text × Text)

-- A dict with lowercase keys: a key keeps its place, and its value is the last one put.
unfoldable pub put : Text → Text → List (Text × Text) → List (Text × Text)
put key display [] = (key, display) ∷ []
put key display ((k, d) ∷ rest) =
    let further = put key display rest in
    if text_eq k key then (k, display) ∷ rest else (k, d) ∷ further

unfoldable pub put_all : List Text → List (Text × Text) → List (Text × Text)
put_all [] entries = entries
put_all (t ∷ ts) entries = put_all ts (put (lower t) t entries)

unfoldable pub put_history : List (Text × Text) → List (Text × Text) → List (Text × Text)
put_history [] entries = entries
put_history ((source, id) ∷ rest) entries =
    put_history rest (put (lower id) source (put (lower source) source entries))

pub data CitationKind : Type 0 where
  sensor_citation sop_citation history_citation : CitationKind

pub record Citation : Type 0 where
  pub citation_kind : CitationKind
  pub ref : Text

abbrev pub space_underscores : Text → Text
space_underscores [] = []
space_underscores (c ∷ t) = (if c == b'_' then b' ' else c) ∷ space_underscores t

-- `if key and key in lowered`, for sensors with the underscores as blanks too.
abbrev pub names : CitationKind → Text → Text → Bool
names sensor_citation key point =
    not (is_empty key) && (contains_text key point || contains_text (space_underscores key) point)
names _ key point = not (is_empty key) && contains_text key point

unfoldable pub first_named : CitationKind → List (Text × Text) → Text → Option Citation
first_named kind [] point = none
first_named kind ((key, display) ∷ rest) point =
    let later = first_named kind rest point in
    if names kind key point then some (record { citation_kind = kind; ref = display }) else later

abbrev pub or_citation : Option Citation → Option Citation → Option Citation
or_citation none other = other
or_citation (some c) other = some c

-- "sop citation" and "historical incident" are found where they stand in brackets too.
unfoldable pub validate_point : Text → Evidence → Option Citation
unfolding first_named put_all put_history
validate_point point e =
    let lowered = lower point in
    let sensors = put_all e.sensor_types [] in
    let sops = put_all e.sop_ids [] in
    let history = put_history e.history_refs [] in
    if contains_text (codes "[sensor reading]") lowered
    then first_named sensor_citation sensors lowered
    else if contains_text (codes "sop citation") lowered
    then first_named sop_citation sops lowered
    else if contains_text (codes "historical incident") lowered
    then first_named history_citation history lowered
    else or_citation (first_named sop_citation sops lowered)
        (first_named history_citation history lowered)

pub record Reading : Type 0 where
  -- "insufficient evidence" is found, and the first line has no dash.
  pub insufficient : Bool
  pub first_line : Text
  pub hypothesis : Option Text
  pub confidence : Option ℕ
  pub points : List Text

pub record CitedPoint : Type 0 where
  pub citation : Citation
  pub point : Text

unfoldable pub cited_points : List Text → Evidence → List CitedPoint
cited_points [] e = []
cited_points (p ∷ ps) e =
    let rest = cited_points ps e in
    elim (validate_point p e) [ none ↦ rest | some c ↦ record { citation = c; point = p } ∷ rest ]

unfoldable pub invalid_points : List Text → Evidence → ℕ
invalid_points [] e = 0
invalid_points (p ∷ ps) e =
    let rest = invalid_points ps e in elim (validate_point p e) [ none ↦ suc rest | some c ↦ rest ]

pub data Parsed : Type 0 where
  invalid_answer : Parsed
  valid_answer : (hypothesis : Text) (confidence : ℕ) (cited : List CitedPoint) → Parsed

abbrev at_most_hundred : ℕ → ℕ
at_most_hundred n = if ltb n 100 then n else 100

unfoldable pub judge_points : Text → Option ℕ → List CitedPoint → ℕ → Parsed
judge_points h confidence [] invalid = invalid_answer
judge_points h confidence (c ∷ cited) (suc invalid) = invalid_answer
judge_points h none (c ∷ cited) zero = invalid_answer
judge_points h (some n) (c ∷ cited) zero = valid_answer h (at_most_hundred n) (c ∷ cited)

abbrev pub judge_hypothesis : Option Text → Reading → Evidence → Parsed
judge_hypothesis none r e = invalid_answer
judge_hypothesis (some h) r e =
    let parsed =
      judge_points h r.confidence (cited_points r.points e) (invalid_points r.points e) in
    if is_empty h then invalid_answer else parsed

unfoldable pub parse_and_validate : Reading → Evidence → Parsed
unfolding judge_points cited_points invalid_points validate_point
parse_and_validate r e =
    if r.insufficient then valid_answer r.first_line 0 [] else judge_hypothesis r.hypothesis r e
