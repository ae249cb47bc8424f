-- ===== src/Knowledge/Similar.antt =====
-- `find_similar_history`: the rows of "HistoricalIncidents" are an argument.
use processguard_ai.Base.{
  contains_text, value_error, text_eq, lower, ℕ, ◌+◌, Bool, false, not, ◌&&◌, ◌||◌, Option, none,
  some, List, [], ◌∷◌, ◌++◌, map, ltb, ◌==◌, if◌then◌else◌, take, is_empty, Text, codes, Result, ok,
  err,
}

-- The `Symptoms` column behind `json.loads`: a list of texts, another value with its `str`, or a text
-- that is no JSON.
pub data Symptoms : Type 0 where
  symptom_list : List Text → Symptoms
  other_value : Text → Symptoms
  not_json : Symptoms

pub record HistoricalRow : Type 0 where
  pub id : Text
  pub equipment_id : Option Text
  pub equipment_name : Text
  pub symptoms : Symptoms
  pub root_cause : Text
  pub resolution : Text
  pub source : Text
  pub source_type : Option Text
  pub source_url : Option Text

pub record HistoryMatch : Type 0 where
  pub row : HistoricalRow
  pub source_type : Text
  pub same_equipment : Bool

-- `" ".join(words)`
join_words : List Text → Text
join_words [] = []
join_words (w ∷ []) = w
join_words (w ∷ v ∷ ws) = w ++ (32 ∷ join_words (v ∷ ws))

unfoldable pub symptom_text : Symptoms → Text
unfolding join_words
symptom_text (symptom_list words) = lower (join_words words)
symptom_text (other_value s) = lower s
symptom_text not_json = []

abbrev spaced_code : ℕ → ℕ
spaced_code c = if c == b'_' then 32 else c

-- `sum(1 for t in sensor_types if …)`
unfoldable pub overlap : List Text → Text → ℕ
overlap [] s = 0
overlap (t ∷ ts) s =
    (if contains_text (map spaced_code t) s || contains_text t s then 1 else 0) + overlap ts s

unfoldable pub is_same_equipment : Text → Option Text → Bool
is_same_equipment equipment none = false
is_same_equipment equipment (some e) = not (is_empty equipment) && text_eq e equipment

-- What a row is ranked by: the same equipment first, then the overlap.
pub record Scored : Type 0 where
  pub same : Bool
  pub shared : ℕ
  pub row : HistoricalRow

unfoldable pub score_row : Text → List Text → HistoricalRow → Scored
unfolding symptom_text
score_row equipment types r = record {
  same = is_same_equipment equipment r.equipment_id;
  shared = overlap types (symptom_text r.symptoms);
  row = r;
}

abbrev pub is_match : Scored → Bool
is_match s = s.same || not (s.shared == 0)

unfoldable pub score_rows : Text → List Text → List HistoricalRow → List Scored
unfolding score_row
score_rows equipment types [] = []
score_rows equipment types (r ∷ rs) =
    let s = score_row equipment types r in
    let rest = score_rows equipment types rs in if is_match s then s ∷ rest else rest

-- The tuple comparison of the sort key.
unfoldable pub ranks_below : Scored → Scored → Bool
ranks_below a b =
    if a.same then b.same && ltb a.shared b.shared else b.same || ltb a.shared b.shared

-- `sort(reverse=True)` is stable: of equal keys the earlier stays in front.
unfoldable pub insert_ranked : Scored → List Scored → List Scored
insert_ranked s [] = s ∷ []
insert_ranked s (x ∷ xs) =
    let later = insert_ranked s xs in if ranks_below s x then x ∷ later else s ∷ x ∷ xs

unfoldable pub sort_ranked : List Scored → List Scored
unfolding insert_ranked
sort_ranked [] = []
sort_ranked (s ∷ ss) = insert_ranked s (sort_ranked ss)

abbrev or_illustrative : Option Text → Text
or_illustrative none = codes "illustrative"
or_illustrative (some t) = t

abbrev pub match_of : Text → HistoricalRow → HistoryMatch
match_of equipment r = record {
  row = r;
  source_type = or_illustrative r.source_type;
  same_equipment = is_same_equipment equipment r.equipment_id;
}

-- The second `json.loads` of the column is not guarded: it raises a ValueError on what is no JSON.
unfoldable pub history_row_to_dict : Text → HistoricalRow → Result HistoryMatch
history_row_to_dict equipment r = elim r.symptoms [
  | not_json ↦ err value_error
  | symptom_list words ↦ ok (match_of equipment r)
  | other_value s ↦ ok (match_of equipment r)
]

unfoldable pub to_dicts : Text → List Scored → Result (List HistoryMatch)
unfolding history_row_to_dict
to_dicts equipment [] = ok []
to_dicts equipment (s ∷ ss) =
    let rest = to_dicts equipment ss in
    elim (history_row_to_dict equipment s.row) [
      | err e ↦ err e
      | ok m ↦ elim rest [ err e ↦ err e | ok ms ↦ ok (m ∷ ms) ]
    ]

unfoldable pub find_similar_history :
    List HistoricalRow → Text → List Text → ℕ → Result (List HistoryMatch)
unfolding score_rows sort_ranked to_dicts
find_similar_history rows equipment types limit =
    if is_empty types
    then ok []
    else to_dicts equipment (take limit (sort_ranked (score_rows equipment types rows)))
