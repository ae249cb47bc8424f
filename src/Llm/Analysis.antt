-- ===== src/Llm/Analysis.antt =====
-- agent-service/app/core/llm_client.py, `_derive_fake_analysis`: the root cause of an offline run.
use processguard_ai.Agents.{splitlines}
use processguard_ai.Retrieval.Corpus.{join_lines}
use processguard_ai.Base.{
  contains_text, starts_with, strip, is_space, text_eq, Bool, false, ◌&&◌, ◌||◌, Option, none, some,
  List, [], ◌∷◌, ◌++◌, map, if◌then◌else◌, take, keep, any, is_empty, Text, codes,
}

abbrev pub when_true : Bool → Text → List Text
when_true b line = if b then line ∷ [] else []

-- The stripped lines of the prompt that begin so.
unfoldable pub lines_with : Text → Text → List Text
unfolding splitlines
lines_with start prompt = keep (λ l. starts_with start l) (map strip (splitlines prompt))

-- `line.split()`: `word` is what stands before.
abbrev split_words : Text → Text → List Text
split_words [] [] = []
split_words (c ∷ word) [] = (c ∷ word) ∷ []
split_words word (c ∷ s) =
    let apart = split_words [] s in
    let longer = split_words (word ++ c ∷ []) s in
    if is_space c then (if is_empty word then apart else word ∷ apart) else longer

abbrev sensor_type_of : List Text → Option Text
sensor_type_of (dash ∷ label ∷ kind ∷ rest) =
    if text_eq label (codes "sensor:") then some kind else none
sensor_type_of _ = none

abbrev is_of_type : Text → Text → Bool
is_of_type kind line = elim (sensor_type_of (split_words [] line)) [
  | none ↦ false
  | some k ↦ text_eq k kind
]

pub record FakeCause : Type 0 where
  pub prefer : Text
  pub fake_hypothesis : Text
  pub fake_confidence : Text

unfoldable pub fake_cause : List Text → FakeCause
fake_cause sensors =
    if any (is_of_type (codes "flow_rate")) sensors || any (is_of_type (codes "vibration")) sensors
    then record {
      prefer = codes "COOL";
      fake_hypothesis = codes "cooling-water pump degradation";
      fake_confidence = codes "87";
    }
    else if any (is_of_type (codes "temperature")) sensors
    then record {
      prefer = codes "TEMP";
      fake_hypothesis = codes "heat-exchanger fouling";
      fake_confidence = codes "78";
    }
    else record {
      prefer = codes "CHEM";
      fake_hypothesis = codes "cooling-loop chemistry excursion";
      fake_confidence = codes "72";
    }

abbrev pub first_of : List Text → Option Text
first_of [] = none
first_of (l ∷ ls) = some l

-- The first line that contains the text, or else the first line.
unfoldable pub choose : Text → List Text → Option Text
choose part lines = elim (first_of (keep (λ l. contains_text part l) lines)) [
  | some l ↦ some l
  | none ↦ first_of lines
]

abbrev pub bullet : Text → Text → Text
bullet tag line = codes "- " ++ line ++ tag

abbrev pub chosen_point : Text → Option Text → List Text
chosen_point tag none = []
chosen_point tag (some line) = bullet tag line ∷ []

-- The bullets under `Evidence:`.
unfoldable pub fake_points : Text → List Text
unfolding lines_with fake_cause choose contains_text
fake_points prompt =
    let sensors = lines_with (codes "- sensor:") prompt in
    let sops = lines_with (codes "- SOP [") prompt in
    let hists = lines_with (codes "- HIST [") prompt in
    map (bullet (codes " [sensor reading]")) (take 4 sensors)
    ++ (chosen_point (codes " [SOP citation]")
          (choose (codes "SOP-" ++ (fake_cause sensors).prefer) sops)
        ++ chosen_point (codes " [historical incident]") (choose (codes "HIST-2026-0141") hists))

-- `_derive_fake_analysis`
unfoldable pub derive_fake_analysis : Text → Text
unfolding fake_points lines_with fake_cause join_lines
derive_fake_analysis prompt =
    let cause = fake_cause (lines_with (codes "- sensor:") prompt) in
    let unsupported =
      is_empty (lines_with (codes "- SOP [") prompt)
      && is_empty (lines_with (codes "- HIST [") prompt) in
    join_lines (
      (codes "Most likely cause: "
        ++ cause.fake_hypothesis
        ++ codes " (confidence "
        ++ cause.fake_confidence
        ++ codes "%).")
      ∷ []
      ∷ codes "Evidence:"
      ∷ (fake_points prompt
          ++ when_true unsupported (
              codes
                "- The evidence is insufficient for a confident conclusion; human review required.")))
