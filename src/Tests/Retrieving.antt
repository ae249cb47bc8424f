-- ===== src/Tests/Retrieving.antt =====
-- What is read and retrieved for an anomaly, and asked about it.
use processguard_ai.Retrieval.Corpus.{File}
use mathlib.Core.List.{Perm}
use processguard_ai.Knowledge.{
  insert_ranked, ranks_below, is_same_equipment, overlap, symptom_text, score_row, HistoricalRow,
  Scored, symptom_list, score_rows, match_of, find_similar_history, AnomalySummary, EvidenceBundle,
  sop_hit, handle_anomaly, refreshed, build_query,
}
use processguard_ai.Knowledge.Ranking.{find_similar_history-IsRanked, IsRanked, NotBelow}
use processguard_ai.Knowledge.Attached.{handle_anomaly-found, with_evidence}
use processguard_ai.Retrieval.{Score, Document, RetrievedChunk, RetrievalIndex}
use processguard_ai.Retrieval
use processguard_ai.Retrieval.Corpus.{split_markdown, join_lines}
use processguard_ai.Retrieval.Markdown.{
  split_markdown-print_markdown, print_markdown, section_text, IsSection, IsLine,
}
use processguard_ai.Agents.{is_break}
use processguard_ai.World.{World, evidence_collected}
use processguard_ai.Db.{uuid_text, fetch}
use processguard_ai.Incident.{opened}
use processguard_ai.Tests.Samples.{incident, world, sensor}
use processguard_ai.Base.{
  contains_text, lower, lstrip, strip, ◌≤◌, ◌≡◌, refl, ◌⊎◌, false, Option, none, some, List, [],
  ◌∷◌, ◌++◌, map, arith, length, any, All, Text, codes, ok,
}

abbrev past : Option Text → List Text → HistoricalRow
past equipment words = record {
  id = codes "h";
  equipment_id = equipment;
  equipment_name = codes "pump";
  symptoms = symptom_list words;
  root_cause = codes "clogged strainer";
  resolution = codes "cleaned";
  source = codes "HIST-1";
  source_type = none;
  source_url = none;
}

abbrev table : List HistoricalRow
table =
    past none (codes "High vibration" ∷ codes "low flow rate" ∷ [])
    ∷ past (some (codes "4")) []
    ∷ past none (codes "odour" ∷ [])
    ∷ past none (codes "vibration" ∷ [])
    ∷ []

abbrev types : List Text
types = codes "vibration" ∷ codes "flow_rate" ∷ []

find_similar_history-IsRanked_example :
    (kept dropped : List Scored) × (find_similar_history table (codes "4") types 2
      ≡ ok (map (λ s. match_of (codes "4") s.row) kept))
    × Perm (kept ++ dropped) (score_rows (codes "4") types table)
    × (length kept ≤ 2)
    × ((dropped ≡ []) ⊎ (length kept ≡ 2))
    × IsRanked kept
    × All (λ k. All (NotBelow k) dropped) kept
find_similar_history-IsRanked_example =
    find_similar_history-IsRanked table (codes "4") types 2 refl
      ((λ e. cc), ((λ e. cc), ((λ e. cc), ((λ e. cc), tt))))

-- The same equipment comes first, then the row with two of the symptoms.
ranked_first :
    find_similar_history table (codes "4") types 2
    ≡ ok (
        match_of (codes "4") (past (some (codes "4")) [])
        ∷ match_of (codes "4") (past none (codes "High vibration" ∷ codes "low flow rate" ∷ []))
        ∷ [])
unfolding find_similar_history score_row symptom_text overlap is_same_equipment lower contains_text
    ranks_below insert_ranked
ranked_first = refl

abbrev guide : Document
guide = record {
  doc_id = codes "SOP-COOL-014";
  title = codes "Cooling pump";
  section = codes "Checks";
  content = codes "Inspect the strainer.";
  metadata = (codes "source_type", codes "public_real") ∷ [];
}

abbrev all_alike : Text → List Document → List (Document × Score)
all_alike query documents = map (λ d. (d, record { exact = 5; rounded = 5 })) documents

abbrev anomaly : AnomalySummary
anomaly = record { equipment_id = codes "4"; sensors = sensor ∷ []; matched_history = [] }

abbrev query_alone : EvidenceBundle → Text
query_alone bundle = bundle.query

abbrev sound_world : World
sound_world = record (world opened) { bus_faults = [] }

handle_anomaly-found_example :
    let index : RetrievalIndex = record { documents = some (guide ∷ []) } in
    let w = sound_world in
    let (out, kept, after) =
      handle_anomaly all_alike query_alone table 3 index (uuid_text 1) anomaly [] w in
    let (used, types) = refreshed anomaly (some (incident opened)) in
    (bundle : EvidenceBundle) × (hits : List RetrievedChunk) × (out ≡ ok bundle)
    × (fetch (uuid_text 1) after.db
        ≡ some (with_evidence (incident opened) (query_alone bundle) w.db.clock))
    × (after.bus ≡ w.bus ++ evidence_collected (uuid_text 1) ∷ [])
    × (Retrieval.search all_alike index (build_query used types) 4 ≡ ok hits)
    × (bundle.sop_chunks ≡ map sop_hit hits)
    × (length bundle.sop_chunks ≤ 4)
    × (find_similar_history table anomaly.equipment_id types 3 ≡ ok bundle.matched_history)
    × (length bundle.matched_history ≤ 3)
handle_anomaly-found_example =
    handle_anomaly-found all_alike query_alone table 2 (guide ∷ []) 1 anomaly [] sound_world
      (incident opened) refl refl ((λ e. cc), ((λ e. cc), ((λ e. cc), ((λ e. cc), tt))))

abbrev checks : Text × List Text
checks = (codes "Checks", codes "- Inspect the strainer." ∷ [] ∷ codes "#1 first" ∷ [])

no_break : (s : Text) → any is_break s ≡ false → IsLine s
no_break [] h = tt
no_break (c ∷ s) h = (ground arith, no_break s (ground arith))

checks-IsSection : IsSection checks
unfolding strip lstrip
checks-IsSection = (
  (refl, no_break checks.0 refl),
  (
    (refl, refl, no_break (codes "- Inspect the strainer.") refl),
    ((refl, refl, tt), ((refl, refl, no_break (codes "#1 first") refl), tt)),
  ),
)

split_markdown-print_markdown_example :
    split_markdown
      (print_markdown (codes "Cooling pump") (codes "Scope." ∷ []) (checks ∷ checks ∷ []))
    ≡ (
      codes "Cooling pump",
      (codes "Overview", join_lines (codes "Scope." ∷ []))
          ∷ map section_text (checks ∷ checks ∷ []),
    )
unfolding strip lstrip
split_markdown-print_markdown_example =
    split_markdown-print_markdown (codes "Cooling pump") (codes "Scope." ∷ [])
      (checks ∷ checks ∷ []) (refl, no_break (codes "Cooling pump") refl)
      ((refl, refl, no_break (codes "Scope.") refl), tt) (checks-IsSection, (checks-IsSection, tt))

-- A file that says where it is from.
abbrev manual_file : File
manual_file = record {
  name = codes "pump.md";
  stem = codes "pump";
  raw = codes "<!-- source_type: public_real -->\n# Pump\nScope.\n";
}
