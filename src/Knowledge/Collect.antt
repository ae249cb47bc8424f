-- ===== src/Knowledge/Collect.antt =====
-- `_on_anomaly`, `handle_anomaly`, `_build_query` and `_persist_with_retry`. `json.dumps` of the evidence is a
-- parameter; tracing and metrics are not modelled.
use processguard_ai.Knowledge.Similar.{HistoricalRow, HistoryMatch, find_similar_history}
use processguard_ai.Retrieval.{Score, Document, RetrievedChunk, RetrievalIndex}
use processguard_ai.Retrieval
use processguard_ai.Incident.{Float, SensorEntry, Incident}
use processguard_ai.World.{World, publish, evidence_collected}
use processguard_ai.Db.{IdText, fetch, save_incident_evidence}
use processguard_ai.Base.{
  runtime_error, text_eq, ℕ, zero, suc, true, false, ◌&&◌, Option, none, some, List, [], ◌∷◌, ◌++◌,
  map, ltb, leb, if◌then◌else◌, length, take, is_empty, Text, codes, Result, ok, err,
}

pub record AnomalySummary : Type 0 where
  pub equipment_id : Text
  pub sensors : List SensorEntry
  -- The root causes of `matched_history`.
  pub matched_history : List Text

pub record SopHit : Type 0 where
  pub doc_id : Text
  pub title : Text
  pub section : Text
  pub score : Float
  pub excerpt : Text
  pub citation : Text
  pub source_type : Text
  pub source_url : Option Text

pub record EvidenceBundle : Type 0 where
  pub query : Text
  pub sop_chunks : List SopHit
  pub matched_history : List HistoryMatch

pub record SopText : Type 0 where
  pub title : Text
  pub section : Text
  pub content : Text

-- `_sop_texts`, in the order of insertion.
abbrev pub SopTexts : Type 0
SopTexts = List (Text × SopText)

unfoldable pub type_names : List SensorEntry → List Text
type_names [] = []
type_names (s ∷ ss) =
    let rest = type_names ss in if is_empty s.sensor_type then rest else s.sensor_type ∷ rest

reasons : List SensorEntry → List Text
reasons [] = []
reasons (s ∷ ss) = let rest = reasons ss in if is_empty s.reason then rest else s.reason ∷ rest

-- `", ".join(parts)`
join_query : List Text → Text
join_query [] = []
join_query (p ∷ []) = p
join_query (p ∷ q ∷ ps) = p ++ (b',' ∷ 32 ∷ join_query (q ∷ ps))

unfoldable pub build_query : AnomalySummary → List Text → Text
unfolding reasons join_query
build_query summary types =
    join_query
      (types ++ (codes "cooling water pump" ∷ (reasons summary.sensors ++ summary.matched_history)))

-- `metadata.get(key)`
unfoldable pub meta : Text → List (Text × Text) → Option Text
meta key [] = none
meta key ((k, v) ∷ m) = let rest = meta key m in if text_eq k key then some v else rest

abbrev or_default : Option Text → Text → Text
or_default none d = d
or_default (some t) d = t

unfoldable pub sop_hit : RetrievedChunk → SopHit
unfolding meta
sop_hit c =
    let d = c.chunk in
    record {
      doc_id = d.doc_id;
      title = d.title;
      section = d.section;
      score = c.score;
      excerpt = take 600 d.content;
      citation = d.doc_id ++ (codes " / " ++ (d.title ++ (codes " -- " ++ d.section)));
      source_type = or_default (meta (codes "source_type") d.metadata) (codes "illustrative");
      source_url = meta (codes "source_url") d.metadata;
    }

unfoldable pub sop_text : Text → SopTexts → Option SopText
sop_text t [] = none
sop_text t ((k, v) ∷ m) = let rest = sop_text t m in if text_eq k t then some v else rest

abbrev set_default : Text → SopText → SopTexts → SopTexts
set_default t v m = elim (sop_text t m) [ none ↦ m ++ (t, v) ∷ [] | some old ↦ m ]

unfoldable pub keep_texts : List RetrievedChunk → SopTexts → SopTexts
unfolding sop_text
keep_texts [] m = m
keep_texts (c ∷ cs) m =
    let d = c.chunk in
    keep_texts cs (
      set_default d.doc_id (record { title = d.title; section = d.section; content = d.content }) m)

-- `_persist_with_retry`
unfoldable pub persist_evidence : ℕ → IdText → Text → World → Result (Unit {0}) × World
persist_evidence zero t evidence w = (err runtime_error, w)
persist_evidence (suc left) t evidence w =
    let (out, db) = save_incident_evidence t evidence w.db in
    let written = record w { db = db } in
    let again = persist_evidence left t evidence written in
    elim out [ ok true ↦ (ok tt, written) | ok false ↦ again | err e ↦ again ]

abbrev stored_sensors : Option Incident → List SensorEntry
stored_sensors none = []
stored_sensors (some i) = elim i.anomaly_summary [ none ↦ [] | some sensors ↦ sensors ]

-- What the search is made of: the summary at hand, or the stored one when it has grown to five types.
unfoldable pub refreshed : AnomalySummary → Option Incident → AnomalySummary × List Text
refreshed summary fresh =
    let types = type_names summary.sensors in
    let grown = type_names (stored_sensors fresh) in
    if ltb (length types) 5 && leb 5 (length grown)
    then (record summary { sensors = stored_sensors fresh; matched_history = [] }, grown)
    else (summary, types)

module _ (rank : Text → List Document → List (Document × Score)) (dumps : EvidenceBundle → Text)
    (rows : List HistoricalRow) (retry_attempts : ℕ) where
  -- The write, then the event for the Root-Cause Agent.
  unfoldable pub attach : IdText → EvidenceBundle → World → Result EvidenceBundle × World
  unfolding persist_evidence
  attach t bundle w =
      let (out, w2) = persist_evidence retry_attempts t (dumps bundle) w in
      elim out [
        | err e ↦ (err e, w2)
        | ok u ↦
            let (told, w3) = publish (evidence_collected t) w2 in
            elim told [ err e ↦ (err e, w3) | ok v ↦ (ok bundle, w3) ]
      ]

  abbrev pub bundle_of : Text → List RetrievedChunk → List HistoryMatch → EvidenceBundle
  bundle_of query chunks history = record {
    query = query;
    sop_chunks = map sop_hit chunks;
    matched_history = history;
  }

  -- Behind a search that returned.
  unfoldable pub with_chunks :
      IdText
      → Text
      → Text
      → List Text
      → List RetrievedChunk
      → SopTexts
      → World
      → Result EvidenceBundle × SopTexts × World
  unfolding attach keep_texts
  with_chunks t equipment query types chunks texts w =
      let kept = keep_texts chunks texts in
      elim (find_similar_history rows equipment types 3) [
        | err e ↦ (err e, kept, w)
        | ok history ↦
            let (out, w2) = attach t (bundle_of query chunks history) w in (out, kept, w2)
      ]

  -- The first search is made before the summary is read again, and its failure ends the call; of two
  -- searches the second counts.
  unfoldable pub handle_anomaly :
      RetrievalIndex
      → IdText
      → AnomalySummary
      → SopTexts
      → World
      → Result EvidenceBundle × SopTexts × World
  unfolding with_chunks refreshed build_query
  handle_anomaly index t summary texts w =
      let first =
        Retrieval.search rank index (build_query summary (type_names summary.sensors)) 4 in
      let (used, types) = refreshed summary (fetch t w.db) in
      let query = build_query used types in
      elim first [
        | err e ↦ (err e, texts, w)
        | ok old ↦ elim (Retrieval.search rank index query 4) [
          | err e ↦ (err e, texts, w)
          | ok chunks ↦ with_chunks t summary.equipment_id query types chunks texts w
        ]
      ]

  -- A failure is logged and swallowed.
  unfoldable pub on_anomaly :
      RetrievalIndex → Option IdText → AnomalySummary → SopTexts → World → SopTexts × World
  unfolding handle_anomaly
  on_anomaly index none summary texts w = (texts, w)
  on_anomaly index (some t) summary texts w =
      let (out, kept, after) = handle_anomaly index t summary texts w in
      if is_empty summary.sensors then (texts, w) else (kept, after)
