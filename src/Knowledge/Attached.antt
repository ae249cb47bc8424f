-- ===== src/Knowledge/Attached.antt =====
-- What the handler leaves in the record and on the bus.
use processguard_ai.Knowledge.Ranking.{IsReadable, find_similar_history-IsRanked}
use processguard_ai.Knowledge.{
  HistoricalRow, HistoryMatch, Scored, match_of, find_similar_history, AnomalySummary,
  EvidenceBundle, SopTexts, sop_hit, persist_evidence, attach, with_chunks, handle_anomaly,
  build_query, type_names, refreshed, bundle_of,
}
use processguard_ai.Retrieval.{Score, Document, RetrievedChunk, RetrievalIndex}
use processguard_ai.Retrieval
use processguard_ai.Retrieval.Answers.{search-IsAnswer}
use processguard_ai.Incident.{Incident, Uuid}
use processguard_ai.World.{Event, World, publish, publish_with, evidence_collected}
use processguard_ai.Db.{
  Db, IdText, uuid_text, fetch, find_incident, save_incident_evidence, statements, on_row,
}
use processguard_ai.Db.Lookup.{find-update}
use processguard_ai.Base.{
  ℕ, suc, ◌≤◌, ◌≡◌, refl, ap, ◌∙◌, inl, inr, true, Option, some, List, [], ◌∷◌, ◌++◌, map, arith,
  Bool-cases, length, is_empty, All, Text, ok,
}

length-map : {A B : Type 0} (f : A → B) (xs : List A) → length (map f xs) ≡ length xs
length-map f [] = refl
length-map f (x ∷ xs) = ap suc (length-map f xs)

history_returns :
    (rows : List HistoricalRow) (equipment : Text) (types : List Text) (limit : ℕ)
    → All IsReadable rows
    → (ms : List HistoryMatch) × (find_similar_history rows equipment types limit ≡ ok ms)
      × (length ms ≤ limit)
history_returns rows equipment types limit readable = elim (Bool-cases (is_empty types)) [
  | inl nothing ↦ ([], unfold find_similar_history in rw nothing refl, omega arith)
  | inr asked ↦
      let (kept, dropped, found, p, few, full, order, best) =
        find_similar_history-IsRanked rows equipment types limit asked readable in
      (
        map (λ (s : Scored). match_of equipment s.row) kept,
        found,
        rw (length-map (λ (s : Scored). match_of equipment s.row) kept) few,
      )
]

search_returns :
    (rank : Text → List Document → List (Document × Score)) (documents : List Document)
    (query : Text) (top_k : ℕ)
    → (hits : List RetrievedChunk) × (Retrieval.search rank
          (record { documents = some documents })
          query
          top_k
        ≡ ok hits)
      × (length hits ≤ top_k)
search_returns rank documents query top_k =
    let (hits, found, answer) = search-IsAnswer rank documents query top_k in
    (hits, found, elim answer [ inl blank ↦ rw (blank.1) (omega arith) | inr full ↦ full.bounded ])

-- The stored row of an incident with the evidence attached.
abbrev pub with_evidence : Incident → Text → ℕ → Incident
with_evidence i evidence now = record i { evidence = some evidence; updated_at = now }

save_incident_evidence-found :
    (u : Uuid) (evidence : Text) (db : Db) (i : Incident)
    → find_incident u db.incidents ≡ some i
    → let (out, after) = save_incident_evidence (uuid_text u) evidence db in
      (out ≡ ok true) × (fetch (uuid_text u) after ≡ some (with_evidence i evidence db.clock))
unfolding save_incident_evidence statements
save_incident_evidence-found u evidence db i found =
    let once =
      find-update u (λ r. with_evidence r evidence db.clock) (λ r. refl) db.incidents i found in
    rw (found, on_row) (refl, once)

persist_evidence-found :
    (left : ℕ) (u : Uuid) (evidence : Text) (w : World) (i : Incident)
    → find_incident u w.db.incidents ≡ some i
    → let (out, after) = persist_evidence (suc left) (uuid_text u) evidence w in
      (out ≡ ok tt)
      × (fetch (uuid_text u) after.db ≡ some (with_evidence i evidence w.db.clock))
      × (after.bus ≡ w.bus)
      × (after.bus_faults ≡ w.bus_faults)
unfolding persist_evidence
persist_evidence-found left u evidence w i found =
    let (done, seen) = save_incident_evidence-found u evidence w.db i found in
    rw (done, persist_evidence) (refl, seen, refl, refl)

publish_sound :
    (t : IdText) (w : World)
    → w.bus_faults ≡ []
    → let (out, after) = publish (evidence_collected t) w in
      (out ≡ ok tt) × (after.db ≡ w.db) × (after.bus ≡ w.bus ++ evidence_collected t ∷ [])
unfolding publish
publish_sound t w h = rw (h, publish_with) (refl, refl, refl)

module _ (rank : Text → List Document → List (Document × Score)) (dumps : EvidenceBundle → Text)
    (rows : List HistoricalRow) (left : ℕ) where
  attach-found :
      (u : Uuid) (bundle : EvidenceBundle) (w : World) (i : Incident)
      → find_incident u w.db.incidents ≡ some i
      → w.bus_faults ≡ []
      → let (out, after) = attach rank dumps rows (suc left) (uuid_text u) bundle w in
        (out ≡ ok bundle)
        × (fetch (uuid_text u) after.db ≡ some (with_evidence i (dumps bundle) w.db.clock))
        × (after.bus ≡ w.bus ++ evidence_collected (uuid_text u) ∷ [])
  unfolding attach
  attach-found u bundle w i found sound =
      let (done, seen, bus, faults) = persist_evidence-found left u (dumps bundle) w i found in
      let (told, same, sent) =
        publish_sound (uuid_text u) (persist_evidence (suc left) (uuid_text u) (dumps bundle) w).1
          (faults ∙ sound) in
      rw (done, attach)
        (rw (told, attach)
          (
            refl,
            ap (λ (d : Db). fetch (uuid_text u) d) same ∙ seen,
            sent ∙ ap (λ (b : List Event). b ++ evidence_collected (uuid_text u) ∷ []) bus,
          ))

  with_chunks-found :
      (u : Uuid) (equipment query : Text) (types : List Text) (hits : List RetrievedChunk)
      (texts : SopTexts) (w : World) (i : Incident)
      → find_incident u w.db.incidents ≡ some i
      → w.bus_faults ≡ []
      → All IsReadable rows
      → let (out, kept, after) =
          with_chunks rank dumps rows (suc left) (uuid_text u) equipment query types hits texts w in
        (bundle : EvidenceBundle) × (out ≡ ok bundle)
        × (fetch (uuid_text u) after.db ≡ some (with_evidence i (dumps bundle) w.db.clock))
        × (after.bus ≡ w.bus ++ evidence_collected (uuid_text u) ∷ [])
        × (bundle.sop_chunks ≡ map sop_hit hits)
        × (find_similar_history rows equipment types 3 ≡ ok bundle.matched_history)
        × (length bundle.matched_history ≤ 3)
  unfolding with_chunks
  with_chunks-found u equipment query types hits texts w i found sound readable =
      let (history, got, few) = history_returns rows equipment types 3 readable in
      let bundle = bundle_of rank dumps rows (suc left) query hits history in
      let (done, seen, sent) = attach-found u bundle w i found sound in
      rw (got, with_chunks) (rw (done, with_chunks) (bundle, refl, seen, sent, refl, refl, few))

  handle_anomaly_reads :
      (index : RetrievalIndex) (u : Uuid) (summary : AnomalySummary) (texts : SopTexts) (w : World)
      (fresh : Option Incident) (old hits : List RetrievedChunk)
      → fetch (uuid_text u) w.db ≡ fresh
      → Retrieval.search rank index (build_query summary (type_names summary.sensors)) 4 ≡ ok old
      → Retrieval.search rank index
          (build_query (refreshed summary fresh).0 (refreshed summary fresh).1)
          4
        ≡ ok hits
      → handle_anomaly rank dumps rows (suc left) index (uuid_text u) summary texts w
        ≡ with_chunks rank dumps rows
            (suc left)
            (uuid_text u)
            summary.equipment_id
            (build_query (refreshed summary fresh).0 (refreshed summary fresh).1)
            (refreshed summary fresh).1
            hits
            texts
            w
  unfolding handle_anomaly
  handle_anomaly_reads index u summary texts w fresh old hits found first second =
      rw (first, handle_anomaly)
        (rw (found, handle_anomaly) (rw (second, handle_anomaly) (rw found refl)))

  -- An anomaly of a recorded incident gets its evidence: with an indexed corpus, a bus that works and
  -- readable symptoms in the history, the handler returns a bundle, writes it (and nothing else but the
  -- time of the write) to the incident's row and sends one event behind the write. The bundle cites at
  -- most four SOP chunks, which are what the index answers to the bundle's query, and at most three past
  -- incidents, which are what `find_similar_history` selects for the sensor types searched for.
  pub handle_anomaly-found :
      (documents : List Document) (u : Uuid) (summary : AnomalySummary) (texts : SopTexts)
      (w : World) (i : Incident)
      → find_incident u w.db.incidents ≡ some i
      → w.bus_faults ≡ []
      → All IsReadable rows
      → let index : RetrievalIndex = record { documents = some documents } in
        let (out, kept, after) =
          handle_anomaly rank dumps rows (suc left) index (uuid_text u) summary texts w in
        let (used, types) = refreshed summary (some i) in
        (bundle : EvidenceBundle) × (hits : List RetrievedChunk) × (out ≡ ok bundle)
        × (fetch (uuid_text u) after.db ≡ some (with_evidence i (dumps bundle) w.db.clock))
        × (after.bus ≡ w.bus ++ evidence_collected (uuid_text u) ∷ [])
        × (Retrieval.search rank index (build_query used types) 4 ≡ ok hits)
        × (bundle.sop_chunks ≡ map sop_hit hits)
        × (length bundle.sop_chunks ≤ 4)
        × (find_similar_history rows summary.equipment_id types 3 ≡ ok bundle.matched_history)
        × (length bundle.matched_history ≤ 3)
  handle_anomaly-found documents u summary texts w i found sound readable =
      let index : RetrievalIndex = record { documents = some documents } in
      let (used, types) = refreshed summary (some i) in
      let (old, first, _) =
        search_returns rank documents (build_query summary (type_names summary.sensors)) 4 in
      let (hits, second, few) = search_returns rank documents (build_query used types) 4 in
      let (bundle, done, seen, sent, chunks, past, short) =
        with_chunks-found u summary.equipment_id (build_query used types) types hits texts w i found
          sound readable in
      let bounded : length bundle.sop_chunks ≤ 4 =
        rw (chunks ∙ refl) (rw (length-map sop_hit hits) few) in
      rw (handle_anomaly_reads index u summary texts w (some i) old hits found first second)
        (bundle, hits, done, seen, sent, second, chunks, bounded, past, short)
