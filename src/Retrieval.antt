-- ===== src/Retrieval.antt =====
-- agent-service/app/rag/retrieval.py: `RetrievalIndex`. The vectors and the scores of scikit-learn,
-- numpy's order of them, and their rounding are parameters.
use processguard_ai.Incident.{Float}
pub mod Answers
pub mod Corpus
pub mod Markdown
pub mod Provenance
use processguard_ai.Base.{
  strip, runtime_error, value_error, text_eq, ℕ, Bool, ◌||◌, Option, none, some, List, [], ◌∷◌,
  ◌++◌, leb, ◌==◌, if◌then◌else◌, length, any, is_empty, Text, Result, ok, err,
}

pub record Document : Type 0 where
  pub doc_id : Text
  pub title : Text
  pub section : Text
  pub content : Text
  pub metadata : List (Text × Text)

-- A score, and `round(score, 4)`.
pub record Score : Type 0 where
  pub exact : Float
  pub rounded : Float

-- A hit, with the rounded score.
pub record RetrievedChunk : Type 0 where
  pub chunk : Document
  pub score : Float

-- `_documents`; none before `index` is called.
pub record RetrievalIndex : Type 0 where
  pub documents : Option (List Document)

unfoldable pub index : List Document → RetrievalIndex → Result ℕ × RetrievalIndex
index [] r = (err value_error, r)
index (d ∷ ds) r = (ok (length (d ∷ ds)), record { documents = some (d ∷ ds) })

abbrev pub is_seen : Text → List RetrievedChunk → Bool
is_seen t results = any (λ (c : RetrievedChunk). text_eq c.chunk.doc_id t) results

-- The loop over `order`, where `seen_docs` holds the ids of the results. Scores are not negative.
unfoldable pub collect : ℕ → List (Document × Score) → List RetrievedChunk → List RetrievedChunk
collect top_k [] results = results
collect top_k ((doc, score) ∷ order) results = collect top_k order (
    if score.exact == 0 || leb top_k (length results)
    then results
    else if is_seen doc.doc_id results
    then results
    else results ++ record { chunk = doc; score = score.rounded } ∷ [])

-- `rank` gives each document with its score, best first.
unfoldable pub search :
    (Text → List Document → List (Document × Score))
    → RetrievalIndex
    → Text
    → ℕ
    → Result (List RetrievedChunk)
unfolding collect
search rank r query top_k = elim r.documents [
  | none ↦ err runtime_error
  | some documents ↦
      if is_empty (strip query) then ok [] else ok (collect top_k (rank query documents) [])
]
