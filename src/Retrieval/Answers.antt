-- ===== src/Retrieval/Answers.antt =====
-- What a search answers.
use processguard_ai.Retrieval.{Score, search, is_seen, Document, RetrievedChunk, collect}
use mathlib.Core.Path.{subst}
use mathlib.Core.List.{append-nil, append_assoc}
use processguard_ai.Base.{
  sym, strip, length-append, text_eq_refl, text_eq_sound, text_eq, if_ind, ℕ, ◌≤◌, ◌<◌, ◌≡◌, refl,
  ◌∙◌, ◌⊎◌, inl, inr, true, false, ◌||◌, some, List, [], ◌∷◌, ◌++◌, arith, leb, ◌==◌, Bool-cases,
  length, is_empty, All, Text, ok,
}

abbrev pub HasDistinctDocs : List RetrievedChunk → Type 0
HasDistinctDocs [] = Unit
HasDistinctDocs (c ∷ cs) = (is_seen c.chunk.doc_id cs ≡ false) × HasDistinctDocs cs

-- A ranked document that is worthless, or whose document is among the results.
abbrev pub IsServed : List RetrievedChunk → Document × Score → Type 0
IsServed results (doc, score) = (score.exact ≡ 0) ⊎ (is_seen doc.doc_id results ≡ true)

-- The results are ranked documents in the order of their rank, each with the rounding of its score, which
-- is positive before it is rounded.
abbrev pub IsPicked : List (Document × Score) → List RetrievedChunk → Type 0
IsPicked [] results = results ≡ []
IsPicked ((doc, score) ∷ order) results =
    IsPicked order results
    ⊎ ((rest : List RetrievedChunk) × (results
          ≡ record { chunk = doc; score = score.rounded } ∷ rest)
        × (0 < score.exact)
        × IsPicked order rest)

pub record IsAnswer (top_k : ℕ) (order : List (Document × Score)) (results : List RetrievedChunk)
    : Type 0 where
  pub bounded : length results ≤ top_k
  pub distinct : HasDistinctDocs results
  pub picked : IsPicked order results
  pub served : (length results ≡ top_k) ⊎ All (IsServed results) order

is_seen-append :
    (t : Text) (results : List RetrievedChunk) (c : RetrievedChunk)
    → is_seen t (results ++ c ∷ []) ≡ (is_seen t results || text_eq c.chunk.doc_id t)
is_seen-append t [] c = ground arith
is_seen-append t (x ∷ results) c = ground (arith, is_seen-append t results c)

append-HasDistinctDocs :
    (c : RetrievedChunk) (results : List RetrievedChunk)
    → is_seen c.chunk.doc_id results ≡ false
    → HasDistinctDocs results
    → HasDistinctDocs (results ++ c ∷ [])
append-HasDistinctDocs c [] unseen h = (refl, tt)
append-HasDistinctDocs c (x ∷ results) unseen h = (
  elim (Bool-cases (text_eq c.chunk.doc_id x.chunk.doc_id)) [
    | inl same ↦
        let swapped : text_eq x.chunk.doc_id c.chunk.doc_id ≡ true =
          rw (text_eq_sound c.chunk.doc_id x.chunk.doc_id same) (text_eq_refl x.chunk.doc_id) in
        absurd (ground (arith, swapped))
    | inr other ↦ is_seen-append x.chunk.doc_id results c ∙ ground (arith, h.0, other)
  ],
  append-HasDistinctDocs c results (ground arith) h.1,
)

-- An answer, its order aside.
record IsComplete (top_k : ℕ) (order : List (Document × Score)) (results : List RetrievedChunk)
    : Type 0 where
  pub bounded : length results ≤ top_k
  pub distinct : HasDistinctDocs results
  pub served : (length results ≡ top_k) ⊎ All (IsServed results) order

-- What the loop keeps of the results so far.
record IsPartial (top_k : ℕ) (results : List RetrievedChunk) : Type 0 where
  pub bounded : length results ≤ top_k
  pub distinct : HasDistinctDocs results

-- Later results only add to the earlier ones, and a full list stays as it is.
collect-is_seen :
    (top_k : ℕ) (order : List (Document × Score)) (results : List RetrievedChunk) (t : Text)
    → is_seen t results ≡ true
    → is_seen t (collect top_k order results) ≡ true
unfolding collect
collect-is_seen top_k [] results t h = h
collect-is_seen top_k ((doc, score) ∷ order) results t h = collect-is_seen top_k order _ t (
    if_ind (λ (r : List RetrievedChunk). is_seen t r ≡ true)
      (score.exact == 0 || leb top_k (length results)) _ _ h
      (if_ind (λ (r : List RetrievedChunk). is_seen t r ≡ true) (is_seen doc.doc_id results) _ _ h
        (is_seen-append t results _ ∙ ground (arith, h))))

collect-full :
    (top_k : ℕ) (order : List (Document × Score)) (results : List RetrievedChunk)
    → length results ≡ top_k
    → length (collect top_k order results) ≡ top_k
unfolding collect
collect-full top_k [] results h = h
collect-full top_k ((doc, score) ∷ order) results h =
    elim (Bool-cases (score.exact == 0 || leb top_k (length results))) [
      | inl skip ↦ rw (skip, collect) (collect-full top_k order results h)
      | inr go ↦ absurd (ground arith)
    ]

-- One more document in front of the order, which is served.
IsComplete-more :
    (top_k : ℕ) (first : Document × Score) (order : List (Document × Score))
    (results : List RetrievedChunk)
    → (length results ≡ top_k) ⊎ IsServed results first
    → IsComplete top_k order results
    → IsComplete top_k (first ∷ order) results
IsComplete-more top_k first order results served h = record {
  bounded = h.bounded;
  distinct = h.distinct;
  served = elim served [
    | inl full ↦ inl full
    | inr s ↦ elim h.served [ inl full ↦ inl full | inr rest ↦ inr (s, rest) ]
  ];
}

add-IsPartial :
    (top_k : ℕ) (doc : Document) (score : Score) (results : List RetrievedChunk)
    → (score.exact == 0 || leb top_k (length results)) ≡ false
    → is_seen doc.doc_id results ≡ false
    → IsPartial top_k results
    → IsPartial top_k (results ++ record { chunk = doc; score = score.rounded } ∷ [])
add-IsPartial top_k doc score results go unseen h = record {
  bounded =
      ground (arith, length-append results (record { chunk = doc; score = score.rounded } ∷ []));
  distinct = append-HasDistinctDocs _ results unseen h.distinct;
}

collect-IsComplete :
    (top_k : ℕ) (order : List (Document × Score)) (results : List RetrievedChunk)
    → IsPartial top_k results
    → IsComplete top_k order (collect top_k order results)
unfolding collect
collect-IsComplete top_k [] results h = record {
  bounded = h.bounded;
  distinct = h.distinct;
  served = inr tt;
}
collect-IsComplete top_k ((doc, score) ∷ order) results h =
    elim (Bool-cases (score.exact == 0 || leb top_k (length results))) [
      | inl skip ↦
          let served : (length (collect top_k order results) ≡ top_k)
              ⊎ IsServed (collect top_k order results) (doc, score) =
            elim (Bool-cases (score.exact == 0)) [
              | inl worthless ↦ inr (inl (ground arith))
              | inr positive ↦
                  let full : length results ≡ top_k = ground (arith, h.bounded) in
                  inl (collect-full top_k order results full)
            ] in
          rw (skip, collect)
            (IsComplete-more top_k (doc, score) order _ served
              (collect-IsComplete top_k order results h))
      | inr go ↦ elim (Bool-cases (is_seen doc.doc_id results)) [
        | inl seen ↦
            rw (go, collect)
              (rw seen (
                IsComplete-more top_k (doc, score) order _
                  (inr (inr (collect-is_seen top_k order results doc.doc_id seen)))
                  (collect-IsComplete top_k order results h)))
        | inr unseen ↦
            let added = results ++ record { chunk = doc; score = score.rounded } ∷ [] in
            let is_in : is_seen doc.doc_id added ≡ true =
              is_seen-append doc.doc_id results (record { chunk = doc; score = score.rounded })
              ∙ ground (arith, text_eq_refl doc.doc_id) in
            rw (go, collect)
              (rw unseen (
                IsComplete-more top_k (doc, score) order _
                  (inr (inr (collect-is_seen top_k order added doc.doc_id is_in)))
                  (collect-IsComplete top_k order added
                    (add-IsPartial top_k doc score results go unseen h))))
      ]
    ]

collect-IsPicked :
    (top_k : ℕ) (order : List (Document × Score)) (results : List RetrievedChunk)
    → (more : List RetrievedChunk) × (collect top_k order results ≡ results ++ more)
      × IsPicked order more
unfolding collect
collect-IsPicked top_k [] results = ([], sym (append-nil results), refl)
collect-IsPicked top_k ((doc, score) ∷ order) results =
    elim (Bool-cases (score.exact == 0 || leb top_k (length results))) [
      | inl skip ↦
          let (more, same, picked) = collect-IsPicked top_k order results in
          rw (skip, collect) (more, same, inl picked)
      | inr go ↦ elim (Bool-cases (is_seen doc.doc_id results)) [
        | inl seen ↦
            let (more, same, picked) = collect-IsPicked top_k order results in
            rw (go, collect) (rw seen (more, same, inl picked))
        | inr unseen ↦
            let hit : RetrievedChunk = record { chunk = doc; score = score.rounded } in
            let (more, same, picked) = collect-IsPicked top_k order (results ++ hit ∷ []) in
            rw (go, collect)
              (rw unseen (
                hit ∷ more,
                same ∙ append_assoc results (hit ∷ []) more,
                inr (more, refl, ground arith, picked),
              ))
      ]
    ]

collect-IsAnswer :
    (top_k : ℕ) (order : List (Document × Score)) → IsAnswer top_k order (collect top_k order [])
collect-IsAnswer top_k order =
    let complete =
      collect-IsComplete top_k order [] (record { bounded = omega arith; distinct = tt }) in
    let (more, same, picked) = collect-IsPicked top_k order [] in
    record {
      bounded = complete.bounded;
      distinct = complete.distinct;
      picked = subst (λ x. IsPicked order x) (sym same) picked;
      served = complete.served;
    }

-- A search that answers gives at most `top_k` hits, one for each document, in the order of the ranking,
-- each with the rounding of a score that is positive, and leaves out a document with a positive score only where it already gives `top_k` hits; a blank
-- query is answered by no hits.
pub search-IsAnswer :
    (rank : Text → List Document → List (Document × Score)) (documents : List Document)
    (query : Text) (top_k : ℕ)
    → (results : List RetrievedChunk) × (search rank
          (record { documents = some documents })
          query
          top_k
        ≡ ok results)
      × ((is_empty (strip query) ≡ true) × (results ≡ [])
          ⊎ IsAnswer top_k (rank query documents) results)
unfolding search
search-IsAnswer rank documents query top_k = elim (Bool-cases (is_empty (strip query))) [
  | inl blank ↦ rw (blank, search) ([], refl, inl (refl, refl))
  | inr asked ↦
      rw (asked, search)
        (
          collect top_k (rank query documents) [],
          refl,
          inr (collect-IsAnswer top_k (rank query documents)),
        )
]
