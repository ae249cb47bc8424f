-- ===== src/Retrieval/Provenance.antt =====
-- What `load_corpus` guarantees of the documents it returns.
use processguard_ai.Retrieval.{Document}
use processguard_ai.Retrieval.Corpus.{Metadata, get_key}
use processguard_ai.Base.{◌≡◌, Bool, true, false, ◌∷◌, ◌++◌, is_some, is_empty, Text, codes}

abbrev pub has_key : Text → Metadata → Bool
has_key key m = is_some (get_key key m)

-- A document says which kind of source it has and which file it is from, and has a text of its own
-- below its title and heading.
pub record IsSourced (d : Document) : Type 0 where
  pub names_type : has_key (codes "source_type") d.metadata ≡ true
  pub names_file : has_key (codes "source") d.metadata ≡ true
  pub has_text :
      (body : Text) × (is_empty body ≡ false)
      × (d.content ≡ d.title ++ (codes " -- " ++ (d.section ++ (b'\n' ∷ body))))
