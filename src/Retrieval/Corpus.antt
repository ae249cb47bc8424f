-- ===== src/Retrieval/Corpus.antt =====
-- agent-service/app/rag/corpus.py: from the markdown files to the documents of the index. A file is its
-- name, its stem and its text; the files come sorted.
use processguard_ai.Retrieval.{Document}
use processguard_ai.Agents.{splitlines}
use processguard_ai.Base.{
  drop_text, text_eq, starts_with, runtime_error, is_space, strip, lstrip, Bool, false, not, ◌&&◌,
  Option, none, some, List, [], ◌∷◌, ◌++◌, ◌==◌, if◌then◌else◌, any, is_empty, Text, codes, Result,
  ok, err,
}

abbrev pub Metadata : Type 0
Metadata = List (Text × Text)

-- `metadata[key] = value`
unfoldable pub set_key : Text → Text → Metadata → Metadata
set_key key v [] = (key, v) ∷ []
set_key key v ((k, w) ∷ m) =
    let rest = set_key key v m in if text_eq k key then (k, v) ∷ m else (k, w) ∷ rest

unfoldable pub get_key : Text → Metadata → Option Text
get_key key [] = none
get_key key ((k, v) ∷ m) = let rest = get_key key m in if text_eq k key then some v else rest

-- `line.partition(":")`; none if the line has no colon.
unfoldable pub partition_colon : Text → Option (Text × Text)
partition_colon [] = none
partition_colon (c ∷ s) =
    let rest : Option (Text × Text) = elim (partition_colon s) [
      | none ↦ none
      | some (before, behind) ↦ some (c ∷ before, behind)
    ] in
    if c == b':' then some ([], s) else rest

unfoldable pub read_lines : List Text → Metadata → Metadata
unfolding partition_colon set_key
read_lines [] m = m
read_lines (line ∷ lines) m = read_lines lines (elim (partition_colon line) [
  | none ↦ m
  | some (key, value) ↦ set_key (strip key) (strip value) m
])

-- The text before the first `-->` and the text behind it.
cut_comment : Text → Option (Text × Text)
cut_comment [] = none
cut_comment (c ∷ s) =
    let rest : Option (Text × Text) = elim (cut_comment s) [
      | none ↦ none
      | some (before, behind) ↦ some (c ∷ before, behind)
    ] in
    if starts_with (codes "-->") (c ∷ s) then some ([], drop_text 2 s) else rest

-- The white space in front, which the substitution leaves.
leading : Text → Text
leading [] = []
leading (c ∷ s) = let rest = leading s in if is_space c then c ∷ rest else []

-- `_FRONT_MATTER_RE` at the start of the stripped text: the comment's content, and the text without it.
unfoldable pub front_matter : Text → Option (Text × Text)
unfolding cut_comment leading
front_matter raw =
    let stripped = lstrip raw in
    if starts_with (codes "<!--") stripped
    then elim (cut_comment (lstrip (drop_text 4 stripped))) [
      | none ↦ none
      | some (content, behind) ↦ some (content, leading raw ++ lstrip behind)
    ]
    else none

unfoldable pub parse_front_matter : Text → Metadata × Text
unfolding front_matter read_lines
parse_front_matter raw =
    let metadata : Metadata = (codes "source_type", codes "illustrative") ∷ [] in
    elim (front_matter raw) [
      | none ↦ (metadata, raw)
      | some (content, body) ↦ (read_lines (splitlines content) metadata, body)
    ]

-- `"\n".join(lines)`
unfoldable pub join_lines : List Text → Text
join_lines [] = []
join_lines (l ∷ []) = l
join_lines (l ∷ m ∷ ls) = l ++ (b'\n' ∷ join_lines (m ∷ ls))

abbrev pub is_title : Text → Bool
is_title line = starts_with (codes "# ") line && not (starts_with (codes "## ") line)

abbrev pub is_heading : Text → Bool
is_heading line = starts_with (codes "## ") line

unfoldable pub split_from :
    Text → Text → List Text → List (Text × Text) → List Text → Text × List (Text × Text)
unfolding join_lines
split_from title heading current sections [] =
    (title, sections ++ (heading, join_lines current) ∷ [])
split_from title heading current sections (line ∷ lines) =
    let titled = split_from (strip (drop_text 2 line)) heading current sections lines in
    let headed =
      split_from title (strip (drop_text 3 line)) []
        (sections ++ (heading, join_lines current) ∷ []) lines in
    let longer = split_from title heading (current ++ line ∷ []) sections lines in
    if is_title line then titled else if is_heading line then headed else longer

unfoldable pub split_markdown : Text → Text × List (Text × Text)
unfolding split_from
split_markdown raw = split_from (codes "Untitled") (codes "Overview") [] [] (splitlines raw)

pub record File : Type 0 where
  pub name : Text
  pub stem : Text
  pub raw : Text

unfoldable pub merged : Metadata → Metadata → Metadata
unfolding set_key
merged [] m = m
merged ((k, v) ∷ rest) m = merged rest (set_key k v m)

-- The documents of a file: a section whose body is blank gives none.
unfoldable pub section_documents : File → Metadata → Text → List (Text × Text) → List Document
unfolding merged
section_documents file metadata title [] = []
section_documents file metadata title ((heading, body) ∷ sections) =
    let content = strip body in
    let rest = section_documents file metadata title sections in
    if is_empty content
    then rest
    else record {
      doc_id = file.stem;
      title = title;
      section = heading;
      content = title ++ (codes " -- " ++ (heading ++ (b'\n' ∷ content)));
      metadata = merged metadata ((codes "source", file.name) ∷ []);
    }
      ∷ rest

unfoldable pub file_documents : File → List Document
unfolding section_documents parse_front_matter split_markdown
file_documents file =
    let (metadata, raw) = parse_front_matter file.raw in
    let (title, sections) = split_markdown raw in section_documents file metadata title sections

unfoldable pub all_documents : List File → List Document
unfolding file_documents
all_documents [] = []
all_documents (f ∷ fs) = file_documents f ++ all_documents fs

abbrev pub is_public : Document → Bool
unfolding get_key
is_public d = elim (get_key (codes "source_type") d.metadata) [
  | none ↦ false
  | some t ↦ text_eq t (codes "public_real")
]

unfoldable pub load_corpus : List File → Result (List Document)
unfolding all_documents
load_corpus files =
    let documents = all_documents files in
    if is_empty documents
    then err runtime_error
    else if not (any is_public documents)
    then err runtime_error
    else ok documents
