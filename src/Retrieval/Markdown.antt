-- ===== src/Retrieval/Markdown.antt =====
-- `_split_markdown` reads back what a markdown file is made of.
use mathlib.Core.List.{append-nil, append_assoc}
use processguard_ai.Retrieval.Corpus.{join_lines, is_title, is_heading, split_from, split_markdown}
use processguard_ai.Agents.{splitlines, split_loop, is_break}
use processguard_ai.Base.{
  All-imp, All-append, strip, ◌≡◌, refl, ap, ◌∙◌, false, List, [], ◌∷◌, ◌++◌, map, All, Text, codes,
}

-- A text of lines, each with its line feed.
unfoldable pub unlines : List Text → Text
unlines [] = []
unlines (l ∷ ls) = l ++ (b'\n' ∷ unlines ls)

abbrev pub IsLine : Text → Type 0
IsLine l = All (λ c. is_break c ≡ false) l

split_loop-line :
    (l acc rest : Text)
    → IsLine l
    → split_loop false acc (l ++ (b'\n' ∷ rest)) ≡ (acc ++ l) ∷ split_loop false [] rest
split_loop-line [] [] rest h = refl
split_loop-line [] (a ∷ acc) rest h = rw (append-nil acc) refl
split_loop-line (c ∷ l) [] rest h = rw h.0 (split_loop-line l (c ∷ []) rest h.1)
split_loop-line (c ∷ l) (a ∷ acc) rest h = rw h.0 (
    split_loop-line l (a ∷ (acc ++ c ∷ [])) rest h.1
    ∙ ap (λ (x : Text). (a ∷ x) ∷ split_loop false [] rest) (append_assoc acc (c ∷ []) l))

splitlines-unlines : (ls : List Text) → All IsLine ls → splitlines (unlines ls) ≡ ls
unfolding splitlines unlines
splitlines-unlines [] h = refl
splitlines-unlines (l ∷ ls) h =
    split_loop-line l [] (unlines ls) h.0 ∙ ap (◌∷◌ l) (splitlines-unlines ls h.1)

-- One section: its heading and its lines.
abbrev pub Section : Type 0
Section = Text × List Text

abbrev pub section_lines : List Section → List Text
section_lines [] = []
section_lines ((heading, body) ∷ ss) = (codes "## " ++ heading) ∷ (body ++ section_lines ss)

-- The file of a title, an overview and sections.
unfoldable pub print_markdown : Text → List Text → List Section → Text
print_markdown title overview sections =
    unlines ((codes "# " ++ title) ∷ (overview ++ section_lines sections))

abbrev pub IsBody : Text → Type 0
IsBody l = (is_title l ≡ false) × (is_heading l ≡ false) × IsLine l

-- A heading of one line, without white space at its ends.
abbrev pub IsHead : Text → Type 0
IsHead h = (strip h ≡ h) × IsLine h

abbrev pub IsSection : Section → Type 0
IsSection (heading, body) = IsHead heading × All IsBody body

abbrev pub section_text : Section → Text × Text
section_text (heading, body) = (heading, join_lines body)

split_from-body :
    (ls rest : List Text) (title heading : Text) (current : List Text) (done : List (Text × Text))
    → All IsBody ls
    → split_from title heading current done (ls ++ rest)
      ≡ split_from title heading (current ++ ls) done rest
unfolding split_from
split_from-body [] rest title heading current done h = rw (append-nil current) refl
split_from-body (l ∷ ls) rest title heading current done h =
    let (no_title, no_heading, line) = h.0 in
    rw (no_title, split_from)
      (rw (no_heading, split_from)
        (split_from-body ls rest title heading (current ++ l ∷ []) done h.1
          ∙ ap (λ (x : List Text). split_from title heading x done rest)
              (append_assoc current (l ∷ []) ls)))

split_from-sections :
    (ss : List Section) (title heading : Text) (current : List Text) (done : List (Text × Text))
    → All IsSection ss
    → split_from title heading current done (section_lines ss)
      ≡ (title, done ++ ((heading, join_lines current) ∷ map section_text ss))
unfolding split_from
split_from-sections [] title heading current done h = refl
split_from-sections ((next, body) ∷ ss) title heading current done h =
    let ((same, line), body_lines) = h.0 in
    let done' = done ++ (heading, join_lines current) ∷ [] in
    rw same (
      split_from-body body (section_lines ss) title next [] done' body_lines
      ∙ split_from-sections ss title next body done' h.1
      ∙ ap (λ (x : List (Text × Text)). (title, x))
          (append_assoc done ((heading, join_lines current) ∷ [])
            ((next, join_lines body) ∷ map section_text ss)))

IsBody-IsLine : (l : Text) → IsBody l → IsLine l
IsBody-IsLine l h = h.2

section_lines-IsLine : (ss : List Section) → All IsSection ss → All IsLine (section_lines ss)
section_lines-IsLine [] h = tt
section_lines-IsLine ((heading, body) ∷ ss) h =
    let ((same, line), body_lines) = h.0 in
    (
      (refl, (refl, (refl, line))),
      All-append IsLine body (section_lines ss)
          (All-imp IsBody IsLine IsBody-IsLine body body_lines) (section_lines-IsLine ss h.1),
    )

-- A markdown file is read back as it was written: from the file of a title, an overview and sections,
-- `_split_markdown` gives the title, the overview under `Overview`, and each section in order with its
-- heading and its lines, if no line of a body begins a title or a section, no text holds a line break,
-- and title and headings have no white space at their ends.
pub split_markdown-print_markdown :
    (title : Text) (overview : List Text) (sections : List Section)
    → IsHead title
    → All IsBody overview
    → All IsSection sections
    → split_markdown (print_markdown title overview sections)
      ≡ (title, (codes "Overview", join_lines overview) ∷ map section_text sections)
unfolding split_markdown print_markdown
split_markdown-print_markdown title overview sections (same, line) body heads =
    let lines : All IsLine ((codes "# " ++ title) ∷ (overview ++ section_lines sections)) = (
      (refl, (refl, line)),
      All-append IsLine overview (section_lines sections)
          (All-imp IsBody IsLine IsBody-IsLine overview body) (section_lines-IsLine sections heads),
    ) in
    let split =
      splitlines-unlines ((codes "# " ++ title) ∷ (overview ++ section_lines sections)) lines in
    rw split (
      rw same (
        split_from-body overview (section_lines sections) title (codes "Overview") [] [] body
        ∙ split_from-sections sections title (codes "Overview") overview [] heads))
