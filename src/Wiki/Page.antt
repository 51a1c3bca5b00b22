-- ===== src/Wiki/Page.antt =====
-- `_validate_pattern_page` of src/asme/wiki.py. `json.loads` is a parameter: the value of a text that
-- is JSON.
use agentic_skills_lifecycle.Prelude.{
  ℕ, ◌+◌, ◌-◌, String, str_append, Bool, true, false, not, ◌&&◌, ◌||◌, Option, none, some, List, [],
  ◌∷◌, Result, ok, err, ◌>>=◌, ◌>>◌, raise_if, codes, codes_eq, is_blank, is_blank_codes, leb,
  length, any, take, drop, strip_prefix, starts_with, split_lines, if◌then◌else◌,
}
use agentic_skills_lifecycle.Canonical.{matches_identifier, is_identifier_char}
use agentic_skills_lifecycle.Json.{Json, text}

-- One line of evidence: the trace, its outcome (`fail` or `pass`) and the span that is quoted.
pub record Evidence : Type 0 where
  pub trace : List ℕ
  pub outcome : List ℕ
  pub span : List ℕ

abbrev pub Lines : Type 0
Lines = List (List ℕ)

abbrev pub is_kind_line : List ℕ → Bool
is_kind_line line =
    codes_eq line (codes "pattern_kind: failure")
    || codes_eq line (codes "pattern_kind: success")
    || codes_eq line (codes "pattern_kind: paired")

-- `[index for index, line in enumerate(lines) if line == heading]`
unfoldable pub positions_of : List ℕ → ℕ → Lines → List ℕ
positions_of heading n [] = []
positions_of heading n (line ∷ lines) =
    let rest = positions_of heading (n + 1) lines in
    if codes_eq line heading then n ∷ rest else rest

unfoldable pub position_of : String → Lines → Result String ℕ
unfolding positions_of
position_of heading lines = elim (positions_of (codes heading) 0 lines) [
  | [] ↦ err (str_append "pattern page requires heading exactly once: " heading)
  | p ∷ ps ↦ elim ps [
    | [] ↦ ok p
    | q ∷ qs ↦ err (str_append "pattern page requires heading exactly once: " heading)
  ]
]

abbrev pub is_heading : List ℕ → Bool
is_heading line =
    codes_eq line (codes "## Description")
    || codes_eq line (codes "## Root cause")
    || codes_eq line (codes "## Evidence")
    || codes_eq line (codes "## Solution")

abbrev pub is_unsupported : List ℕ → Bool
is_unsupported line = starts_with (codes "## ") line && not (is_heading line)

-- `lines[start:end]`
abbrev pub between : ℕ → ℕ → Lines → Lines
between start end lines = take (end - start) (drop start lines)

abbrev pub has_text : Lines → Bool
has_text lines = any (λ l. not (is_blank_codes l)) lines

-- The four sections of a page.
pub record Sections : Type 0 where
  pub description : Lines
  pub root_cause : Lines
  pub evidence : Lines
  pub solution : Lines

unfoldable pub sections_of : Lines → Result String Sections
unfolding position_of
sections_of lines = do
  a ← position_of "## Description" lines
  b ← position_of "## Root cause" lines
  c ← position_of "## Evidence" lines
  d ← position_of "## Solution" lines
  raise_if (not (leb a b && leb b c && leb c d) || any is_unsupported lines)
      "pattern page headings are out of order or unsupported"
  ok (record {
    description = between (a + 1) b lines;
    root_cause = between (b + 1) c lines;
    evidence = between (c + 1) d lines;
    solution = between (d + 1) (length lines) lines;
  })

-- The longest prefix of identifier characters, and the rest.
unfoldable pub span_identifier : List ℕ → List ℕ × List ℕ
span_identifier [] = ([], [])
span_identifier (c ∷ cs) =
    let (name, rest) = span_identifier cs in
    if is_identifier_char c then (c ∷ name, rest) else ([], c ∷ cs)

abbrev pub is_nonempty : List ℕ → Bool
is_nonempty [] = false
is_nonempty (c ∷ cs) = true

-- The end of an evidence line: `name: span`, where the span is not empty.
unfoldable pub evidence_tail : List ℕ → Option (List ℕ × List ℕ)
unfolding span_identifier
evidence_tail cs =
    let (name, rest) = span_identifier cs in
    elim (strip_prefix (codes ": ") rest) [
      | none ↦ none
      | some encoded ↦
          if matches_identifier name && is_nonempty encoded then some (name, encoded) else none
    ]

abbrev pub with_outcome : String → Option (List ℕ × List ℕ) → Option Evidence
with_outcome outcome none = none
with_outcome outcome (some (name, encoded)) =
    some (record { trace = name; outcome = codes outcome; span = encoded })

-- `_EVIDENCE_RE.fullmatch(line)`, with the encoded span.
unfoldable pub match_evidence : List ℕ → Option Evidence
unfolding evidence_tail
match_evidence line = elim (strip_prefix (codes "- fail ") line) [
  | some rest ↦ with_outcome "fail" (evidence_tail rest)
  | none ↦ elim (strip_prefix (codes "- pass ") line) [
    | some rest ↦ with_outcome "pass" (evidence_tail rest)
    | none ↦ none
  ]
]

module _ (loads : List ℕ → Option Json) where
  -- The span that the text of an evidence line encodes.
  unfoldable pub decoded : Evidence → Option Json → Result String Evidence
  decoded e none = err "Evidence span must be one complete JSON string"
  decoded e (some (text s)) =
      if is_blank s
      then err "Evidence span must be a nonblank JSON string"
      else ok (record e { span = codes s })
  decoded e (some _) = err "Evidence span must be a nonblank JSON string"

  unfoldable pub evidence_line : List ℕ → Result String Evidence
  unfolding match_evidence decoded
  evidence_line line = elim (match_evidence line) [
    | none ↦ err "every Evidence line must be one complete evidence tuple"
    | some e ↦ decoded e (loads e.span)
  ]

  unfoldable pub evidence_lines : Lines → Result String (List Evidence)
  unfolding evidence_line
  evidence_lines [] = ok []
  evidence_lines (line ∷ lines) = do e ← evidence_line line; es ← evidence_lines lines; ok (e ∷ es)

  abbrev pub no_evidence : List Evidence → Bool
  no_evidence [] = true
  no_evidence (e ∷ es) = false

  -- The first line without `pattern_kind: `.
  abbrev pub kind_of : List ℕ → List ℕ
  kind_of line = elim (strip_prefix (codes "pattern_kind: ") line) [
    | none ↦ line
    | some kind ↦ kind
  ]

  unfoldable pub first_kind : Lines → Result String (List ℕ)
  first_kind [] = err "pattern page has an invalid pattern_kind first line"
  first_kind (line ∷ lines) =
      if is_kind_line line
      then ok (kind_of line)
      else err "pattern page has an invalid pattern_kind first line"

  unfoldable pub validate_lines : Lines → Result String (List ℕ × List Evidence)
  unfolding first_kind sections_of evidence_lines
  validate_lines lines = do
    raise_if (not (leb 10 (length lines) && leb (length lines) 30))
        "pattern page must contain 10-30 lines"
    kind ← first_kind lines
    s ← sections_of lines
    raise_if (not (has_text s.description)) "pattern page section cannot be empty: ## Description"
    raise_if (not (has_text s.root_cause)) "pattern page section cannot be empty: ## Root cause"
    raise_if (not (has_text s.solution)) "pattern page section cannot be empty: ## Solution"
    found ← evidence_lines s.evidence
    raise_if (no_evidence found) "pattern page requires at least one Evidence line"
    ok (kind, found)

  -- `_validate_pattern_page`
  unfoldable pub validate_pattern_page : List ℕ → Result String (List ℕ × List Evidence)
  unfolding validate_lines
  validate_pattern_page page = validate_lines (split_lines page)
