-- ===== src/Proposal/Origins.antt =====
-- `_trace_ids`, `_origin_ids` and `purpose_origin_observations` of src/asme/proposal.py. `json.loads` is
-- a parameter, on the code points of a text. The messages leave out the lists that they end with.
use agentic_skills_lifecycle.Prelude.{
  ℕ, String, str_append, str_eq, codes, Bool, true, false, not, ◌&&◌, Option, none, some, List, [],
  ◌∷◌, ◌++◌, Result, ok, err, ◌>>=◌, ◌>>◌, raise_if, select, starts_with, strip_prefix, split_lines,
  codes_eq, is_unique, is_subset, str_sort, str_distinct, Bytes, decode,
}
use agentic_skills_lifecycle.Canonical.{require_identifier}
use agentic_skills_lifecycle.Json.{Json, text, array, Items, no_items, item}

-- `require_identifier(value, field=name)` of a JSON value.
unfoldable pub identifier_of : Json → String → Result String String
identifier_of (text s) name = require_identifier s name
identifier_of _ name = err (str_append name " must match ^[a-z0-9][a-z0-9._-]{0,127}$")

unfoldable pub identifiers_of : Items → String → Result String (List String)
unfolding identifier_of
identifiers_of no_items name = ok []
identifiers_of (item raw rest) name = do
  first ← identifier_of raw name
  others ← identifiers_of rest name
  ok (first ∷ others)

-- `_trace_ids`
unfoldable pub trace_ids_of : Option Json → List String → Result String (List String)
unfolding identifiers_of
trace_ids_of (some (array items)) available = do
  ids ← identifiers_of items "proposal trace_id"
  raise_if (not (is_unique ids)) "proposal trace_ids must be unique"
  raise_if (not (is_subset ids available)) "proposal cites unavailable train traces"
  ok ids
trace_ids_of _ available = err "proposal trace_ids must be a list"

-- `_origin_ids`, of `raw.get("origin_observation_ids", [])`
unfoldable pub origin_ids_of : Option Json → List String → Result String (List String)
unfolding identifiers_of
origin_ids_of none available = ok []
origin_ids_of (some (array items)) available = do
  ids ← identifiers_of items "proposal origin observation ID"
  raise_if (not (is_unique ids)) "proposal origin_observation_ids must be unique"
  raise_if (not (is_subset ids available)) "proposal cites unavailable seed observations"
  ok (str_sort ids)
origin_ids_of _ available = err "proposal origin_observation_ids must be a list"

abbrev pub same_texts : List String → List String → Bool
same_texts [] [] = true
same_texts (s ∷ ss) (t ∷ ts) = str_eq s t && same_texts ss ts
same_texts _ _ = false

-- `sorted(set(names))`
abbrev pub sorted_set : List String → List String
sorted_set names = str_sort (str_distinct names)

-- `json.dumps` of a list of identifiers, which have no character that JSON escapes.
abbrev dump_items : List String → List ℕ
dump_items [] = b']' ∷ []
dump_items (s ∷ ss) = codes ", \"" ++ codes s ++ b'"' ∷ dump_items ss

unfoldable pub dump_names : List String → List ℕ
dump_names [] = codes "[]"
dump_names (s ∷ ss) = codes "[\"" ++ codes s ++ b'"' ∷ dump_items ss

module _ (loads : List ℕ → Option Json) where
  -- The origins of the one line that lists them.
  unfoldable pub line_origins : List ℕ → Result String (List String)
  unfolding identifiers_of dump_names
  line_origins line = elim (strip_prefix (codes "origin_observations: ") line) [
    | none ↦ err "skill PURPOSE.md requires one origin_observations line"
    | some rest ↦ elim (loads rest) [
      | none ↦ err "skill PURPOSE.md origin_observations must be JSON"
      | some (array items) ↦ do
        origins ← identifiers_of items "PURPOSE origin observation ID"
        raise_if (not (same_texts origins (sorted_set origins)))
            "skill PURPOSE.md origin_observations must be sorted and unique"
        raise_if (not (codes_eq line (codes "origin_observations: " ++ dump_names origins)))
            "skill PURPOSE.md origin_observations is not canonical"
        ok origins
      | some _ ↦ err "skill PURPOSE.md origin_observations must be a list"
    ]
  ]

  unfoldable pub purpose_lines : List (List ℕ) → Result String (List String)
  unfolding line_origins
  purpose_lines [] = ok []
  purpose_lines (line ∷ []) = line_origins line
  purpose_lines _ = err "skill PURPOSE.md requires one origin_observations line"

  -- `purpose_origin_observations`
  unfoldable pub purpose_origin_observations : Option Bytes → Result String (List String)
  unfolding purpose_lines
  purpose_origin_observations none = ok []
  purpose_origin_observations (some content) = elim (decode content) [
    | none ↦ err "skill PURPOSE.md provenance must be UTF-8"
    | some cs ↦ purpose_lines (select (starts_with (codes "origin_observations:")) (split_lines cs))
  ]
