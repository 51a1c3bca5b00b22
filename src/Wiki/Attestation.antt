-- ===== src/Wiki/Attestation.antt =====
-- `_validate_class_coverage`, `_trace_disposition` and `_validate_pattern_attestation` of
-- src/asme/wiki.py. A list with an item that is no text is refused, whatever the reason that Python
-- finds first; the messages leave out the name of the pattern.
use agentic_skills_lifecycle.Prelude.{
  ℕ, String, str_eq, Bool, true, false, not, ◌&&◌, ◌||◌, Option, none, some, List, [], ◌∷◌, map,
  Result, ok, err, ◌>>=◌, ◌>>◌, raise_if, codes, codes_eq, is_blank, any, all, select, str_mem,
  is_unique, is_subset, is_within, if◌then◌else◌,
}
use agentic_skills_lifecycle.Json.{
  Json, text, array, object, Items, no_items, item, Fields, no_fields, field, get_field, is_text,
  json_eq,
}
use agentic_skills_lifecycle.Wiki.Traces.{TraceView}
use agentic_skills_lifecycle.Wiki.Patch.{mapping, text_of, is_nonblank, has_exactly}
use agentic_skills_lifecycle.Wiki.Page.{Evidence}

-- The texts of a list that holds nothing else.
unfoldable pub texts_of : Items → Option (List String)
texts_of no_items = some []
texts_of (item (text s) rest) = elim (texts_of rest) [ none ↦ none | some ss ↦ some (s ∷ ss) ]
texts_of (item _ rest) = none

abbrev pub items_of : Option Json → Option (List String)
items_of (some (array xs)) = texts_of xs
items_of _ = none

-- A list of distinct texts that is not empty.
unfoldable pub unique_texts : Option Json → String → Result String (List String)
unfolding texts_of
unique_texts v message = elim (items_of v) [
  | none ↦ err message
  | some names ↦ elim names [
    | [] ↦ err message
    | n ∷ ns ↦ if is_unique (n ∷ ns) then ok (n ∷ ns) else err message
  ]
]

abbrev pub outcome_of : TraceView → String
outcome_of t = if t.passed then "success" else "failure"

abbrev pub ids_of : List TraceView → List String
ids_of traces = map (λ t. t.task_id) traces

-- One disposition of `class_coverage`.
unfoldable pub validate_disposition : List String → Json → Result String (Unit {0})
unfolding mapping unique_texts has_exactly is_nonblank
validate_disposition known raw = do
  disposition ← mapping (some raw) "class_coverage"
  if has_exactly disposition ("represented_by" ∷ [])
      then (do
        names ←
            unique_texts (get_field "represented_by" disposition)
              "represented_by must be a nonempty unique list"
        raise_if (not (is_subset names known)) "class_coverage references unknown patterns")
      else if has_exactly disposition ("not_used" ∷ [])
      then raise_if (not (is_nonblank (get_field "not_used" disposition)))
          "class_coverage not_used reason cannot be blank"
      else err "invalid class_coverage disposition"

unfoldable pub validate_dispositions : List String → Fields → Result String (Unit {0})
unfolding validate_disposition
validate_dispositions known no_fields = ok tt
validate_dispositions known (field outcome raw rest) = do
  validate_disposition known raw
  validate_dispositions known rest

-- `_validate_class_coverage`
unfoldable pub validate_class_coverage :
    Option Json → List TraceView → List String → Result String (Unit {0})
unfolding validate_dispositions
validate_class_coverage value traces known = do
  coverage ← mapping value "class_coverage"
  raise_if (not (has_exactly coverage (map outcome_of traces)))
      "class_coverage must cover every and only sampled outcome class"
  validate_dispositions known coverage

-- The identities of the traces of an outcome.
abbrev pub present_ids : String → List TraceView → List String
present_ids outcome traces = ids_of (select (λ t. str_eq (outcome_of t) outcome) traces)

abbrev pub is_none_left : List String → Bool
is_none_left [] = true
is_none_left (x ∷ xs) = false

-- `_trace_disposition`
unfoldable pub trace_disposition :
    Option Json → String → List TraceView → Result String (List String)
unfolding unique_texts
trace_disposition (some (object m)) outcome traces = do
  raise_if (not (has_exactly m ("not_applicable" ∷ []))) "invalid traces disposition"
  raise_if
      (not (is_nonblank (get_field "not_applicable" m))
        || not (is_none_left (present_ids outcome traces)))
      "traces not_applicable is invalid"
  ok []
trace_disposition value outcome traces = do
  ids ← unique_texts value "traces must be a nonempty unique list"
  raise_if (not (is_subset ids (present_ids outcome traces)))
      "traces contains unknown or wrong-label IDs"
  ok ids

unfoldable pub find_trace : String → List TraceView → Option TraceView
find_trace id [] = none
find_trace id (t ∷ ts) = if str_eq t.task_id id then some t else find_trace id ts

abbrev pub pass_or_fail : TraceView → String
pass_or_fail t = if t.passed then "pass" else "fail"

-- The quoted span is not blank and stands in the trace.
unfoldable pub quoted_span : Option Json → TraceView → Option String
quoted_span v t = elim (text_of v) [
  | none ↦ none
  | some s ↦ if not (is_blank s) && is_within (codes s) t.content then some s else none
]

unfoldable pub quoted_trace : Option Json → List TraceView → Option TraceView
unfolding find_trace
quoted_trace v traces = elim (text_of v) [ none ↦ none | some id ↦ find_trace id traces ]

abbrev pub has_outcome : Option Json → TraceView → Bool
has_outcome none t = false
has_outcome (some v) t = is_text (pass_or_fail t) v

abbrev pub evidence_of : TraceView → String → Evidence
evidence_of t span = record {
  trace = codes t.task_id;
  outcome = codes (pass_or_fail t);
  span = codes span;
}

-- One quoted command.
unfoldable pub quoted_command : List TraceView → Json → Result String Evidence
unfolding quoted_trace quoted_span
quoted_command traces raw = do
  m ← mapping (some raw) "quoted_commands"
  raise_if (not (has_exactly m ("trace" ∷ "outcome" ∷ "span" ∷ [])))
      "quoted command fields are invalid"
  elim (quoted_trace (get_field "trace" m) traces) [
    | none ↦ err "quoted command references unknown trace"
    | some t ↦
        if not (has_outcome (get_field "outcome" m) t)
        then err "quoted command outcome mismatch for trace"
        else elim (quoted_span (get_field "span" m) t) [
          | none ↦ err "quoted command span is absent or blank for trace"
          | some s ↦ ok (evidence_of t s)
        ]
  ]

unfoldable pub quoted_commands : List TraceView → Items → Result String (List Evidence)
unfolding quoted_command
quoted_commands traces no_items = ok []
quoted_commands traces (item raw rest) = do
  e ← quoted_command traces raw
  es ← quoted_commands traces rest
  ok (e ∷ es)

unfoldable pub quoted_of : List TraceView → Option Json → Result String (List Evidence)
unfolding quoted_commands
quoted_of traces (some (array (item raw rest))) = quoted_commands traces (item raw rest)
quoted_of traces _ = err "quoted_commands must be a nonempty list"

abbrev pub same_evidence : Evidence → Evidence → Bool
same_evidence a b =
    codes_eq a.trace b.trace && codes_eq a.outcome b.outcome && codes_eq a.span b.span

-- `len(tuples) == len(set(tuples))`
abbrev pub are_distinct : List Evidence → Bool
are_distinct [] = true
are_distinct (e ∷ es) = not (any (same_evidence e) es) && are_distinct es

-- The list without the first tuple that is equal.
unfoldable pub remove_evidence : Evidence → List Evidence → Option (List Evidence)
remove_evidence e [] = none
remove_evidence e (x ∷ xs) =
    if same_evidence e x
    then some xs
    else elim (remove_evidence e xs) [ none ↦ none | some rest ↦ some (x ∷ rest) ]

-- `Counter(left) == Counter(right)`
unfoldable pub same_bag : List Evidence → List Evidence → Bool
unfolding remove_evidence
same_bag [] [] = true
same_bag [] (y ∷ ys) = false
same_bag (x ∷ xs) ys = elim (remove_evidence x ys) [ none ↦ false | some rest ↦ same_bag xs rest ]

abbrev pub codes_mem : List ℕ → List (List ℕ) → Bool
codes_mem c cs = any (codes_eq c) cs

abbrev pub evidence_ids : String → List Evidence → List (List ℕ)
evidence_ids outcome evidence =
    map (λ e. e.trace) (select (λ e. codes_eq e.outcome (codes outcome)) evidence)

-- The identities in the evidence are those of the attested list, as sets.
unfoldable pub same_ids : List (List ℕ) → List String → Bool
same_ids found ids =
    all (λ c. codes_mem c (map codes ids)) found && all (λ i. codes_mem (codes i) found) ids

-- The kind asks for traces of its outcomes.
unfoldable pub kind_has_traces : List ℕ → List String → List String → Bool
kind_has_traces kind failures successes =
    not (codes_eq kind (codes "failure") && is_none_left failures)
    && not (codes_eq kind (codes "success") && is_none_left successes)
    && not (codes_eq kind (codes "paired") && (is_none_left failures || is_none_left successes))

abbrev pub is_kind : Option Json → List ℕ → Bool
is_kind v kind = elim (text_of v) [ none ↦ false | some s ↦ codes_eq (codes s) kind ]

-- `{"updates": name}` for an updated pattern, `"new"` for a created one.
unfoldable pub is_disposition : Option Json → String → Bool → Bool
unfolding json_eq
is_disposition none name created = false
is_disposition (some v) name true = is_text "new" v
is_disposition (some v) name false = json_eq v (object (field "updates" (text name) no_fields))

abbrev pub attestation_fields : List String
attestation_fields =
    "pattern_kind" ∷ "failure_traces" ∷ "success_traces" ∷ "quoted_commands" ∷ "dedup_disposition"
    ∷ "dedup_reason" ∷ "root_cause_reason" ∷ "generalizable_because" ∷ []

-- `_validate_pattern_attestation`
unfoldable pub validate_pattern_attestation :
    String → Fields → List ℕ → List Evidence → List TraceView → Bool → Result String (Unit {0})
unfolding trace_disposition quoted_of same_bag same_ids kind_has_traces is_disposition
validate_pattern_attestation name m page_kind evidence traces created = do
  raise_if (not (has_exactly m attestation_fields)) "pattern attestation fields are incomplete"
  raise_if (not (is_kind (get_field "pattern_kind" m) page_kind))
      "page and attested pattern_kind differ"
  failures ← trace_disposition (get_field "failure_traces" m) "failure" traces
  successes ← trace_disposition (get_field "success_traces" m) "success" traces
  raise_if (any (λ i. str_mem i successes) failures) "failure and success trace lists overlap"
  raise_if (not (kind_has_traces page_kind failures successes)) "pattern lacks traces of its kind"
  quoted ← quoted_of traces (get_field "quoted_commands" m)
  raise_if (not (are_distinct quoted)) "quoted_commands contains duplicate tuples"
  raise_if (not (same_bag quoted evidence)) "Evidence tuple multiset differs from quoted_commands"
  raise_if
      (not (same_ids (evidence_ids "fail" evidence) failures)
        || not (same_ids (evidence_ids "pass" evidence) successes))
      "Evidence trace IDs differ from attested trace lists"
  raise_if (not (is_disposition (get_field "dedup_disposition" m) name created))
      "pattern must have its dedup disposition"
  raise_if
      (not (
        is_nonblank (get_field "dedup_reason" m)
        && is_nonblank (get_field "root_cause_reason" m)
        && is_nonblank (get_field "generalizable_because" m)))
      "agent judgment cannot be blank"
