-- ===== src/Wiki/Tests.antt =====
-- The wiki rules at a concrete sample and a concrete change.
use agentic_skills_lifecycle.Prelude.{
  ℕ, ◌≤◌, ◌≡◌, refl, String, true, false, Option, some, List, [], ◌∷◌, ok, codes, length, select,
  str_len, take, drop, has_key, lookup, put_key, str_sort, str_insert, str_leb, codes_leb,
  strip_prefix, count_from, replace_first, is_within, lines_from, line_step, is_line_break,
  is_blank, is_blank_codes, is_space,
}
use agentic_skills_lifecycle.Canonical.{
  require_identifier, matches_identifier, is_alphanumeric, is_identifier_char,
}
use agentic_skills_lifecycle.Json.{
  Json, text, array, object, Items, no_items, item, Fields, no_fields, field, get_field,
}
use agentic_skills_lifecycle.Wiki.Traces.{
  TraceView, insert_trace, sort_traces, view_of, views_of, failures_of, successes_of, sample_traces,
}
use agentic_skills_lifecycle.Wiki.Patch.{
  mapping, is_nonblank, has_exactly, nonempty_text, patch_action, patch_at, patch_with, patch_step,
  apply_patch_operations,
}
use agentic_skills_lifecycle.Wiki.Page.{
  positions_of, position_of, sections_of, span_identifier, evidence_tail, match_evidence, decoded,
  evidence_line, evidence_lines, first_kind, validate_lines, validate_pattern_page,
}
use agentic_skills_lifecycle.Wiki.Attestation.{
  texts_of, unique_texts, validate_disposition, validate_dispositions, validate_class_coverage,
  trace_disposition, find_trace, quoted_span, quoted_trace, quoted_command, quoted_commands,
  quoted_of, remove_evidence, same_bag, same_ids, kind_has_traces, is_disposition,
  validate_pattern_attestation,
}
use agentic_skills_lifecycle.Wiki.Change.{
  ValidatedWikiChange, create_page, create_pages, update_pages, check_page, check_pages,
  check_attestation, validate_maintainer_change,
}
use agentic_skills_lifecycle.Wiki.Laws.Sampling.{
  AreBounded, is_failure, is_success, sample_traces-AreBounded,
}
use agentic_skills_lifecycle.Wiki.Laws.Patches.{Edits, apply_patch_operations-Edits}
use agentic_skills_lifecycle.Wiki.Laws.Changes.{IsAccepted, validate_maintainer_change-IsAccepted}

abbrev source : String
source = "aaaaaaaaaaaaaaaaaaaaaaaaaaaaaaaaaaaaaaaaaaaaaaaaaaaaaaaaaaaaaaaa"

abbrev failed : TraceView
failed = record { task_id = "t1"; passed = false; content = codes "ls -l"; source_hash = source }

abbrev passed_trace : TraceView
passed_trace = record { task_id = "t0"; passed = true; content = codes "ok"; source_hash = source }

samples : sample_traces (passed_trace ∷ failed ∷ []) ≡ ok (failed ∷ passed_trace ∷ [])
unfolding sample_traces views_of view_of failures_of successes_of sort_traces insert_trace take
    require_identifier matches_identifier is_alphanumeric is_identifier_char str_len
samples = refl

sample_traces-AreBounded_example :
    AreBounded (failed ∷ passed_trace ∷ [])
    × (length (select is_failure (failed ∷ passed_trace ∷ [])) ≤ 5)
    × (length (select is_success (failed ∷ passed_trace ∷ [])) ≤ 3)
sample_traces-AreBounded_example =
    sample_traces-AreBounded (passed_trace ∷ failed ∷ []) (failed ∷ passed_trace ∷ []) samples

abbrev patch_items : Items
patch_items =
    item
      (object (
        field "op" (text "replace")
          (field "target" (text "cd") (field "content" (text "pwd") no_fields))))
      (item (object (field "op" (text "append") (field "content" (text ".") no_fields))) no_items)

patches : apply_patch_operations patch_items (codes "a cd b") ≡ ok (codes "a pwd b.")
unfolding apply_patch_operations patch_step patch_with patch_at patch_action nonempty_text mapping
    get_field count_from strip_prefix replace_first
patches = refl

apply_patch_operations-Edits_example : Edits patch_items (codes "a cd b") (codes "a pwd b.")
apply_patch_operations-Edits_example =
    apply_patch_operations-Edits patch_items (codes "a cd b") (codes "a pwd b.") patches

-- A reader of JSON that knows one text.
abbrev loads : List ℕ → Option Json
loads cs = some (text "ls")

abbrev page : String
page =
    "pattern_kind: failure\n## Description\nIt fails.\n## Root cause\nA bug.\n## Evidence\n- fail t1: ls\n## Solution\nFix it.\nDone.\n"

abbrev quoted : Json
quoted =
    object (
      field "trace" (text "t1")
        (field "outcome" (text "fail") (field "span" (text "ls") no_fields)))

abbrev attested : Json
attested = object (
    field "pattern_kind" (text "failure") (
      field "failure_traces" (array (item (text "t1") no_items)) (
        field "success_traces" (object (field "not_applicable" (text "none") no_fields)) (
          field "quoted_commands" (array (item quoted no_items)) (
            field "dedup_disposition" (text "new") (
              field "dedup_reason" (text "first") (
                field "root_cause_reason" (text "seen")
                  (field "generalizable_because" (text "common") no_fields))))))))

abbrev attestation : Fields
attestation = field "input_hash" (text "h") (
    field "class_coverage"
      (object (
        field "failure"
          (object (field "represented_by" (array (item (text "p1") no_items)) no_fields))
          no_fields))
      (field "per_pattern" (object (field "p1" attested no_fields)) no_fields))

abbrev payload : Fields
payload = field "create_patterns" (object (field "p1" (text page) no_fields)) (
    field "update_patterns" (object no_fields) (
      field "update_index" (text "p1")
        (field "append_log" (text "new p1") (field "attestation" (object attestation) no_fields))))

abbrev change : ValidatedWikiChange
change = record {
  pages = ("p1", codes page) ∷ [];
  index = some (text "p1");
  log_entry = some (text "new p1");
  attestation = attestation;
}

accepts : validate_maintainer_change loads payload (failed ∷ []) "h" [] ≡ ok change
unfolding validate_maintainer_change create_pages create_page update_pages check_attestation
    check_pages check_page mapping has_exactly get_field is_nonblank is_blank is_blank_codes
    is_space require_identifier matches_identifier is_alphanumeric is_identifier_char has_key lookup
    put_key str_sort str_insert str_leb codes_leb validate_pattern_page validate_lines first_kind
    sections_of position_of positions_of evidence_lines evidence_line match_evidence evidence_tail
    span_identifier decoded strip_prefix lines_from line_step is_line_break validate_class_coverage
    validate_dispositions validate_disposition unique_texts texts_of trace_disposition find_trace
    quoted_span quoted_trace quoted_command quoted_commands quoted_of remove_evidence same_bag
    same_ids kind_has_traces is_disposition validate_pattern_attestation is_within take drop
accepts = refl

validate_maintainer_change-IsAccepted_example :
    IsAccepted loads payload (failed ∷ []) [] change.pages
validate_maintainer_change-IsAccepted_example =
    validate_maintainer_change-IsAccepted loads payload (failed ∷ []) "h" [] change accepts
