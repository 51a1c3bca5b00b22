-- ===== src/Capability/Tests.antt =====
-- The conservative report of a runtime, and the theorems of Capability/ there.
use agentic_skills_lifecycle.Prelude.{
  ◌≡◌, refl, true, false, [], ◌∷◌, ok, is_ok, str_mem, str_sort, str_insert, str_distinct, str_leb,
  codes_leb,
}
use agentic_skills_lifecycle.Canonical.{
  require_identifier, matches_identifier, is_alphanumeric, is_identifier_char,
}
use agentic_skills_lifecycle.Capability.{
  CapabilityReport, Observation, fidelity_value, is_isolated, claims_only, checked_report,
  fidelity_of, conservative_report, conservative,
}
use agentic_skills_lifecycle.Capability.Laws.{
  IsTruthful, checked_report-IsTruthful, conservative-checked,
}

abbrev seen : Observation
seen = record {
  runtime_id = "runtime";
  runtime_version = "1";
  adapter_version = "1";
  provider = "local";
  model_id = "m";
  openai_backed = false;
  captured_events = "final_answer" ∷ "final_answer" ∷ [];
  evidence = [];
  observed_at = "now";
}

abbrev pub report : CapabilityReport
report = conservative_report seen

is_runtime : is_ok (require_identifier seen.runtime_id "runtime_id") ≡ true
unfolding require_identifier matches_identifier is_alphanumeric is_identifier_char
is_runtime = refl

passes : checked_report report ≡ ok report
unfolding checked_report require_identifier matches_identifier is_alphanumeric is_identifier_char
    is_isolated claims_only fidelity_value fidelity_of conservative_report str_sort str_insert
    str_distinct str_leb codes_leb
passes = refl

checked_report-IsTruthful_example : (report ≡ report) × IsTruthful report
checked_report-IsTruthful_example = checked_report-IsTruthful report report passes

conservative-checked_example :
    (conservative seen ≡ ok report)
    × (str_mem "unseen" report.claims_allowed ≡ false)
    × (str_mem "sandboxed" report.claims_allowed ≡ false)
conservative-checked_example = conservative-checked seen is_runtime
