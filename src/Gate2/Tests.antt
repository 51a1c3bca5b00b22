-- ===== src/Gate2/Tests.antt =====
-- The second gate on two small reports.
use agentic_skills_lifecycle.Prelude.{ℕ, ◌≡◌, ◌↔◌, refl, true, false, none, [], ◌∷◌, ok, split_on}
use agentic_skills_lifecycle.Json.{
  Json, natural, text, object, no_fields, field, json_eq, is_natural, get_field,
}
use agentic_skills_lifecycle.Gate2.{
  ComparatorPolicy, Gate2Result, has_failure, compare_gate2, differences, read_path, read_parts,
  get_part,
}
use agentic_skills_lifecycle.Gate2.Laws.{AllAgree, compare_gate2-AllAgree}

abbrev phase_policy : ComparatorPolicy
phase_policy = record {
  deterministic_paths = "state.phase" ∷ [];
  report_only_paths = "scores" ∷ [];
  version = "asme.gate2-policy.v1";
}

abbrev report_of : ℕ → Json
report_of n = object (
    field "state" (object (field "phase" (text "done") no_fields))
      (field "scores" (natural n) no_fields))

abbrev compared : Gate2Result
compared = record {
  passed = true;
  policy_hash = "p";
  failures = [];
  reported_differences =
      record { path = "scores"; expected = natural 1; actual = natural 2; verdict = "report_only" }
      ∷ [];
}

compares : compare_gate2 (λ p. "p") (report_of 1) (report_of 2) phase_policy none ≡ ok compared
unfolding compare_gate2 differences read_path read_parts get_part split_on json_eq is_natural
    get_field
compares = refl

compare_gate2-AllAgree_example :
    ((true ≡ true) ↔ AllAgree (report_of 1) (report_of 2) phase_policy.deterministic_paths)
    × ((has_failure compared.reported_differences ≡ false)
        ↔ AllAgree (report_of 1) (report_of 2) phase_policy.report_only_paths)
compare_gate2-AllAgree_example =
    compare_gate2-AllAgree (λ p. "p") (report_of 1) (report_of 2) phase_policy none compared
      compares
