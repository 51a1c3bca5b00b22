-- ===== src/Gate2/Laws.antt =====
-- When the comparator of src/asme/gate2.py lets a report pass.
use agentic_skills_lifecycle.Prelude.{
  ◌≡◌, ◌↔◌, inl, inr, refl, String, true, false, Option, some, List, [], ◌∷◌, ok, arith,
  Option-cases, Bool-cases,
}
use agentic_skills_lifecycle.Json.{Json, json_eq}
use agentic_skills_lifecycle.Gate2.{
  ComparatorPolicy, Gate2Result, read_path, differences, values_agree, has_failure, compare_gate2,
}

-- Both reports have a value at the path, and the two are equal.
pub record DoAgree (expected actual : Json) (path : String) : Type 0 where
  pub left : Json
  pub right : Json
  pub reads_left : read_path expected path ≡ some left
  pub reads_right : read_path actual path ≡ some right
  pub equal : json_eq left right ≡ true

abbrev pub AllAgree : Json → Json → List String → Type 0
AllAgree expected actual [] = Unit {0}
AllAgree expected actual (p ∷ ps) = DoAgree expected actual p × AllAgree expected actual ps

values-DoAgree :
    (expected actual : Json) (path : String)
    → (values_agree (read_path expected path) (read_path actual path) ≡ true)
      ↔ DoAgree expected actual path
values-DoAgree expected actual path =
    (there, λ a. ground (arith, a.reads_left, a.reads_right, a.equal))
  where
    there :
        values_agree (read_path expected path) (read_path actual path) ≡ true
        → DoAgree expected actual path
    there h = elim (Option-cases (read_path expected path)) [
      | inl n ↦ absurd (ground arith)
      | inr (v, e) ↦ elim (Option-cases (read_path actual path)) [
        | inl n ↦ absurd (ground arith)
        | inr (w, f) ↦ record {
          left = v;
          right = w;
          reads_left = e;
          reads_right = f;
          equal = ground arith;
        }
      ]
    ]

differences-AllAgree :
    (expected actual : Json) (verdict : String) (paths : List String)
    → (has_failure (differences expected actual verdict paths) ≡ false)
      ↔ AllAgree expected actual paths
unfolding differences
differences-AllAgree expected actual verdict [] = (λ h. tt, λ h. refl)
differences-AllAgree expected actual verdict (p ∷ ps) =
    let here = values-DoAgree expected actual p in
    let rest = differences-AllAgree expected actual verdict ps in
    elim (Bool-cases (values_agree (read_path expected p) (read_path actual p))) [
      | inl t ↦ (λ h. (here.0 t, rest.0 (ground arith)), λ (a, as'). ground (arith, rest.1 as'))
      | inr f ↦ (λ h. absurd (ground arith), λ (a, as'). absurd (ground (arith, here.1 a)))
    ]

-- A comparison that returns passes exactly when both reports have equal values at every
-- deterministic path, whatever they have at the paths that are only reported, and it reports
-- nothing exactly when they have equal values at every one of those.
pub compare_gate2-AllAgree :
    (digest : ComparatorPolicy → String) (expected actual : Json) (policy : ComparatorPolicy)
    (expected_hash : Option String) (result : Gate2Result)
    → compare_gate2 digest expected actual policy expected_hash ≡ ok result
    → ((result.passed ≡ true) ↔ AllAgree expected actual policy.deterministic_paths)
      × ((has_failure result.reported_differences ≡ false)
          ↔ AllAgree expected actual policy.report_only_paths)
unfolding compare_gate2
compare_gate2-AllAgree digest expected actual policy expected_hash result h =
    let binding = differences-AllAgree expected actual "fail" policy.deterministic_paths in
    let reported = differences-AllAgree expected actual "report_only" policy.report_only_paths in
    (
      (λ p. binding.0 (ground arith), λ a. ground (arith, binding.1 a)),
      (λ p. reported.0 (ground arith), λ a. ground (arith, reported.1 a)),
    )
