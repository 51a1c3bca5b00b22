-- ===== src/Gate2.antt =====
-- The second gate of src/asme/gate2.py: the comparator of two reports under a policy. The hash of a
-- policy's canonical JSON is a parameter.
pub mod Laws
mod Tests
use agentic_skills_lifecycle.Prelude.{
  ℕ, String, str_eq, Bool, true, false, not, ◌&&◌, ◌||◌, Option, none, some, List, [], ◌∷◌, ◌++◌,
  Result, ok, err, ◌>>=◌, ◌>>◌, raise_if, codes, codes_eq, split_on, is_blank, any, is_unique,
  if◌then◌else◌,
}
use agentic_skills_lifecycle.Json.{Json, text, object, Fields, no_fields, field, json_eq}

pub record ComparatorPolicy : Type 0 where
  pub deterministic_paths : List String
  pub report_only_paths : List String
  pub version : String

abbrev pub has_paths : List String → Bool
has_paths [] = false
has_paths (p ∷ ps) = true

-- `ComparatorPolicy.__post_init__`
unfoldable pub checked_policy : ComparatorPolicy → Result String ComparatorPolicy
checked_policy p = do
  raise_if (not (has_paths p.deterministic_paths)) "Gate 2 requires deterministic binding fields"
  raise_if
      (not (is_unique (p.deterministic_paths ++ p.report_only_paths))
        || any is_blank (p.deterministic_paths ++ p.report_only_paths))
      "Gate 2 policy paths must be nonblank and unique"
  ok p

-- `DEFAULT_GATE2_POLICY`
abbrev pub default_policy : ComparatorPolicy
default_policy = record {
  deterministic_paths =
      "archive.tree_sha256" ∷ "domain.seal" ∷ "ledger.consistent" ∷ "manifest.complete"
      ∷ "manifest.valid" ∷ "package.staged_tree_sha256" ∷ "state.phase" ∷ [];
  report_only_paths =
      "outcomes.impact_sequence" ∷ "outcomes.scores" ∷ "outcomes.snapshot_empty" ∷ [];
  version = "asme.gate2-policy.v1";
}

pub record FieldDifference : Type 0 where
  pub path : String
  pub expected : Json
  pub actual : Json
  pub verdict : String

pub record Gate2Result : Type 0 where
  pub passed : Bool
  pub policy_hash : String
  pub failures : List FieldDifference
  pub reported_differences : List FieldDifference

-- `current[part]` where the part is a text's code points.
unfoldable pub get_part : List ℕ → Fields → Option Json
get_part k no_fields = none
get_part k (field j v m) = if codes_eq (codes j) k then some v else get_part k m

abbrev pub step_into : List ℕ → Json → Option Json
step_into part (object m) = get_part part m
step_into part _ = none

-- The loop of `_read_path` over the parts of a path.
unfoldable pub read_parts : Json → List (List ℕ) → Option Json
unfolding get_part
read_parts current [] = some current
read_parts current (part ∷ parts) = elim (step_into part current) [
  | none ↦ none
  | some next ↦ read_parts next parts
]

-- `_read_path(value, path, missing)`; `none` is the missing object.
unfoldable pub read_path : Json → String → Option Json
unfolding read_parts
read_path value path = read_parts value (split_on b'.' (codes path))

abbrev pub shown : Option Json → Json
shown none = text "<missing>"
shown (some v) = v

-- `left is not missing and right is not missing and left == right`
abbrev pub values_agree : Option Json → Option Json → Bool
values_agree none w = false
values_agree (some v) none = false
values_agree (some v) (some w) = json_eq v w

-- The differences at the given paths.
unfoldable pub differences : Json → Json → String → List String → List FieldDifference
unfolding read_path
differences expected actual verdict [] = []
differences expected actual verdict (path ∷ paths) =
    let left = read_path expected path in
    let right = read_path actual path in
    let rest = differences expected actual verdict paths in
    if values_agree left right
    then rest
    else record { path = path; expected = shown left; actual = shown right; verdict = verdict }
      ∷ rest

abbrev pub has_failure : List FieldDifference → Bool
has_failure [] = false
has_failure (d ∷ ds) = true

-- `expected_policy_hash is not None and expected_policy_hash != policy.digest`
abbrev pub is_changed : Option String → String → Bool
is_changed none digest = false
is_changed (some h) digest = not (str_eq h digest)

-- `compare_gate2`
unfoldable pub compare_gate2 :
    (ComparatorPolicy → String)
    → Json
    → Json
    → ComparatorPolicy
    → Option String
    → Result String Gate2Result
unfolding differences
compare_gate2 digest expected actual policy expected_hash =
    let failures = differences expected actual "fail" policy.deterministic_paths in
    if is_changed expected_hash (digest policy)
    then err "Gate 2 comparator policy hash changed"
    else ok (record {
      passed = not (has_failure failures);
      policy_hash = digest policy;
      failures = failures;
      reported_differences = differences expected actual "report_only" policy.report_only_paths;
    })
