-- ===== src/Claims.antt =====
-- The claims policy of src/asme/claims.py: which evidence allows a local acceptance or a claim that
-- is comparable with the paper.
pub mod Laws
mod Tests
use agentic_skills_lifecycle.Prelude.{
  ℕ, String, str_eq, Bool, true, false, not, ◌&&◌, ◌||◌, Option, none, some, List, [], ◌∷◌, ◌++◌,
  map, Result, ok, err, ◌>>=◌, ◌>>◌, raise_if, is_blank, str_len, ltb, leb, ◌==◌, length, any,
  select, is_unique, str_sort, if◌then◌else◌,
}
use agentic_skills_lifecycle.Float.{Float, float_ltb, in_unit}
use agentic_skills_lifecycle.Contract.{TraceFidelity}

pub data ClaimClass : Type 0 where
  local_acceptance paper_comparable_public : ClaimClass

pub record RunEvidence : Type 0 where
  pub run_id : String
  pub baseline_score : Float
  pub validation_score : Float
  pub confirmation_score : Float
  pub complete : Bool
  pub trace_fidelity : TraceFidelity
  pub isolation_label : String

-- `RunEvidence.__post_init__`
unfoldable pub checked_run : RunEvidence → Result String RunEvidence
checked_run r = do
  raise_if (is_blank r.run_id) "run_id cannot be blank"
  raise_if (not (in_unit r.baseline_score)) "baseline score must be within [0,1]"
  raise_if (not (in_unit r.validation_score)) "validation score must be within [0,1]"
  raise_if (not (in_unit r.confirmation_score)) "confirmation score must be within [0,1]"
  ok r

-- `RunEvidence.strict_local_win`
unfoldable pub strict_local_win : RunEvidence → Bool
strict_local_win r =
    r.complete
    && float_ltb r.baseline_score r.validation_score
    && float_ltb r.baseline_score r.confirmation_score

pub record BootstrapEvidence : Type 0 where
  pub run_ids : List String
  pub paired : Bool
  pub complete : Bool
  pub method : String
  pub artifact_hash : String

-- `BootstrapEvidence.__post_init__`
unfoldable pub checked_bootstrap : BootstrapEvidence → Result String BootstrapEvidence
checked_bootstrap b = do
  raise_if (not (str_len b.artifact_hash == 64)) "bootstrap evidence requires an artifact SHA-256"
  raise_if (not (is_unique b.run_ids)) "bootstrap run IDs must be unique"
  ok b

pub record ClaimDecision : Type 0 where
  pub claim_class : ClaimClass
  pub allowed : Bool
  pub label : String
  pub reasons : List String
  pub disclaimer : Option String

abbrev local_only : String
local_only =
    "Local evaluation only. This result is not paper-comparable because the required three complete runs and paired-bootstrap evidence were not fully satisfied."

-- `reasons.append(reason)` under a condition.
abbrev pub reason_if : Bool → String → List String
reason_if true reason = reason ∷ []
reason_if false reason = []

abbrev pub is_empty : List String → Bool
is_empty [] = true
is_empty (r ∷ rs) = false

-- `left == right` on tuples of texts.
unfoldable pub texts_eq : List String → List String → Bool
texts_eq [] [] = true
texts_eq (x ∷ xs) (y ∷ ys) = str_eq x y && texts_eq xs ys
texts_eq _ _ = false

unfoldable pub evaluate_local : List RunEvidence → ClaimDecision
unfolding strict_local_win
evaluate_local (run ∷ []) =
    let reasons =
      reason_if (not (strict_local_win run)) "strict_validation_and_confirmation_win_missing" in
    record {
      claim_class = local_acceptance;
      allowed = is_empty reasons;
      label = if is_empty reasons then "local_acceptance" else "not_accepted";
      reasons = reasons;
      disclaimer = none;
    }
evaluate_local _ = record {
  claim_class = local_acceptance;
  allowed = false;
  label = "not_accepted";
  reasons = "exactly_one_local_run_required" ∷ [];
  disclaimer = none;
}

unfoldable pub complete_runs : List RunEvidence → List RunEvidence
complete_runs runs = select (λ r. r.complete) runs

abbrev pub ids : List RunEvidence → List String
ids runs = map (λ r. r.run_id) runs

-- The reasons that concern the bootstrap.
unfoldable pub bootstrap_reasons : List String → Option BootstrapEvidence → List String
unfolding texts_eq
bootstrap_reasons expected none = "paired_bootstrap_evidence_missing" ∷ []
bootstrap_reasons expected (some b) =
    reason_if (not b.paired || not b.complete) "paired_bootstrap_incomplete"
    ++ reason_if (not (texts_eq (str_sort b.run_ids) expected)) "bootstrap_run_binding_mismatch"

unfoldable pub public_reasons : List RunEvidence → Option BootstrapEvidence → List String
unfolding strict_local_win bootstrap_reasons
public_reasons complete b =
    reason_if (ltb (length complete) 3) "three_complete_runs_required"
    ++ reason_if (not (is_unique (ids complete))) "run_ids_not_unique"
    ++ reason_if (any (λ r. not (strict_local_win r)) complete)
        "one_or_more_runs_lack_strict_confirmed_improvement"
    ++ bootstrap_reasons (str_sort (ids complete)) b

-- `evaluate_claim`
unfoldable pub evaluate_claim :
    ClaimClass → List RunEvidence → Option BootstrapEvidence → ClaimDecision
unfolding evaluate_local complete_runs public_reasons
evaluate_claim local_acceptance runs b = evaluate_local runs
evaluate_claim paper_comparable_public runs b =
    let reasons = public_reasons (complete_runs runs) b in
    record {
      claim_class = paper_comparable_public;
      allowed = is_empty reasons;
      label = if is_empty reasons then "paper_comparable" else "non_comparable_local_evidence";
      reasons = reasons;
      disclaimer = if is_empty reasons then none else some local_only;
    }
