-- ===== src/Claims/Tests.antt =====
-- The claims policy at concrete evidence.
use agentic_skills_lifecycle.Prelude.{◌≡◌, ◌↔◌, refl, true, false, none, [], ◌∷◌}
use agentic_skills_lifecycle.Float.{nonneg, float_ltb}
use agentic_skills_lifecycle.Contract.{observable_transcript}
use agentic_skills_lifecycle.Claims.{
  local_acceptance, paper_comparable_public, RunEvidence, strict_local_win, evaluate_local,
  complete_runs, bootstrap_reasons, public_reasons, evaluate_claim,
}
use agentic_skills_lifecycle.Claims.Laws.{IsSupported, evaluate_claim-IsSupported}

abbrev run_one : RunEvidence
run_one = record {
  run_id = "one";
  baseline_score = nonneg 0x3FE0000000000000;
  validation_score = nonneg 0x3FE8000000000000;
  confirmation_score = nonneg 0x3FE8000000000000;
  complete = true;
  trace_fidelity = observable_transcript;
  isolation_label = "process";
}

-- One run is enough for a local acceptance, and not for a comparison.
local_run : (evaluate_claim local_acceptance (run_one ∷ []) none).allowed ≡ true
unfolding evaluate_claim evaluate_local strict_local_win float_ltb
local_run = refl

public_run : (evaluate_claim paper_comparable_public (run_one ∷ []) none).allowed ≡ false
unfolding evaluate_claim public_reasons complete_runs bootstrap_reasons strict_local_win float_ltb
public_run = refl

evaluate_claim-IsSupported_example :
    ((evaluate_claim local_acceptance (run_one ∷ []) none).allowed ≡ true)
    ↔ IsSupported local_acceptance (run_one ∷ []) none
evaluate_claim-IsSupported_example = evaluate_claim-IsSupported local_acceptance (run_one ∷ []) none
