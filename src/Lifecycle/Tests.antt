-- ===== src/Lifecycle/Tests.antt =====
-- Runs of the lifecycle on concrete inputs, and the theorems of Lifecycle/ at such inputs.
use agentic_skills_lifecycle.Prelude.{
  ℕ, ◌+◌, ◌++◌, ◌≤◌, ◌≡◌, refl, String, str_eq, true, Option, none, some, List, [], ◌∷◌, ok, err,
  ◌>>=◌, arith, length, if◌then◌else◌, str_len, from_hex,
}
use agentic_skills_lifecycle.Float.{Float, nonneg, float_ltb, float_min, float_eqb, in_unit}
use agentic_skills_lifecycle.Contract.{
  done, needs_train_run, needs_gate, validated, untested, uninitialized, needs_optional_seed,
}
use agentic_skills_lifecycle.Lifecycle.State.{
  DomainState, TransitionInput, number, no_input, new_domain, Checked, train_ingest, init, abandon,
  export, parse_operation,
}
use agentic_skills_lifecycle.Lifecycle.Transition.{
  transition, apply_operation, is_enabled, branch, finish,
}
use agentic_skills_lifecycle.Lifecycle.Branches.{
  on_export, export_first, phase_manifest, on_init, on_skip_seed, on_baseline_finalize,
  on_train_ingest, on_apply_wiki, on_apply_proposal_change, on_val_ingest, on_confirm_ingest,
  on_gate, on_abandon, gate_score, gate_outcome, gate_provisional, gate_confirm, abandon_owned,
  has_phase, baseline_state, is_both_phases,
}
use agentic_skills_lifecycle.Lifecycle.Manifests.{
  advance_iteration, require_score, require_manifest_hash, is_manifest_hash, is_consumed,
  consume_manifest, record_current_manifest, is_perfect,
}
use agentic_skills_lifecycle.Lifecycle.Invariant.{IsWellFormed, is_iterating}
use agentic_skills_lifecycle.Lifecycle.Invariant.Transition.{transition-IsWellFormed}
use agentic_skills_lifecycle.Lifecycle.Outcomes.{Returns, Succeeds}
use agentic_skills_lifecycle.Lifecycle.Reach.{Reach, here, next, reachable-IsWellFormed}
use agentic_skills_lifecycle.Lifecycle.Promotion.{MayPromote, transition-MayPromote}
use agentic_skills_lifecycle.Lifecycle.Verdict.{
  Carries, verdict, reject, gate-Carries, abandon-Carries,
}
use agentic_skills_lifecycle.Lifecycle.Scored.{IsScored}
use agentic_skills_lifecycle.Lifecycle.BestScore.{is_at_most, Reach-best_score}
use agentic_skills_lifecycle.Lifecycle.History.{IsAccounted, Reach-IsAccounted}
use agentic_skills_lifecycle.Lifecycle.Continuity.{
  IsContinued, transition-IsContinued, Reach-no_second_ingest,
}
use agentic_skills_lifecycle.Lifecycle.Budget.{endings, Reach-endings}
use agentic_skills_lifecycle.Lifecycle.Routes.Defs.{IsLatched}
use agentic_skills_lifecycle.Lifecycle.Routes.Delivery.{
  reachable-IsLatched, Reach-route, export-export,
}

-- 0.5 and 0.75
abbrev half : Float
half = nonneg 0x3FE0000000000000

abbrev three_quarters : Float
three_quarters = nonneg 0x3FE8000000000000

abbrev hash_a : String
hash_a = "aaaaaaaaaaaaaaaaaaaaaaaaaaaaaaaaaaaaaaaaaaaaaaaaaaaaaaaaaaaaaaaa"

abbrev hash_b : String
hash_b = "bbbbbbbbbbbbbbbbbbbbbbbbbbbbbbbbbbbbbbbbbbbbbbbbbbbbbbbbbbbbbbbb"

abbrev hash_c : String
hash_c = "cccccccccccccccccccccccccccccccccccccccccccccccccccccccccccccccc"

abbrev hash_d : String
hash_d = "dddddddddddddddddddddddddddddddddddddddddddddddddddddddddddddddd"

abbrev ingest : String → String → Float → TransitionInput
ingest phase hash score = record no_input {
  valid = some true;
  score = some (number score);
  snapshot_hash = some "snapshot";
  phase = some phase;
  manifest_hash = some hash;
}

abbrev fresh_domain : DomainState
fresh_domain = new_domain "demo" "seal" 2 true

abbrev Calls : Type 0
Calls = List (String × TransitionInput)

run : Calls → DomainState → Checked DomainState
run [] c = ok c
run ((name, s) ∷ calls) c = transition c name s >>= run calls

abbrev one_iteration : Calls
one_iteration =
    ("init", no_input)
    ∷ ("skip-seed", no_input)
    ∷ ("baseline-finalize", ingest "baseline" hash_a half)
    ∷ ("train-ingest", ingest "train" hash_b half)
    ∷ ("apply-wiki", no_input)
    ∷ ("apply-proposal-change", ingest "" "" half)
    ∷ ("val-ingest", ingest "val" hash_c three_quarters)
    ∷ ("gate", no_input)
    ∷ ("confirm-ingest", ingest "val_confirm" hash_d three_quarters)
    ∷ ("gate", no_input)
    ∷ []

abbrev facts : Checked DomainState → Option Float × ℕ × ℕ
facts (ok c) = (c.best_score, c.iteration, c.revision)
facts (err e) = (none, 0, 0)

-- A candidate that wins twice is promoted: ten events, and the second iteration begins.
run-one_iteration : facts (run one_iteration fresh_domain) ≡ (some three_quarters, 2, 10)
unfolding run transition apply_operation is_enabled branch finish parse_operation new_domain on_init
    on_skip_seed on_baseline_finalize baseline_state on_train_ingest on_apply_wiki
    on_apply_proposal_change on_val_ingest on_gate on_confirm_ingest gate_score gate_outcome
    gate_provisional gate_confirm record_current_manifest consume_manifest require_score
    require_manifest_hash is_manifest_hash is_consumed advance_iteration is_perfect float_min
    float_ltb float_eqb in_unit str_len from_hex
run-one_iteration = refl

-- A domain whose candidate waits for the gate, with a validation score of 0.75 against 0.5.
abbrev judged : DomainState
judged = record fresh_domain {
  state = needs_gate;
  iteration = 1;
  best_score = some half;
  active_snapshot_hash = some "old";
  candidate_snapshot_hash = some "new";
  provisional_score = some three_quarters;
  gate_phase = some "validation";
  current_manifest_hash = some hash_c;
  current_manifest_phase = some "val";
}

judged-IsWellFormed : IsWellFormed judged
unfolding new_domain in_unit is_consumed
judged-IsWellFormed = ground arith

abbrev after_init : DomainState
after_init = record fresh_domain {
  state = needs_optional_seed;
  revision = 1;
  history = record { operation = init; from = uninitialized; to = needs_optional_seed } ∷ [];
}

init-Reach : Reach fresh_domain after_init
unfolding transition apply_operation is_enabled branch finish parse_operation new_domain on_init
init-Reach = next "init" no_input here refl

transition-IsWellFormed_example : Returns IsWellFormed (transition judged "gate" no_input)
transition-IsWellFormed_example = transition-IsWellFormed judged "gate" no_input judged-IsWellFormed

reachable-IsWellFormed_example : IsWellFormed after_init
reachable-IsWellFormed_example =
    reachable-IsWellFormed "demo" "seal" 2 true after_init (omega arith) init-Reach

transition-MayPromote_example : Returns (MayPromote judged) (transition judged "gate" no_input)
transition-MayPromote_example =
    transition-MayPromote judged "gate" no_input judged-IsWellFormed refl

gate-Carries_example :
    Succeeds (Carries judged (verdict judged)) (transition judged "gate" no_input)
gate-Carries_example = gate-Carries judged no_input judged-IsWellFormed refl

abandon-Carries_example : Succeeds (Carries judged reject) (transition judged "abandon" no_input)
abandon-Carries_example = abandon-Carries judged no_input judged-IsWellFormed refl

abbrev abandoned : DomainState
abandoned = record judged {
  state = needs_train_run;
  iteration = 2;
  revision = 1;
  candidate_snapshot_hash = none;
  provisional_score = none;
  gate_phase = none;
  current_manifest_hash = none;
  current_manifest_phase = none;
  consumed_manifests = record { manifest_hash = hash_c; by = "abandon" } ∷ [];
  history = record { operation = abandon; from = needs_gate; to = needs_train_run } ∷ [];
}

abandon-Reach : Reach judged abandoned
unfolding transition apply_operation is_enabled branch finish parse_operation new_domain on_abandon
    abandon_owned consume_manifest is_consumed advance_iteration is_perfect float_eqb
abandon-Reach = next "abandon" no_input here refl

Reach-best_score_example :
    IsScored abandoned × (is_at_most judged.best_score abandoned.best_score ≡ true)
Reach-best_score_example = Reach-best_score judged-IsWellFormed refl abandon-Reach

Reach-IsAccounted_example : IsAccounted after_init
Reach-IsAccounted_example = Reach-IsAccounted "demo" "seal" 2 true init-Reach

transition-IsContinued_example :
    Returns (IsContinued judged hash_c) (transition judged "gate" no_input)
transition-IsContinued_example = transition-IsContinued judged hash_c "gate" no_input

Reach-no_second_ingest_example :
    Returns (λ r. r ≡ abandoned) (transition abandoned "train-ingest" (ingest "train" hash_c half))
unfolding is_consumed parse_operation
Reach-no_second_ingest_example =
    Reach-no_second_ingest {a = abandoned} hash_c "train-ingest" train_ingest
      (ingest "train" hash_c half) refl here refl refl refl

Reach-endings_example :
    (endings after_init.history ≤ after_init.max_iterations)
    × (is_iterating after_init.state ≡ true → endings after_init.history + 1 ≡ after_init.iteration)
Reach-endings_example = Reach-endings "demo" "seal" 2 true (omega arith) init-Reach

reachable-IsLatched_example : IsLatched after_init × (length after_init.delivery_ledger ≤ 1)
reachable-IsLatched_example = reachable-IsLatched "demo" "seal" 2 true init-Reach

abbrev packaged : DomainState
packaged = record fresh_domain {
  state = done;
  route = some untested;
  delivery_ledger =
      record {
        delivery_id = "package";
        route = untested;
        approval = some (record {
          approval_id = "owner";
          approval_hash = hash_a;
          approval_record_hash = hash_b;
        });
      }
      ∷ [];
}

packaged-IsLatched : IsLatched packaged
unfolding new_domain
packaged-IsLatched = ground arith

Reach-route_example : packaged.route ≡ some untested
Reach-route_example = Reach-route untested packaged-IsLatched refl here

abbrev exported : DomainState
exported = record fresh_domain {
  state = done;
  route = some validated;
  validated_step = some "exported";
  prepared_test_phases = "test-baseline" ∷ "test-final" ∷ [];
  test_manifests =
      record { phase = "test-baseline"; manifest_hash = hash_a }
      ∷ record { phase = "test-final"; manifest_hash = hash_b }
      ∷ [];
  consumed_manifests =
      record { manifest_hash = hash_a; by = "export:skill" }
      ∷ record { manifest_hash = hash_b; by = "export:skill" }
      ∷ [];
  delivery_ledger = record { delivery_id = "skill"; route = validated; approval = none } ∷ [];
}

-- The domain before its export, and after it.
abbrev tested : DomainState
tested = record exported {
  validated_step = some "ingested";
  consumed_manifests = [];
  delivery_ledger = [];
}

abbrev first_exported : DomainState
first_exported = record exported {
  revision = exported.revision + 1;
  history = exported.history ++ record { operation = export; from = done; to = done } ∷ [];
}

tested-IsLatched : IsLatched tested
unfolding new_domain is_both_phases has_phase is_consumed
tested-IsLatched = ground arith

abbrev as_skill : TransitionInput
as_skill = record no_input { valid = some true; delivery_id = some "skill" }

first_export : transition tested "export" as_skill ≡ ok first_exported
unfolding new_domain transition apply_operation parse_operation branch on_export export_first
    is_both_phases has_phase phase_manifest consume_manifest is_consumed is_enabled finish
first_export = refl

export-export_example : transition first_exported "export" as_skill ≡ (
    if str_eq "skill" "skill"
    then ok first_exported
    else err "validated export is already latched to another identity")
export-export_example =
    export-export tested first_exported as_skill as_skill "skill" "skill" tested-IsLatched refl
      first_export refl refl refl
