-- ===== src/Lifecycle/Branches/Gate.antt =====
-- `transition` of src/asme/lifecycle.py: `gate`, with its four outcomes, and `abandon`.
use agentic_skills_lifecycle.Prelude.{
  String, Bool, not, ◌||◌, ◌&&◌, Option, none, some, ok, err, ◌>>=◌, ◌>>◌, raise_if, opt_is,
  present, is_some, if◌then◌else◌,
}
use agentic_skills_lifecycle.Float.{Float, float_ltb, float_min}
use agentic_skills_lifecycle.Contract.{needs_val_confirm}
use agentic_skills_lifecycle.Lifecycle.State.{
  DomainState, TransitionInput, Supplied, number, Step, move, Checked,
}
use agentic_skills_lifecycle.Lifecycle.Manifests.{
  advance_iteration, require_score, consume_manifest,
}
use agentic_skills_lifecycle.Lifecycle.Branches.Training.{owned_manifest}

-- A score of the state, as `_require_score` takes it.
abbrev pub stored : Option Float → Option Supplied
stored none = none
stored (some a) = some (number a)

-- A strict win in validation, where no confirmation is required.
unfoldable pub gate_accept : DomainState → Float → Checked Step
gate_accept c candidate = do
  raise_if (not (opt_is c.current_manifest_phase "val"))
      "validation gate requires an unconsumed val manifest"
  h ← owned_manifest c.current_manifest_hash "validation gate requires an unconsumed val manifest"
  raise_if (not (present c.candidate_snapshot_hash)) "accepted candidate has no snapshot hash"
  c' ← consume_manifest c h "gate-validation"
  ok (
      move (
        advance_iteration (record c' {
          best_score = some candidate;
          active_snapshot_hash = c.candidate_snapshot_hash;
        })))

-- A strict win in validation that has to be confirmed.
unfoldable pub gate_provisional : DomainState → Checked Step
gate_provisional c = do
  raise_if (not (opt_is c.current_manifest_phase "val"))
      "validation gate requires an unconsumed val manifest"
  h ← owned_manifest c.current_manifest_hash "validation gate requires an unconsumed val manifest"
  c' ←
      consume_manifest
        (record c {
          state = needs_val_confirm;
          provisional_manifest_hash = some h;
          current_manifest_hash = none;
          current_manifest_phase = none;
        })
        h "gate-validation"
  ok (move c')

-- A strict win in confirmation: the new best score is the smaller of the two.
unfoldable pub gate_confirm : DomainState → Float → Checked Step
gate_confirm c candidate = do
  raise_if (not (present c.candidate_snapshot_hash)) "accepted candidate has no snapshot hash"
  raise_if
      (not (is_some c.provisional_manifest_hash)
        || not (is_some c.provisional_score)
        || not (opt_is c.current_manifest_phase "val_confirm"))
      "confirmation gate requires both validation manifests"
  h ← owned_manifest c.current_manifest_hash "confirmation gate requires both validation manifests"
  c' ← consume_manifest c h "gate-confirmation"
  provisional ← require_score (stored c.provisional_score)
  ok (
      move (
        advance_iteration (record c' {
          best_score = some (float_min provisional candidate);
          active_snapshot_hash = c.candidate_snapshot_hash;
        })))

unfoldable pub is_validation_phase : Option String → Bool
is_validation_phase p = opt_is p "val" || opt_is p "val_confirm"

-- The `else` branch: no strict win.
unfoldable pub gate_reject : DomainState → Checked Step
unfolding is_validation_phase
gate_reject c = do
  h ←
      owned_manifest c.current_manifest_hash
        "rejection gate requires an unconsumed validation manifest"
  raise_if (not (is_validation_phase c.current_manifest_phase))
      "rejection gate requires an unconsumed validation manifest"
  c' ← consume_manifest c h (
      if opt_is c.gate_phase "validation"
      then "gate-validation-reject"
      else "gate-confirmation-reject")
  ok (move (advance_iteration c'))

abbrev established : Option Float → Checked Float
established none = err "gate requires an established best score"
established (some a) = ok a

-- The score that the gate judges.
unfoldable pub gate_score : DomainState → Checked Float
gate_score c = require_score (
    stored
      (if opt_is c.gate_phase "confirmation" then c.confirmation_score else c.provisional_score))

-- The four outcomes, by the phase and by whether the candidate beats the best score.
unfoldable pub gate_outcome : DomainState → Float → Float → Checked Step
gate_outcome c candidate best =
    let win = float_ltb best candidate in
    if opt_is c.gate_phase "validation" && win && not c.confirmation_required
    then gate_accept c candidate
    else if opt_is c.gate_phase "validation" && win
    then gate_provisional c
    else if opt_is c.gate_phase "confirmation" && win
    then gate_confirm c candidate
    else gate_reject c

unfoldable pub on_gate : DomainState → TransitionInput → Checked Step
on_gate c s = do
  candidate ← gate_score c
  best ← established c.best_score
  gate_outcome c candidate best

-- The manifest that an abandoned candidate owns, if any, is consumed.
unfoldable pub abandon_owned : DomainState → Option String → Checked DomainState
unfolding is_validation_phase
abandon_owned c none = ok c
abandon_owned c (some h) = do
  raise_if (not (is_validation_phase c.current_manifest_phase))
      "abandon found an unexpected owned manifest"
  consume_manifest c h "abandon"

unfoldable pub on_abandon : DomainState → TransitionInput → Checked Step
unfolding abandon_owned
on_abandon c s = do
  raise_if (not (present c.candidate_snapshot_hash)) "abandon requires a candidate snapshot"
  c' ← abandon_owned c c.current_manifest_hash
  ok (move (advance_iteration c'))
