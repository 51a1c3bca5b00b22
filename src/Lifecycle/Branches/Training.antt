-- ===== src/Lifecycle/Branches/Training.antt =====
-- `transition` of src/asme/lifecycle.py: `train-ingest`, `apply-wiki`, the two proposal decisions,
-- `val-ingest` and `confirm-ingest`.
use agentic_skills_lifecycle.Prelude.{
  String, not, Option, none, some, ok, err, ◌>>=◌, ◌>>◌, raise_if, opt_is, present, if◌then◌else◌,
}
use agentic_skills_lifecycle.Contract.{needs_wiki, needs_proposal, needs_val_run, needs_gate}
use agentic_skills_lifecycle.Lifecycle.State.{
  DomainState, TransitionInput, Step, stay, move, Checked,
}
use agentic_skills_lifecycle.Lifecycle.Manifests.{
  advance_iteration, require_score, consume_manifest, record_current_manifest,
}
use agentic_skills_lifecycle.Lifecycle.Branches.Setup.{is_true}

ingest_train : DomainState → TransitionInput → Checked Step
ingest_train c s = do
  c' ← record_current_manifest c s "train"
  ok (move (record c' { state = needs_wiki }))

unfoldable pub on_train_ingest : DomainState → TransitionInput → Checked Step
unfolding ingest_train
on_train_ingest c s = if is_true s.valid then ingest_train c s else ok stay

-- The manifest hash that the branch has checked to be there.
abbrev pub owned_manifest : Option String → String → Checked String
owned_manifest none message = err message
owned_manifest (some h) message = ok h

unfoldable pub on_apply_wiki : DomainState → TransitionInput → Checked Step
on_apply_wiki c s = do
  raise_if (not (opt_is c.current_manifest_phase "train"))
      "apply-wiki requires an unconsumed train manifest"
  h ← owned_manifest c.current_manifest_hash "apply-wiki requires an unconsumed train manifest"
  c' ←
      consume_manifest
        (record c {
          state = needs_proposal;
          current_manifest_hash = none;
          current_manifest_phase = none;
        })
        h "apply-wiki"
  ok (move c')

unfoldable pub on_apply_proposal_change : DomainState → TransitionInput → Checked Step
on_apply_proposal_change c s = do
  raise_if (not (present s.snapshot_hash)) "a changed proposal requires a candidate snapshot hash"
  ok (move (record c { candidate_snapshot_hash = s.snapshot_hash; state = needs_val_run }))

unfoldable pub on_apply_proposal_no_action : DomainState → TransitionInput → Checked Step
on_apply_proposal_no_action c s = ok (move (advance_iteration c))

ingest_val : DomainState → TransitionInput → Checked Step
ingest_val c s = do
  c' ← record_current_manifest c s "val"
  score ← require_score s.score
  ok (
      move (record c' {
        provisional_score = some score;
        gate_phase = some "validation";
        state = needs_gate;
      }))

unfoldable pub on_val_ingest : DomainState → TransitionInput → Checked Step
unfolding ingest_val
on_val_ingest c s = if is_true s.valid then ingest_val c s else ok stay

ingest_confirm : DomainState → TransitionInput → Checked Step
ingest_confirm c s = do
  c' ← record_current_manifest c s "val_confirm"
  score ← require_score s.score
  ok (
      move (record c' {
        confirmation_score = some score;
        gate_phase = some "confirmation";
        state = needs_gate;
      }))

unfoldable pub on_confirm_ingest : DomainState → TransitionInput → Checked Step
unfolding ingest_confirm
on_confirm_ingest c s = if is_true s.valid then ingest_confirm c s else ok stay
