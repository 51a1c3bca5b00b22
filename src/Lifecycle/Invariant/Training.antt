-- ===== src/Lifecycle/Invariant/Training.antt =====
-- The invariant is kept by the branches of an iteration (src/asme/lifecycle.py), up to the gate.
use agentic_skills_lifecycle.Prelude.{◌≡◌, true, arith, inl, inr, Option-cases, ◌≢◌}
use agentic_skills_lifecycle.Contract.{
  needs_train_run, needs_wiki, needs_proposal, needs_val_run, needs_gate, needs_val_confirm,
}
use agentic_skills_lifecycle.Lifecycle.State.{DomainState, TransitionInput}
use agentic_skills_lifecycle.Lifecycle.Manifests.{
  advance_iteration, consume_manifest, record_current_manifest, require_manifest_hash,
  require_score,
}
use agentic_skills_lifecycle.Lifecycle.Branches.{
  on_train_ingest, on_apply_wiki, on_apply_proposal_change, on_apply_proposal_no_action,
  on_val_ingest, on_confirm_ingest, on_reset_manifest,
}
use agentic_skills_lifecycle.Lifecycle.Invariant.Defs.{IsWellFormed, is_iterating}
use agentic_skills_lifecycle.Lifecycle.Outcomes.{Keeps}
use agentic_skills_lifecycle.Lifecycle.Consumption.{is_distinct-append}

-- An iteration ends in a well-formed state, whatever became of its candidate.
pub advance_iteration-IsWellFormed :
    (c : DomainState)
    → IsWellFormed c
    → is_iterating c.state ≡ true
    → IsWellFormed (advance_iteration c)
unfolding advance_iteration
advance_iteration-IsWellFormed c w running = ground arith

module _ (c : DomainState) (s : TransitionInput) (w : IsWellFormed c) where
  pub on_train_ingest-IsWellFormed :
      c.state ≡ needs_train_run → Keeps IsWellFormed (on_train_ingest c s)
  unfolding on_train_ingest record_current_manifest require_manifest_hash
  on_train_ingest-IsWellFormed q = ground arith

  pub on_apply_wiki-IsWellFormed : c.state ≡ needs_wiki → Keeps IsWellFormed (on_apply_wiki c s)
  unfolding on_apply_wiki consume_manifest
  on_apply_wiki-IsWellFormed q = elim (Option-cases c.current_manifest_hash) [
    | inl e ↦ ground arith
    | inr (h, e) ↦ ground (
      arith,
      is_distinct-append c.consumed_manifests (record { manifest_hash = h; by = "apply-wiki" }),
    )
  ]

  pub on_apply_proposal_change-IsWellFormed :
      c.state ≡ needs_proposal → Keeps IsWellFormed (on_apply_proposal_change c s)
  unfolding on_apply_proposal_change
  on_apply_proposal_change-IsWellFormed q = ground arith

  pub on_apply_proposal_no_action-IsWellFormed :
      c.state ≡ needs_proposal → Keeps IsWellFormed (on_apply_proposal_no_action c s)
  unfolding on_apply_proposal_no_action
  on_apply_proposal_no_action-IsWellFormed q = ground (arith, advance_iteration-IsWellFormed c)

  pub on_val_ingest-IsWellFormed : c.state ≡ needs_val_run → Keeps IsWellFormed (on_val_ingest c s)
  unfolding on_val_ingest record_current_manifest require_manifest_hash require_score
  on_val_ingest-IsWellFormed q = ground arith

  pub on_confirm_ingest-IsWellFormed :
      c.state ≡ needs_val_confirm → Keeps IsWellFormed (on_confirm_ingest c s)
  unfolding on_confirm_ingest record_current_manifest require_manifest_hash require_score
  on_confirm_ingest-IsWellFormed q = ground arith

  pub on_reset_manifest-IsWellFormed :
      c.state ≢ needs_gate → Keeps IsWellFormed (on_reset_manifest c s)
  unfolding on_reset_manifest
  on_reset_manifest-IsWellFormed q = ground arith
