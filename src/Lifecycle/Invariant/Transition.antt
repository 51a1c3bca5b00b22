-- ===== src/Lifecycle/Invariant/Transition.antt =====
-- Every transition keeps the invariant, so every state that a domain can reach has it.
use agentic_skills_lifecycle.Prelude.{◌≡◌, String, true, arith}
use agentic_skills_lifecycle.Lifecycle.State.{
  DomainState, TransitionInput, Operation, init, seed_observations, rollback_seed, skip_seed,
  baseline_finalize, train_ingest, apply_wiki, apply_proposal_change, apply_proposal_no_action,
  val_ingest, gate, confirm_ingest, abandon, test_prepare, test_ingest, export, package_untested,
  reset_manifest, recover, status,
}
use agentic_skills_lifecycle.Lifecycle.Transition.{is_enabled, branch, transition}
use agentic_skills_lifecycle.Lifecycle.Invariant.Setup.{
  on_init-IsWellFormed, on_seed_observations-IsWellFormed, on_skip_seed-IsWellFormed,
  on_rollback_seed-IsWellFormed, on_baseline_finalize-IsWellFormed,
}
use agentic_skills_lifecycle.Lifecycle.Invariant.Training.{
  on_train_ingest-IsWellFormed, on_apply_wiki-IsWellFormed, on_apply_proposal_change-IsWellFormed,
  on_apply_proposal_no_action-IsWellFormed, on_val_ingest-IsWellFormed,
  on_confirm_ingest-IsWellFormed, on_reset_manifest-IsWellFormed,
}
use agentic_skills_lifecycle.Lifecycle.Invariant.Gate.{
  on_gate-IsWellFormed, on_abandon-IsWellFormed,
}
use agentic_skills_lifecycle.Lifecycle.Invariant.Delivery.{
  on_test_prepare-IsWellFormed, on_test_ingest-IsWellFormed, on_export-IsWellFormed,
  on_package_untested-IsWellFormed,
}
use agentic_skills_lifecycle.Lifecycle.Invariant.Defs.{IsWellFormed}
use agentic_skills_lifecycle.Lifecycle.Outcomes.{Keeps, Returns, transition-Returns}

branch-IsWellFormed :
    (o : Operation) (c : DomainState) (s : TransitionInput)
    → IsWellFormed c
    → is_enabled o c.state ≡ true
    → Keeps IsWellFormed (branch o c s)
unfolding branch is_enabled
branch-IsWellFormed init c s w e = ground (arith, on_init-IsWellFormed c s w)
branch-IsWellFormed seed_observations c s w e =
    ground (arith, on_seed_observations-IsWellFormed c s w)
branch-IsWellFormed rollback_seed c s w e = ground (arith, on_rollback_seed-IsWellFormed c s w)
branch-IsWellFormed skip_seed c s w e = ground (arith, on_skip_seed-IsWellFormed c s w)
branch-IsWellFormed baseline_finalize c s w e =
    ground (arith, on_baseline_finalize-IsWellFormed c s w)
branch-IsWellFormed train_ingest c s w e = ground (arith, on_train_ingest-IsWellFormed c s w)
branch-IsWellFormed apply_wiki c s w e = ground (arith, on_apply_wiki-IsWellFormed c s w)
branch-IsWellFormed apply_proposal_change c s w e =
    ground (arith, on_apply_proposal_change-IsWellFormed c s w)
branch-IsWellFormed apply_proposal_no_action c s w e =
    ground (arith, on_apply_proposal_no_action-IsWellFormed c s w)
branch-IsWellFormed val_ingest c s w e = ground (arith, on_val_ingest-IsWellFormed c s w)
branch-IsWellFormed gate c s w e = on_gate-IsWellFormed c w (ground arith) s
branch-IsWellFormed confirm_ingest c s w e = ground (arith, on_confirm_ingest-IsWellFormed c s w)
branch-IsWellFormed abandon c s w e = on_abandon-IsWellFormed c s w (ground arith)
branch-IsWellFormed test_prepare c s w e = on_test_prepare-IsWellFormed c s w (ground arith)
branch-IsWellFormed test_ingest c s w e = on_test_ingest-IsWellFormed c s w (ground arith)
branch-IsWellFormed export c s w e = on_export-IsWellFormed c s w (ground arith)
branch-IsWellFormed package_untested c s w e = on_package_untested-IsWellFormed c s w (ground arith)
branch-IsWellFormed reset_manifest c s w e = on_reset_manifest-IsWellFormed c s w (ground arith)
branch-IsWellFormed recover c s w e = ground arith
branch-IsWellFormed status c s w e = tt

-- A transition keeps the invariant, whichever operation it is.
pub transition-IsWellFormed :
    (c : DomainState) (name : String) (s : TransitionInput)
    → IsWellFormed c
    → Returns IsWellFormed (transition c name s)
transition-IsWellFormed c name s w =
    transition-Returns IsWellFormed c s (λ r n es k. ground arith) w
      (λ o e. branch-IsWellFormed o c s w e) name
