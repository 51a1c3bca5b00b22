-- ===== src/Lifecycle/Scored.antt =====
-- Once the baseline is finalized, a domain stays scored (src/asme/lifecycle.py).
use agentic_skills_lifecycle.Prelude.{◌≡◌, String, true, arith}
use agentic_skills_lifecycle.Float.{Float}
use agentic_skills_lifecycle.Lifecycle.State.{
  Operation, apply_proposal_no_action, gate, abandon, export, package_untested, DomainState,
  TransitionInput,
}
use agentic_skills_lifecycle.Lifecycle.Manifests.{
  advance_iteration, consume_manifest, record_current_manifest,
}
use agentic_skills_lifecycle.Lifecycle.Transition.{is_enabled, branch, transition}
use agentic_skills_lifecycle.Lifecycle.Branches.{
  on_train_ingest, on_apply_wiki, on_apply_proposal_change, on_apply_proposal_no_action,
  on_val_ingest, on_confirm_ingest, on_gate, on_abandon, on_test_prepare, on_test_ingest, on_export,
  export_first, on_package_untested, on_reset_manifest, gate_outcome, gate_accept, gate_provisional,
  gate_confirm, gate_reject,
}
use agentic_skills_lifecycle.Lifecycle.Invariant.Defs.{is_scored}
use agentic_skills_lifecycle.Lifecycle.Outcomes.{Keeps, Returns, transition-Returns}

abbrev pub IsScored : DomainState → Type 0
IsScored r = is_scored r.state ≡ true

-- The end of an iteration is a scored state.
advance_iteration-IsScored : (c : DomainState) → IsScored (advance_iteration c)
unfolding advance_iteration
advance_iteration-IsScored c = ground arith

module _ (c : DomainState) (s : TransitionInput) (q : IsScored c) where
  gate-IsScored : (candidate best : Float) → Keeps IsScored (gate_outcome c candidate best)
  unfolding gate_outcome gate_accept gate_provisional gate_confirm gate_reject consume_manifest
  gate-IsScored candidate best = grind (arith, advance_iteration-IsScored)

  branch-IsScored : (o : Operation) → is_enabled o c.state ≡ true → Keeps IsScored (branch o c s)
  unfolding branch is_enabled on_train_ingest record_current_manifest on_apply_wiki consume_manifest
      on_apply_proposal_change on_apply_proposal_no_action on_val_ingest on_confirm_ingest on_gate
      on_abandon on_test_prepare on_test_ingest on_export export_first on_package_untested
      on_reset_manifest
  branch-IsScored gate e = grind (arith, gate-IsScored)
  branch-IsScored abandon e = grind (arith, advance_iteration-IsScored)
  branch-IsScored apply_proposal_no_action e = advance_iteration-IsScored c
  branch-IsScored export e = ground arith
  branch-IsScored package_untested e = ground arith
  branch-IsScored _ e = ground arith

pub transition-IsScored :
    (c : DomainState) (name : String) (s : TransitionInput)
    → IsScored c
    → Returns IsScored (transition c name s)
transition-IsScored c name s q =
    transition-Returns IsScored c s (λ r n es k. k) q (branch-IsScored c s q) name
