-- ===== src/Lifecycle/Promotion.antt =====
-- When the best score and the active snapshot of a domain change (src/asme/lifecycle.py).
use agentic_skills_lifecycle.Prelude.{
  ◌≡◌, refl, String, true, false, some, opt_is, opt_is-eq, opt_is-apart, arith, ◌⊎◌,
}
use agentic_skills_lifecycle.Float.{Float, float_ltb, ltb-min}
use agentic_skills_lifecycle.Contract.{needs_gate}
use agentic_skills_lifecycle.Lifecycle.State.{
  Operation, gate, abandon, export, package_untested, DomainState, TransitionInput,
}
use agentic_skills_lifecycle.Lifecycle.Manifests.{
  advance_iteration, consume_manifest, record_current_manifest, require_score,
}
use agentic_skills_lifecycle.Lifecycle.Transition.{is_enabled, branch, transition}
use agentic_skills_lifecycle.Lifecycle.Branches.{
  on_train_ingest, on_apply_wiki, on_apply_proposal_change, on_apply_proposal_no_action,
  on_val_ingest, on_confirm_ingest, on_gate, on_abandon, on_test_prepare, on_test_ingest, on_export,
  export_first, on_package_untested, on_reset_manifest, gate_score, gate_outcome, gate_accept,
  gate_provisional, gate_confirm, gate_reject, abandon_owned,
}
use agentic_skills_lifecycle.Lifecycle.Invariant.Defs.{IsWellFormed, is_win, is_scored}
use agentic_skills_lifecycle.Lifecycle.Outcomes.{Keeps, Returns, transition-Returns}

-- The candidate of `c` won: every score that the gate needs beats the best score of `c`, the
-- result's best score does too, and the candidate is the active snapshot.
pub record IsPromoted (c r : DomainState) : Type 0 where
  pub judged : c.state ≡ needs_gate
  pub beaten : is_win c.best_score r.best_score ≡ true
  pub validated_win : is_win c.best_score c.provisional_score ≡ true
  pub confirmed_win :
      c.confirmation_required ≡ true
      → (c.gate_phase ≡ some "confirmation") × (is_win c.best_score c.confirmation_score ≡ true)
  pub active : r.active_snapshot_hash ≡ c.candidate_snapshot_hash

-- Nothing was promoted.
abbrev pub IsUnchanged : DomainState → DomainState → Type 0
IsUnchanged c r = (r.best_score ≡ c.best_score) × (r.active_snapshot_hash ≡ c.active_snapshot_hash)

abbrev pub MayPromote : DomainState → DomainState → Type 0
MayPromote c r = IsUnchanged c r ⊎ IsPromoted c r

module _ (c : DomainState) (w : IsWellFormed c) (q : c.state ≡ needs_gate) where
  gate_accept-MayPromote :
      (candidate best : Float)
      → c.best_score ≡ some best
      → float_ltb best candidate ≡ true
      → c.provisional_score ≡ some candidate
      → c.confirmation_required ≡ false
      → Keeps (MayPromote c) (gate_accept c candidate)
  unfolding gate_accept consume_manifest advance_iteration
  gate_accept-MayPromote candidate best b win p n = ground arith

  gate_provisional-MayPromote : Keeps (MayPromote c) (gate_provisional c)
  unfolding gate_provisional consume_manifest
  gate_provisional-MayPromote = ground arith

  gate_confirm-MayPromote :
      (candidate best : Float)
      → c.best_score ≡ some best
      → float_ltb best candidate ≡ true
      → c.confirmation_score ≡ some candidate
      → c.gate_phase ≡ some "confirmation"
      → Keeps (MayPromote c) (gate_confirm c candidate)
  unfolding gate_confirm consume_manifest advance_iteration require_score
  gate_confirm-MayPromote candidate best b win p g = grind (arith, ltb-min)

  gate_reject-MayPromote : Keeps (MayPromote c) (gate_reject c)
  unfolding gate_reject consume_manifest advance_iteration
  gate_reject-MayPromote = ground arith

  gate_outcome-MayPromote :
      (candidate best : Float)
      → c.best_score ≡ some best
      → (opt_is c.gate_phase "confirmation" ≡ true → c.confirmation_score ≡ some candidate)
      → (opt_is c.gate_phase "confirmation" ≡ false → c.provisional_score ≡ some candidate)
      → Keeps (MayPromote c) (gate_outcome c candidate best)
  unfolding gate_outcome
  gate_outcome-MayPromote candidate best b u v = ground (
    arith,
    gate_accept-MayPromote candidate best b,
    gate_provisional-MayPromote,
    gate_confirm-MayPromote candidate best b,
    gate_reject-MayPromote,
    opt_is-eq c.gate_phase "confirmation",
    opt_is-apart c.gate_phase "validation" "confirmation" refl,
  )

  on_gate-MayPromote : (s : TransitionInput) → Keeps (MayPromote c) (on_gate c s)
  unfolding on_gate gate_score require_score
  on_gate-MayPromote s = grind (arith, gate_outcome-MayPromote)

module _ (c : DomainState) (s : TransitionInput) (w : IsWellFormed c)
    (q : is_scored c.state ≡ true) where
  branch-MayPromote :
      (o : Operation) → is_enabled o c.state ≡ true → Keeps (MayPromote c) (branch o c s)
  unfolding branch is_enabled on_train_ingest record_current_manifest on_apply_wiki consume_manifest
      on_apply_proposal_change on_apply_proposal_no_action advance_iteration on_val_ingest
      on_confirm_ingest on_abandon abandon_owned on_test_prepare on_test_ingest on_export
      export_first on_package_untested on_reset_manifest
  branch-MayPromote gate e = on_gate-MayPromote c w (ground arith) s
  branch-MayPromote abandon e = ground arith
  branch-MayPromote export e = ground arith
  branch-MayPromote package_untested e = ground arith
  branch-MayPromote _ e = ground arith

-- After the baseline, a transition of a well-formed domain leaves the best score and the active
-- snapshot alone, or it is the gate's promotion of a candidate that beats the best score in every
-- score that is required.
pub transition-MayPromote :
    (c : DomainState) (name : String) (s : TransitionInput)
    → IsWellFormed c
    → is_scored c.state ≡ true
    → Returns (MayPromote c) (transition c name s)
transition-MayPromote c name s w q =
    transition-Returns (MayPromote c) c s (λ r n es k. ground arith) (ground arith)
      (branch-MayPromote c s w q) name
