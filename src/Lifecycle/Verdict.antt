-- ===== src/Lifecycle/Verdict.antt =====
-- The gate against its decision table (src/asme/lifecycle.py): a strict win, and a second one where
-- a confirmation is required; and the end of an iteration by `abandon`.
use agentic_skills_lifecycle.Prelude.{
  ◌≡◌, refl, true, false, Option, none, some, opt_is, opt_is-apart, if◌then◌else◌, arith,
  Bool-cases, inl, inr, ◌⊎◌,
}
use agentic_skills_lifecycle.Float.{Float, float_min}
use agentic_skills_lifecycle.Contract.{needs_train_run, needs_gate, needs_val_confirm, done}
use agentic_skills_lifecycle.Lifecycle.State.{
  gate, abandon, parse_operation, DomainState, TransitionInput,
}
use agentic_skills_lifecycle.Lifecycle.Manifests.{
  advance_iteration, consume_manifest, require_score,
}
use agentic_skills_lifecycle.Lifecycle.Transition.{is_enabled, branch, transition}
use agentic_skills_lifecycle.Lifecycle.Branches.{
  on_gate, on_abandon, gate_score, gate_outcome, gate_accept, gate_provisional, gate_confirm,
  gate_reject, abandon_owned,
}
use agentic_skills_lifecycle.Lifecycle.Invariant.Defs.{IsWellFormed, is_win, has_candidate}
use agentic_skills_lifecycle.Lifecycle.Outcomes.{Moves, Succeeds, IsStable, transition-Succeeds}

-- What the gate is to decide.
pub data Verdict : Type 0 where
  accept : Option Float → Verdict
  confirm reject : Verdict

abbrev lower_score : Option Float → Option Float → Option Float
lower_score (some a) (some b) = some (float_min a b)
lower_score _ _ = none

-- The decision table, from the scores, the phase and whether a confirmation is required.
abbrev pub verdict : DomainState → Verdict
verdict c =
    if opt_is c.gate_phase "confirmation"
    then (if is_win c.best_score c.confirmation_score
        then accept (lower_score c.provisional_score c.confirmation_score)
        else reject)
    else (if is_win c.best_score c.provisional_score
        then (if c.confirmation_required then confirm else accept c.provisional_score)
        else reject)

-- The iteration of `c` is over in `r`: there is no candidate left, and the domain trains again or
-- is done.
pub record IsEnded (c r : DomainState) : Type 0 where
  pub no_candidate : r.candidate_snapshot_hash ≡ none
  pub no_manifest : r.current_manifest_hash ≡ none
  pub no_phase : r.gate_phase ≡ none
  pub goes_on : (r.state ≡ needs_train_run) ⊎ (r.state ≡ done)

abbrev pub Carries : DomainState → Verdict → DomainState → Type 0
Carries c (accept best) r =
    IsEnded c r × (r.best_score ≡ best) × (r.active_snapshot_hash ≡ c.candidate_snapshot_hash)
Carries c confirm r =
    (r.state ≡ needs_val_confirm)
    × (r.provisional_manifest_hash ≡ c.current_manifest_hash)
    × (r.best_score ≡ c.best_score)
    × (r.active_snapshot_hash ≡ c.active_snapshot_hash)
Carries c reject r =
    IsEnded c r × (r.best_score ≡ c.best_score) × (r.active_snapshot_hash ≡ c.active_snapshot_hash)

module _ (c : DomainState) (s : TransitionInput) (w : IsWellFormed c)
    (q : c.state ≡ needs_gate) where
  validation-Carries :
      opt_is c.gate_phase "confirmation" ≡ false → Moves (Carries c (verdict c)) (on_gate c s)
  unfolding on_gate gate_score require_score gate_outcome gate_accept gate_provisional gate_reject
      consume_manifest advance_iteration
  validation-Carries p = ground arith

  confirmation-Carries :
      opt_is c.gate_phase "confirmation" ≡ true → Moves (Carries c (verdict c)) (on_gate c s)
  unfolding on_gate gate_score require_score gate_outcome gate_confirm gate_reject consume_manifest
      advance_iteration
  confirmation-Carries p =
      ground (arith, opt_is-apart c.gate_phase "confirmation" "validation" refl)

Carries-IsStable : (c : DomainState) (v : Verdict) → IsStable (Carries c v)
Carries-IsStable c (accept best) r n es k = ground arith
Carries-IsStable c confirm r n es k = ground arith
Carries-IsStable c reject r n es k = ground arith

-- In a well-formed domain that waits for the gate, `gate` is never refused, and the state that it
-- returns carries out the verdict of the decision table.
pub gate-Carries :
    (c : DomainState) (s : TransitionInput)
    → IsWellFormed c
    → c.state ≡ needs_gate
    → Succeeds (Carries c (verdict c)) (transition c "gate" s)
unfolding is_enabled branch
gate-Carries c s w q =
    transition-Succeeds (Carries c (verdict c)) c s gate (Carries-IsStable c (verdict c)) (rw q)
      (elim (Bool-cases (opt_is c.gate_phase "confirmation")) [
        | inl e ↦ confirmation-Carries c s w q e
        | inr e ↦ validation-Carries c s w q e
      ])
      "gate" (unfold parse_operation in refl)

abandoned-IsEnded :
    (c : DomainState) (s : TransitionInput)
    → IsWellFormed c
    → has_candidate c.state ≡ true
    → Moves (Carries c reject) (on_abandon c s)
unfolding on_abandon abandon_owned consume_manifest advance_iteration
abandoned-IsEnded c s w q = ground arith

-- A candidate can be abandoned in every state in which it waits: the call is not refused, the
-- iteration ends, and the best score and the active snapshot stay.
pub abandon-Carries :
    (c : DomainState) (s : TransitionInput)
    → IsWellFormed c
    → has_candidate c.state ≡ true
    → Succeeds (Carries c reject) (transition c "abandon" s)
unfolding is_enabled branch
abandon-Carries c s w q =
    transition-Succeeds (Carries c reject) c s abandon (Carries-IsStable c reject) (ground arith)
      (abandoned-IsEnded c s w q) "abandon" (unfold parse_operation in refl)
