-- ===== src/Lifecycle/Invariant/Gate.antt =====
-- The invariant is kept by the gate and by an abandoned candidate (src/asme/lifecycle.py).
use agentic_skills_lifecycle.Prelude.{
  ◌≡◌, refl, String, true, false, Option, some, [], ◌∷◌, ◌++◌, opt_is, arith, inl, inr,
  Option-cases, opt_is-apart,
}
use agentic_skills_lifecycle.Float.{Float, in_unit, min-in_unit}
use agentic_skills_lifecycle.Contract.{needs_gate}
use agentic_skills_lifecycle.Lifecycle.State.{DomainState, TransitionInput}
use agentic_skills_lifecycle.Lifecycle.Manifests.{
  is_consumed, advance_iteration, consume_manifest, require_score,
}
use agentic_skills_lifecycle.Lifecycle.Branches.{
  on_gate, on_abandon, gate_score, gate_outcome, gate_accept, gate_provisional, gate_confirm,
  gate_reject, abandon_owned,
}
use agentic_skills_lifecycle.Lifecycle.Invariant.Defs.{
  IsWellFormed, is_score, is_win, has_candidate,
}
use agentic_skills_lifecycle.Lifecycle.Outcomes.{Keeps}
use agentic_skills_lifecycle.Lifecycle.Consumption.{is_distinct-append}

module _ (c : DomainState) (w : IsWellFormed c) (q : c.state ≡ needs_gate) where
  -- The state in which the gate has consumed its manifest and decided on the best score.
  judged-IsWellFormed :
      (h by : String) (best : Float) (snapshot : Option String)
      → is_consumed h c.consumed_manifests ≡ false
      → in_unit best ≡ true
      → IsWellFormed (
          advance_iteration (record c {
            consumed_manifests = c.consumed_manifests ++ record { manifest_hash = h; by = by } ∷ [];
            best_score = some best;
            active_snapshot_hash = snapshot;
          }))
  unfolding advance_iteration
  judged-IsWellFormed h by best snapshot n u =
      ground
        (arith, is_distinct-append c.consumed_manifests (record { manifest_hash = h; by = by }))

  gate_accept-IsWellFormed :
      (candidate : Float) → in_unit candidate ≡ true → Keeps IsWellFormed (gate_accept c candidate)
  unfolding gate_accept consume_manifest
  gate_accept-IsWellFormed candidate u = grind (arith, judged-IsWellFormed)

  gate_provisional-IsWellFormed :
      is_score c.provisional_score ≡ true
      → is_win c.best_score c.provisional_score ≡ true
      → Keeps IsWellFormed (gate_provisional c)
  unfolding gate_provisional consume_manifest
  gate_provisional-IsWellFormed u win = elim (Option-cases c.current_manifest_hash) [
    | inl e ↦ ground arith
    | inr (h, e) ↦ ground (
      arith,
      is_distinct-append c.consumed_manifests
          (record { manifest_hash = h; by = "gate-validation" }),
    )
  ]

  gate_confirm-IsWellFormed :
      (candidate : Float) → in_unit candidate ≡ true → Keeps IsWellFormed (gate_confirm c candidate)
  unfolding gate_confirm consume_manifest require_score
  gate_confirm-IsWellFormed candidate u = grind (arith, judged-IsWellFormed, min-in_unit)

  gate_reject-IsWellFormed : Keeps IsWellFormed (gate_reject c)
  unfolding gate_reject consume_manifest advance_iteration
  gate_reject-IsWellFormed = elim (Option-cases c.current_manifest_hash) [
    | inl e ↦ ground arith
    | inr (h, e) ↦ ground (
      arith,
      is_distinct-append c.consumed_manifests
          (record { manifest_hash = h; by = "gate-validation-reject" }),
      is_distinct-append c.consumed_manifests
          (record { manifest_hash = h; by = "gate-confirmation-reject" }),
    )
  ]

  gate_outcome-IsWellFormed :
      (candidate best : Float)
      → in_unit candidate ≡ true
      → c.best_score ≡ some best
      → (opt_is c.gate_phase "confirmation" ≡ false → c.provisional_score ≡ some candidate)
      → Keeps IsWellFormed (gate_outcome c candidate best)
  unfolding gate_outcome
  gate_outcome-IsWellFormed candidate best u b v = ground (
    arith,
    gate_accept-IsWellFormed candidate u,
    gate_provisional-IsWellFormed,
    gate_confirm-IsWellFormed candidate u,
    gate_reject-IsWellFormed,
    opt_is-apart c.gate_phase "validation" "confirmation" refl,
  )

  pub on_gate-IsWellFormed : (s : TransitionInput) → Keeps IsWellFormed (on_gate c s)
  unfolding on_gate gate_score require_score
  on_gate-IsWellFormed s = grind (arith, gate_outcome-IsWellFormed)

module _ (c : DomainState) (s : TransitionInput) (w : IsWellFormed c) where
  pub on_abandon-IsWellFormed : has_candidate c.state ≡ true → Keeps IsWellFormed (on_abandon c s)
  unfolding on_abandon consume_manifest abandon_owned advance_iteration
  on_abandon-IsWellFormed q = elim (Option-cases c.current_manifest_hash) [
    | inl e ↦ ground arith
    | inr (h, e) ↦ ground (
      arith,
      is_distinct-append c.consumed_manifests (record { manifest_hash = h; by = "abandon" }),
    )
  ]
