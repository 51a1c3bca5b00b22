-- ===== src/Lifecycle/Invariant/Setup.antt =====
-- The invariant is kept by the branches that set up a domain (src/asme/lifecycle.py).
use agentic_skills_lifecycle.Prelude.{ℕ, ◌<◌, ◌≡◌, String, Bool, true, false, [], ◌∷◌, ◌++◌, arith}
use agentic_skills_lifecycle.Float.{Float, in_unit}
use agentic_skills_lifecycle.Contract.{uninitialized, needs_optional_seed, needs_baseline_run}
use agentic_skills_lifecycle.Lifecycle.State.{DomainState, TransitionInput, new_domain}
use agentic_skills_lifecycle.Lifecycle.Manifests.{
  is_consumed, consume_manifest, require_manifest_hash, require_score,
}
use agentic_skills_lifecycle.Lifecycle.Branches.{
  on_init, on_seed_observations, on_skip_seed, on_rollback_seed, on_baseline_finalize,
  baseline_state,
}
use agentic_skills_lifecycle.Lifecycle.Invariant.Defs.{IsWellFormed}
use agentic_skills_lifecycle.Lifecycle.Outcomes.{Keeps}
use agentic_skills_lifecycle.Lifecycle.Consumption.{is_distinct-append}

-- A domain with at least one iteration starts well-formed.
pub new_domain-IsWellFormed :
    (domain_id seal : String) (n : ℕ) (confirm : Bool)
    → 0 < n
    → IsWellFormed (new_domain domain_id seal n confirm)
unfolding new_domain
new_domain-IsWellFormed domain_id seal n confirm h = ground arith

module _ (c : DomainState) (s : TransitionInput) (w : IsWellFormed c) where
  pub on_init-IsWellFormed : c.state ≡ uninitialized → Keeps IsWellFormed (on_init c s)
  unfolding on_init
  on_init-IsWellFormed q = ground arith

  pub on_seed_observations-IsWellFormed :
      c.state ≡ needs_optional_seed → Keeps IsWellFormed (on_seed_observations c s)
  unfolding on_seed_observations
  on_seed_observations-IsWellFormed q = ground arith

  pub on_skip_seed-IsWellFormed :
      c.state ≡ needs_optional_seed → Keeps IsWellFormed (on_skip_seed c s)
  unfolding on_skip_seed
  on_skip_seed-IsWellFormed q = ground arith

  pub on_rollback_seed-IsWellFormed :
      c.state ≡ needs_baseline_run → Keeps IsWellFormed (on_rollback_seed c s)
  unfolding on_rollback_seed
  on_rollback_seed-IsWellFormed q = ground arith

  baseline_state-IsWellFormed :
      (score : Float) (h : String)
      → c.state ≡ needs_baseline_run
      → in_unit score ≡ true
      → is_consumed h c.consumed_manifests ≡ false
      → IsWellFormed (record (baseline_state c score s.snapshot_hash) {
        consumed_manifests =
            c.consumed_manifests ++ record { manifest_hash = h; by = "baseline-finalize" } ∷ [];
      })
  unfolding baseline_state
  baseline_state-IsWellFormed score h q u n = ground (
    arith,
    is_distinct-append c.consumed_manifests
        (record { manifest_hash = h; by = "baseline-finalize" }),
  )

  pub on_baseline_finalize-IsWellFormed :
      c.state ≡ needs_baseline_run → Keeps IsWellFormed (on_baseline_finalize c s)
  unfolding on_baseline_finalize consume_manifest require_manifest_hash require_score
  on_baseline_finalize-IsWellFormed q = grind (arith, baseline_state-IsWellFormed)
