-- ===== src/Lifecycle/Routes/Defs.antt =====
-- The delivery part of a domain: the latched route, the test phases and the ledger
-- (src/asme/lifecycle.py).
use agentic_skills_lifecycle.Prelude.{
  ◌≡◌, String, Bool, true, false, not, ◌&&◌, Option, none, some, List, [], ◌∷◌, opt_is, str_mem,
  all, if◌then◌else◌,
}
use agentic_skills_lifecycle.Contract.{Route, validated, untested, LifecycleState, done}
use agentic_skills_lifecycle.Lifecycle.State.{Consumed, LedgerEntry, TestManifest, DomainState}
use agentic_skills_lifecycle.Lifecycle.Manifests.{is_consumed}
use agentic_skills_lifecycle.Lifecycle.Branches.{
  same_route, has_phase, is_both_phases, phases, is_test_phase,
}

-- No entry, or one entry of the given route.
abbrev pub is_ledger_of : Route → List LedgerEntry → Bool
is_ledger_of r [] = true
is_ledger_of r (e ∷ []) = same_route e.route r
is_ledger_of r _ = false

abbrev pub has_one : List LedgerEntry → Bool
has_one (e ∷ []) = true
has_one _ = false

abbrev pub is_nil {ℓ} : {A : Type ℓ} → List A → Bool
is_nil [] = true
is_nil _ = false

-- Every test manifest belongs to a prepared phase.
abbrev pub are_prepared : List TestManifest → List String → Bool
are_prepared [] ps = true
are_prepared (m ∷ ms) ps = str_mem m.phase ps && are_prepared ms ps

-- No two test manifests are of one phase.
abbrev pub are_one_each : List TestManifest → Bool
are_one_each [] = true
are_one_each (m ∷ ms) = not (has_phase m.phase ms) && are_one_each ms

-- Every test manifest is consumed.
abbrev pub are_consumed : List TestManifest → List Consumed → Bool
are_consumed [] cs = true
are_consumed (m ∷ ms) cs = is_consumed m.manifest_hash cs && are_consumed ms cs

-- The delivery part of a domain, for each value of its latched route.
abbrev pub is_routed : Option Route → DomainState → Bool
is_routed none c =
    is_nil c.delivery_ledger && is_nil c.prepared_test_phases && is_nil c.test_manifests
is_routed (some untested) c =
    is_ledger_of untested c.delivery_ledger
    && has_one c.delivery_ledger
    && is_nil c.prepared_test_phases
    && is_nil c.test_manifests
is_routed (some validated) c =
    is_ledger_of validated c.delivery_ledger
    && (if opt_is c.validated_step "exported"
        then has_one c.delivery_ledger
          && is_both_phases (phases c.test_manifests)
          && are_consumed c.test_manifests c.consumed_manifests
        else is_nil c.delivery_ledger)

abbrev pub is_done : LifecycleState → Bool
is_done done = true
is_done _ = false

pub record IsLatched (c : DomainState) : Type 0 where
  pub routed : is_routed c.route c ≡ true
  pub known : all is_test_phase c.prepared_test_phases ≡ true
  pub prepared : are_prepared c.test_manifests c.prepared_test_phases ≡ true
  pub one_each : are_one_each c.test_manifests ≡ true
  pub undecided : is_done c.state ≡ false → c.route ≡ none
