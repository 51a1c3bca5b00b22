-- ===== src/Lifecycle/Invariant/Delivery.antt =====
-- The invariant is kept by the branches of a finished domain (src/asme/lifecycle.py).
use agentic_skills_lifecycle.Prelude.{◌≡◌, String, true, false, List, [], ◌∷◌, ◌++◌, arith}
use agentic_skills_lifecycle.Contract.{done}
use agentic_skills_lifecycle.Lifecycle.State.{DomainState, TransitionInput, Consumed}
use agentic_skills_lifecycle.Lifecycle.Manifests.{
  is_consumed, consume_manifest, require_manifest_hash,
}
use agentic_skills_lifecycle.Lifecycle.Branches.{
  on_test_prepare, on_test_ingest, on_export, export_first, on_package_untested,
}
use agentic_skills_lifecycle.Lifecycle.Invariant.Defs.{IsWellFormed, is_distinct}
use agentic_skills_lifecycle.Lifecycle.Outcomes.{Keeps}
use agentic_skills_lifecycle.Lifecycle.Consumption.{is_distinct-append}

consumed_both :
    (ms : List Consumed) (a b by : String)
    → is_distinct ms ≡ true
    → is_consumed a ms ≡ false
    → is_consumed b (ms ++ record { manifest_hash = a; by = by } ∷ []) ≡ false
    → is_distinct (
        (ms ++ record { manifest_hash = a; by = by } ∷ [])
        ++ record { manifest_hash = b; by = by } ∷ [])
      ≡ true
consumed_both ms a b by d na nb =
    is_distinct-append (ms ++ record { manifest_hash = a; by = by } ∷ [])
      (record { manifest_hash = b; by = by })
      (is_distinct-append ms (record { manifest_hash = a; by = by }) d na) nb

module _ (c : DomainState) (s : TransitionInput) (w : IsWellFormed c) (q : c.state ≡ done) where
  pub on_test_prepare-IsWellFormed : Keeps IsWellFormed (on_test_prepare c s)
  unfolding on_test_prepare
  on_test_prepare-IsWellFormed = ground arith

  pub on_test_ingest-IsWellFormed : Keeps IsWellFormed (on_test_ingest c s)
  unfolding on_test_ingest require_manifest_hash
  on_test_ingest-IsWellFormed = ground arith

  export_first-IsWellFormed : (d : String) → Keeps IsWellFormed (export_first c d)
  unfolding export_first consume_manifest
  export_first-IsWellFormed d = grind (arith, consumed_both)

  pub on_export-IsWellFormed : Keeps IsWellFormed (on_export c s)
  unfolding on_export
  on_export-IsWellFormed = grind (arith, export_first-IsWellFormed)

  pub on_package_untested-IsWellFormed : Keeps IsWellFormed (on_package_untested c s)
  unfolding on_package_untested require_manifest_hash
  on_package_untested-IsWellFormed = ground arith
