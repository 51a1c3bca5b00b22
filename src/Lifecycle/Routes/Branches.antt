-- ===== src/Lifecycle/Routes/Branches.antt =====
-- The delivery part of a domain is kept by every branch of src/asme/lifecycle.py.
use agentic_skills_lifecycle.Prelude.{
  ◌≡◌, refl, String, str_eq, Bool, true, false, Option, none, some, [], ◌∷◌, ◌++◌, opt_is,
  str_append, str_mem, str_sort, eq_refl, if◌then◌else◌, arith, Bool-cases, inl, inr, Option-cases,
  ◌⊎◌,
}
use agentic_skills_lifecycle.Float.{Float}
use agentic_skills_lifecycle.Contract.{Route, validated, done}
use agentic_skills_lifecycle.Lifecycle.State.{
  Operation, baseline_finalize, gate, test_prepare, test_ingest, export, package_untested,
  reset_manifest, DomainState, TransitionInput,
}
use agentic_skills_lifecycle.Lifecycle.Manifests.{
  advance_iteration, consume_manifest, record_current_manifest, require_manifest_hash,
}
use agentic_skills_lifecycle.Lifecycle.Transition.{is_enabled, branch}
use agentic_skills_lifecycle.Lifecycle.Branches.{
  on_init, on_seed_observations, on_skip_seed, on_rollback_seed, on_baseline_finalize,
  baseline_state, on_train_ingest, on_apply_wiki, on_apply_proposal_change,
  on_apply_proposal_no_action, on_val_ingest, on_confirm_ingest, on_gate, on_abandon,
  on_test_prepare, on_test_ingest, on_export, export_first, on_package_untested, on_reset_manifest,
  gate_outcome, gate_accept, gate_provisional, gate_confirm, gate_reject, abandon_owned, has_phase,
  is_both_phases, phases, is_test_phase, phase_manifest,
}
use agentic_skills_lifecycle.Lifecycle.Outcomes.{Keeps, Keeps-map}
use agentic_skills_lifecycle.Lifecycle.Consumption.{is_consumed-append}
use agentic_skills_lifecycle.Lifecycle.Routes.Defs.{is_done, IsLatched}
use agentic_skills_lifecycle.Lifecycle.Routes.Phases.{
  has_phase_of_both, all-sort-append, are_prepared-sort, are_prepared-append, are_one_each-append,
  are_consumed_of_both, is_test_phase_of_mem,
}

-- Before a domain is done, a branch leaves the delivery part alone.
abbrev IsUntouched : DomainState → DomainState → Type 0
IsUntouched c r =
    (r.route ≡ c.route)
    × (r.delivery_ledger ≡ c.delivery_ledger)
    × (r.prepared_test_phases ≡ c.prepared_test_phases)
    × (r.test_manifests ≡ c.test_manifests)

IsLatched-of_untouched :
    (c r : DomainState) → IsLatched c → c.route ≡ none → IsUntouched c r → IsLatched r
IsLatched-of_untouched c r l n u = ground arith

gate_outcome-IsUntouched :
    (c : DomainState) (a b : Float) → Keeps (IsUntouched c) (gate_outcome c a b)
unfolding gate_outcome gate_accept gate_provisional gate_confirm gate_reject consume_manifest
    advance_iteration
gate_outcome-IsUntouched c a b = ground arith

branch-IsUntouched :
    (o : Operation) (c : DomainState) (s : TransitionInput)
    → is_enabled o c.state ≡ true
    → is_done c.state ≡ false
    → Keeps (IsUntouched c) (branch o c s)
unfolding is_enabled branch on_init on_seed_observations on_skip_seed on_rollback_seed
    on_baseline_finalize baseline_state on_train_ingest record_current_manifest on_apply_wiki
    on_apply_proposal_change on_apply_proposal_no_action on_val_ingest on_confirm_ingest on_abandon
    abandon_owned on_reset_manifest consume_manifest advance_iteration
branch-IsUntouched gate c s e n = unfold on_gate in grind (arith, gate_outcome-IsUntouched)
branch-IsUntouched baseline_finalize c s e n = ground arith
branch-IsUntouched _ c s e n = ground arith

module _ (c : DomainState) (s : TransitionInput) (l : IsLatched c) (q : c.state ≡ done) where
  prepare-IsLatched :
      (p : String)
      → is_test_phase p ≡ true
      → (c.route ≡ none) ⊎ (c.route ≡ some validated)
      → has_phase p c.test_manifests ≡ false
      → IsLatched (record c {
        route = some validated;
        validated_step = some "prepared";
        prepared_test_phases = str_sort (c.prepared_test_phases ++ p ∷ []);
      })
  prepare-IsLatched p t r n = ground (
    arith,
    all-sort-append c.prepared_test_phases p,
    are_prepared-sort c.test_manifests c.prepared_test_phases p,
    has_phase_of_both p c.test_manifests,
  )

  on_test_prepare-IsLatched : Keeps IsLatched (on_test_prepare c s)
  unfolding on_test_prepare
  on_test_prepare-IsLatched = elim (Option-cases s.phase) [
    | inl e ↦ ground arith
    | inr (p, e) ↦ ground (arith, prepare-IsLatched p)
  ]

  ingest_step-IsLatched :
      (p h step : String)
      → str_mem p c.prepared_test_phases ≡ true
      → c.route ≡ some validated
      → has_phase p c.test_manifests ≡ false
      → str_eq step "exported" ≡ false
      → IsLatched (record c {
        validated_step = some step;
        test_manifests = c.test_manifests ++ record { phase = p; manifest_hash = h } ∷ [];
      })
  ingest_step-IsLatched p h step m r n e = ground (
    arith,
    is_test_phase_of_mem p c.prepared_test_phases,
    has_phase_of_both p c.test_manifests,
    are_prepared-append c.test_manifests (record { phase = p; manifest_hash = h })
        c.prepared_test_phases,
    are_one_each-append c.test_manifests (record { phase = p; manifest_hash = h }),
  )

  ingest-IsLatched :
      (p h : String) (both : Bool)
      → str_mem p c.prepared_test_phases ≡ true
      → c.route ≡ some validated
      → has_phase p c.test_manifests ≡ false
      → IsLatched (record c {
        validated_step = some (if both then "ingested" else "prepared");
        test_manifests = c.test_manifests ++ record { phase = p; manifest_hash = h } ∷ [];
      })
  ingest-IsLatched p h true m r n = ingest_step-IsLatched p h "ingested" m r n refl
  ingest-IsLatched p h false m r n = ingest_step-IsLatched p h "prepared" m r n refl

  on_test_ingest-IsLatched : Keeps IsLatched (on_test_ingest c s)
  unfolding on_test_ingest require_manifest_hash
  on_test_ingest-IsLatched = elim (Option-cases s.phase) [
    | inl e ↦ ground arith
    | inr (p, e) ↦ elim (Option-cases s.manifest_hash) [
      | inl d ↦ ground arith
      | inr (h, d) ↦
          ground (arith, ingest-IsLatched p h (is_both_phases (p ∷ phases c.test_manifests)))
    ]
  ]

  exported-IsLatched :
      (d b f : String)
      → c.route ≡ some validated
      → opt_is c.validated_step "exported" ≡ false
      → is_both_phases (phases c.test_manifests) ≡ true
      → phase_manifest "test-baseline" c.test_manifests ≡ some b
      → phase_manifest "test-final" c.test_manifests ≡ some f
      → IsLatched (record c {
        consumed_manifests =
            (c.consumed_manifests ++ record { manifest_hash = b; by = str_append "export:" d } ∷ [])
            ++ record { manifest_hash = f; by = str_append "export:" d } ∷ [];
        validated_step = some "exported";
        delivery_ledger =
            c.delivery_ledger
            ++ record { delivery_id = d; route = validated; approval = none } ∷ [];
      })
  unfolding is_both_phases
  exported-IsLatched d b f r n both eb ef = ground (
    arith,
    are_consumed_of_both c.test_manifests (
        (c.consumed_manifests ++ record { manifest_hash = b; by = str_append "export:" d } ∷ [])
        ++ record { manifest_hash = f; by = str_append "export:" d } ∷ []),
    is_consumed-append b c.consumed_manifests
        (record { manifest_hash = b; by = str_append "export:" d }),
    is_consumed-append b
        (c.consumed_manifests ++ record { manifest_hash = b; by = str_append "export:" d } ∷ [])
        (record { manifest_hash = f; by = str_append "export:" d }),
    is_consumed-append f
        (c.consumed_manifests ++ record { manifest_hash = b; by = str_append "export:" d } ∷ [])
        (record { manifest_hash = f; by = str_append "export:" d }),
    eq_refl b,
    eq_refl f,
  )

  export_first-IsLatched :
      (d : String)
      → c.route ≡ some validated
      → opt_is c.validated_step "exported" ≡ false
      → Keeps IsLatched (export_first c d)
  unfolding export_first consume_manifest
  export_first-IsLatched d r n = grind (arith, exported-IsLatched)

  on_export-IsLatched : Keeps IsLatched (on_export c s)
  unfolding on_export
  on_export-IsLatched = grind (arith, export_first-IsLatched)

  on_package_untested-IsLatched : Keeps IsLatched (on_package_untested c s)
  unfolding on_package_untested require_manifest_hash
  on_package_untested-IsLatched = ground arith

  on_reset_manifest-IsLatched : Keeps IsLatched (on_reset_manifest c s)
  unfolding on_reset_manifest
  on_reset_manifest-IsLatched = ground arith

done_branch-IsLatched :
    (o : Operation) (c : DomainState) (s : TransitionInput)
    → IsLatched c
    → is_enabled o c.state ≡ true
    → c.state ≡ done
    → Keeps IsLatched (branch o c s)
unfolding is_enabled branch
done_branch-IsLatched test_prepare c s l e q = on_test_prepare-IsLatched c s l q
done_branch-IsLatched test_ingest c s l e q = on_test_ingest-IsLatched c s l q
done_branch-IsLatched export c s l e q = on_export-IsLatched c s l q
done_branch-IsLatched package_untested c s l e q = on_package_untested-IsLatched c s l q
done_branch-IsLatched reset_manifest c s l e q = on_reset_manifest-IsLatched c s l q
done_branch-IsLatched _ c s l e q = ground arith

-- Every branch keeps the delivery part consistent.
pub branch-IsLatched :
    (o : Operation) (c : DomainState) (s : TransitionInput)
    → IsLatched c
    → is_enabled o c.state ≡ true
    → Keeps IsLatched (branch o c s)
branch-IsLatched o c s l e = elim (Bool-cases (is_done c.state)) [
  | inl d ↦ done_branch-IsLatched o c s l e (ground arith)
  | inr n ↦
      Keeps-map (IsUntouched c) IsLatched (branch o c s)
        (λ r u. IsLatched-of_untouched c r l (l.undecided n) u) (branch-IsUntouched o c s e n)
]

-- A latched route stays.
abbrev pub HasRoute : Option Route → DomainState → Type 0
HasRoute x r = (x ≡ none) ⊎ (r.route ≡ x)

done_branch-HasRoute :
    (o : Operation) (c : DomainState) (s : TransitionInput)
    → is_enabled o c.state ≡ true
    → c.state ≡ done
    → Keeps (HasRoute c.route) (branch o c s)
unfolding is_enabled branch on_test_prepare on_test_ingest on_export export_first consume_manifest
    on_package_untested on_reset_manifest
done_branch-HasRoute export c s e q = ground arith
done_branch-HasRoute package_untested c s e q = ground arith
done_branch-HasRoute _ c s e q = ground arith

pub branch-HasRoute :
    (o : Operation) (c : DomainState) (s : TransitionInput)
    → IsLatched c
    → is_enabled o c.state ≡ true
    → Keeps (HasRoute c.route) (branch o c s)
branch-HasRoute o c s l e = elim (Bool-cases (is_done c.state)) [
  | inl d ↦ done_branch-HasRoute o c s e (ground arith)
  | inr n ↦
      Keeps-map (IsUntouched c) (HasRoute c.route) (branch o c s) (λ r u. inl (l.undecided n))
        (branch-IsUntouched o c s e n)
]
