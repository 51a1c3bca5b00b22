-- ===== src/Lifecycle/Continuity.antt =====
-- What no transition changes, and the consumed manifests, which only grow (src/asme/lifecycle.py).
use agentic_skills_lifecycle.Prelude.{
  ◌≡◌, String, Bool, true, false, some, [], ◌∷◌, ◌++◌, subst, arith,
}
use agentic_skills_lifecycle.Float.{Float}
use agentic_skills_lifecycle.Lifecycle.State.{
  Operation, init, baseline_finalize, train_ingest, apply_wiki, apply_proposal_no_action,
  val_ingest, gate, confirm_ingest, abandon, export, parse_operation, DomainState, TransitionInput,
}
use agentic_skills_lifecycle.Lifecycle.Manifests.{
  is_consumed, advance_iteration, consume_manifest, record_current_manifest, require_manifest_hash,
  require_score,
}
use agentic_skills_lifecycle.Lifecycle.Transition.{branch, transition}
use agentic_skills_lifecycle.Lifecycle.Branches.{
  on_init, on_seed_observations, on_skip_seed, on_rollback_seed, on_baseline_finalize,
  baseline_state, on_train_ingest, on_apply_wiki, on_apply_proposal_change,
  on_apply_proposal_no_action, on_val_ingest, on_confirm_ingest, on_gate, on_abandon,
  on_test_prepare, on_test_ingest, on_export, export_first, on_package_untested, on_reset_manifest,
  gate_outcome, gate_accept, gate_provisional, gate_confirm, gate_reject, abandon_owned,
}
use agentic_skills_lifecycle.Lifecycle.Reach.{Reach, here, next}
use agentic_skills_lifecycle.Lifecycle.Outcomes.{
  Keeps, Returns, transition-Returns, transition-stays,
}
use agentic_skills_lifecycle.Lifecycle.Consumption.{is_consumed-append}

-- The configuration of a domain is the same, and what was consumed still is.
pub record IsContinued (c : DomainState) (h : String) (r : DomainState) : Type 0 where
  pub same_domain : r.domain_id ≡ c.domain_id
  pub same_seal : r.seal ≡ c.seal
  pub same_iterations : r.max_iterations ≡ c.max_iterations
  pub same_policy : r.confirmation_required ≡ c.confirmation_required
  pub same_txn : r.txn ≡ c.txn
  pub still_consumed :
      is_consumed h c.consumed_manifests ≡ true → is_consumed h r.consumed_manifests ≡ true

consumed-IsContinued :
    (c : DomainState) (h by m : String)
    → IsContinued c h (record c {
      consumed_manifests = c.consumed_manifests ++ record { manifest_hash = m; by = by } ∷ [];
    })
consumed-IsContinued c h by m =
    ground
      (arith, is_consumed-append h c.consumed_manifests (record { manifest_hash = m; by = by }))

advance_iteration-IsContinued :
    (c d : DomainState) (h : String) → IsContinued c h d → IsContinued c h (advance_iteration d)
unfolding advance_iteration
advance_iteration-IsContinued c d h k = ground arith

module _ (c : DomainState) (s : TransitionInput) (h : String) where
  gate_accept-IsContinued : (a : Float) → Keeps (IsContinued c h) (gate_accept c a)
  unfolding gate_accept consume_manifest advance_iteration
  gate_accept-IsContinued a = grind (arith, is_consumed-append)

  gate_provisional-IsContinued : Keeps (IsContinued c h) (gate_provisional c)
  unfolding gate_provisional consume_manifest
  gate_provisional-IsContinued = grind (arith, is_consumed-append)

  gate_confirm-IsContinued : (a : Float) → Keeps (IsContinued c h) (gate_confirm c a)
  unfolding gate_confirm consume_manifest advance_iteration
  gate_confirm-IsContinued a = grind (arith, is_consumed-append)

  gate_reject-IsContinued : Keeps (IsContinued c h) (gate_reject c)
  unfolding gate_reject consume_manifest advance_iteration
  gate_reject-IsContinued = grind (arith, is_consumed-append)

  on_gate-IsContinued : Keeps (IsContinued c h) (on_gate c s)
  unfolding on_gate gate_outcome
  on_gate-IsContinued = grind (
    arith, gate_accept-IsContinued, gate_provisional-IsContinued, gate_confirm-IsContinued,
    gate_reject-IsContinued,
  )

  on_abandon-IsContinued : Keeps (IsContinued c h) (on_abandon c s)
  unfolding on_abandon abandon_owned consume_manifest advance_iteration
  on_abandon-IsContinued = grind (arith, is_consumed-append)

  export_first-IsContinued : (d : String) → Keeps (IsContinued c h) (export_first c d)
  unfolding export_first consume_manifest
  export_first-IsContinued d = grind (arith, is_consumed-append)

  branch-IsContinued : (o : Operation) → Keeps (IsContinued c h) (branch o c s)
  unfolding branch on_init on_seed_observations on_skip_seed on_rollback_seed on_baseline_finalize
      on_train_ingest record_current_manifest on_apply_wiki on_apply_proposal_change
      on_apply_proposal_no_action on_val_ingest on_confirm_ingest on_test_prepare on_test_ingest
      on_export on_package_untested on_reset_manifest consume_manifest
  branch-IsContinued init = ground arith
  branch-IsContinued train_ingest = ground arith
  branch-IsContinued baseline_finalize = grind (arith, is_consumed-append)
  branch-IsContinued apply_wiki = grind (arith, is_consumed-append)
  branch-IsContinued apply_proposal_no_action = advance_iteration-IsContinued c c h (ground arith)
  branch-IsContinued gate = on_gate-IsContinued
  branch-IsContinued abandon = on_abandon-IsContinued
  branch-IsContinued export = grind (arith, export_first-IsContinued)
  branch-IsContinued _ = ground arith

-- A transition changes neither the identity, the seal and the policy of a domain nor its recorded
-- transaction, and a manifest that was consumed stays consumed.
pub transition-IsContinued :
    (c : DomainState) (h : String) (name : String) (s : TransitionInput)
    → Returns (IsContinued c h) (transition c name s)
transition-IsContinued c h name s =
    transition-Returns (IsContinued c h) c s (λ r n es k. ground arith) (ground arith)
      (λ o e. branch-IsContinued c s h o) name

-- What was consumed is consumed in every state that is reached later.
pub Reach-consumed :
    {a c : DomainState} (h : String)
    → is_consumed h a.consumed_manifests ≡ true
    → Reach a c
    → is_consumed h c.consumed_manifests ≡ true
Reach-consumed h k here = k
Reach-consumed h k (next {c} name s t e) =
    (subst (Returns (IsContinued c h)) e (transition-IsContinued c h name s)).still_consumed
      (Reach-consumed h k t)

-- The operations that ingest a manifest of an iteration.
abbrev pub is_ingest : Operation → Bool
is_ingest baseline_finalize = true
is_ingest train_ingest = true
is_ingest val_ingest = true
is_ingest confirm_ingest = true
is_ingest _ = false

refused_ingest :
    (c : DomainState) (s : TransitionInput) (h : String) (o : Operation)
    → is_consumed h c.consumed_manifests ≡ true
    → s.manifest_hash ≡ some h
    → is_ingest o ≡ true
    → Keeps (λ r. ⊥) (branch o c s)
unfolding branch on_baseline_finalize on_train_ingest on_val_ingest on_confirm_ingest
    record_current_manifest require_manifest_hash consume_manifest baseline_state require_score
refused_ingest c s h baseline_finalize k m i = ground arith
refused_ingest c s h train_ingest k m i = ground arith
refused_ingest c s h val_ingest k m i = ground arith
refused_ingest c s h confirm_ingest k m i = ground arith
refused_ingest c s h _ k m i = cc

-- A manifest that has been consumed is not ingested again by the baseline, train, val or confirm
-- ingests: each later call of `baseline-finalize`, `train-ingest`, `val-ingest` or `confirm-ingest`
-- with it is refused or returns the state it was given. The statement leaves out `test-ingest`,
-- which only records the manifest of a test phase.
pub Reach-no_second_ingest :
    {a c : DomainState} (h name : String) (o : Operation) (s : TransitionInput)
    → is_consumed h a.consumed_manifests ≡ true
    → Reach a c
    → parse_operation name ≡ some o
    → is_ingest o ≡ true
    → s.manifest_hash ≡ some h
    → Returns (λ r. r ≡ c) (transition c name s)
Reach-no_second_ingest {a} {c} h name o s k t e i m =
    transition-stays c s name o e (refused_ingest c s h o (Reach-consumed h k t) m i)
