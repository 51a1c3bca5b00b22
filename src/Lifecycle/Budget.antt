-- ===== src/Lifecycle/Budget.antt =====
-- The iterations of a domain end: at most `max_iterations` verdicts over any run
-- (src/asme/lifecycle.py).
use agentic_skills_lifecycle.Prelude.{
  ℕ, ◌+◌, ◌≤◌, ◌<◌, ◌≡◌, refl, String, Bool, true, false, List, [], ◌∷◌, ◌++◌, subst, ok, err,
  ◌>>=◌, arith, Bool-cases, inl, inr, Option-cases,
}
use agentic_skills_lifecycle.Float.{Float}
use agentic_skills_lifecycle.Contract.{LifecycleState, needs_train_run, done}
use agentic_skills_lifecycle.Lifecycle.State.{
  Operation, apply_proposal_no_action, gate, abandon, export, package_untested, parse_operation,
  Event, DomainState, TransitionInput, new_domain, Step, stay, move, Checked,
}
use agentic_skills_lifecycle.Lifecycle.Manifests.{
  advance_iteration, consume_manifest, record_current_manifest,
}
use agentic_skills_lifecycle.Lifecycle.Transition.{
  is_enabled, branch, finish, apply_operation, transition,
}
use agentic_skills_lifecycle.Lifecycle.Branches.{
  on_init, on_seed_observations, on_skip_seed, on_rollback_seed, on_baseline_finalize,
  baseline_state, on_train_ingest, on_apply_wiki, on_apply_proposal_change,
  on_apply_proposal_no_action, on_val_ingest, on_confirm_ingest, on_gate, on_abandon,
  on_test_prepare, on_test_ingest, on_export, export_first, on_package_untested, on_reset_manifest,
  gate_outcome, gate_accept, gate_provisional, gate_confirm, gate_reject, abandon_owned,
}
use agentic_skills_lifecycle.Lifecycle.Invariant.Defs.{IsWellFormed, is_scored, is_iterating}
use agentic_skills_lifecycle.Lifecycle.Outcomes.{Keeps, Returns}
use agentic_skills_lifecycle.Lifecycle.Reach.{Reach, here, next, Reach-IsWellFormed}
use agentic_skills_lifecycle.Lifecycle.Invariant.Setup.{new_domain-IsWellFormed}

-- 1 for an operation that judges a proposal, where it ends the iteration.
abbrev pub ended : Operation → LifecycleState → ℕ
ended apply_proposal_no_action q = 1
ended abandon q = 1
ended gate needs_train_run = 1
ended gate done = 1
ended _ _ = 0

-- The iterations that a history has ended.
abbrev pub endings : List Event → ℕ
endings [] = 0
endings (e ∷ es) = ended e.operation e.to + endings es

endings-append :
    (es : List Event) (e : Event) → endings (es ++ e ∷ []) ≡ endings es + ended e.operation e.to
endings-append [] e = omega arith
endings-append (x ∷ es) e = omega (arith, endings-append es e)

-- `n` iterations have ended: none before the baseline, and all but the current one while one runs.
pub record IsBudgeted (n : ℕ) (c : DomainState) : Type 0 where
  pub unstarted : is_scored c.state ≡ false → n ≡ 0
  pub running : is_iterating c.state ≡ true → n + 1 ≡ c.iteration
  pub within : n ≤ c.max_iterations

gate_ends : (d : DomainState) → ended gate (advance_iteration d).state ≡ 1
unfolding advance_iteration
gate_ends d = ground arith

module _ (n : ℕ) (c : DomainState) (s : TransitionInput) (w : IsWellFormed c)
    (b : IsBudgeted n c) where
  advance_iteration-IsBudgeted :
      (d : DomainState)
      → is_iterating c.state ≡ true
      → d.iteration ≡ c.iteration
      → d.max_iterations ≡ c.max_iterations
      → IsBudgeted (n + 1) (advance_iteration d)
  unfolding advance_iteration
  advance_iteration-IsBudgeted d q i m = ground arith

  judged-IsBudgeted :
      (d : DomainState)
      → is_iterating c.state ≡ true
      → d.iteration ≡ c.iteration
      → d.max_iterations ≡ c.max_iterations
      → IsBudgeted (n + ended gate (advance_iteration d).state) (advance_iteration d)
  judged-IsBudgeted d q i m = rw (gate_ends d) (advance_iteration-IsBudgeted d q i m)

  gate_accept-IsBudgeted :
      (x : Float)
      → is_iterating c.state ≡ true
      → Keeps (λ r. IsBudgeted (n + ended gate r.state) r) (gate_accept c x)
  unfolding gate_accept consume_manifest
  gate_accept-IsBudgeted x q = grind (arith, judged-IsBudgeted)

  gate_provisional-IsBudgeted :
      is_iterating c.state ≡ true
      → Keeps (λ r. IsBudgeted (n + ended gate r.state) r) (gate_provisional c)
  unfolding gate_provisional consume_manifest
  gate_provisional-IsBudgeted q = ground arith

  gate_confirm-IsBudgeted :
      (x : Float)
      → is_iterating c.state ≡ true
      → Keeps (λ r. IsBudgeted (n + ended gate r.state) r) (gate_confirm c x)
  unfolding gate_confirm consume_manifest
  gate_confirm-IsBudgeted x q = grind (arith, judged-IsBudgeted)

  gate_reject-IsBudgeted :
      is_iterating c.state ≡ true
      → Keeps (λ r. IsBudgeted (n + ended gate r.state) r) (gate_reject c)
  unfolding gate_reject consume_manifest
  gate_reject-IsBudgeted q = grind (arith, judged-IsBudgeted)

  gate-IsBudgeted :
      (x y : Float)
      → is_iterating c.state ≡ true
      → Keeps (λ r. IsBudgeted (n + ended gate r.state) r) (gate_outcome c x y)
  unfolding gate_outcome
  gate-IsBudgeted x y q = ground (
    arith,
    gate_accept-IsBudgeted x,
    gate_provisional-IsBudgeted,
    gate_confirm-IsBudgeted x,
    gate_reject-IsBudgeted,
  )

  branch-IsBudgeted :
      (o : Operation)
      → is_enabled o c.state ≡ true
      → Keeps (λ r. IsBudgeted (n + ended o r.state) r) (branch o c s)
  unfolding branch is_enabled on_init on_seed_observations on_skip_seed on_rollback_seed
      on_baseline_finalize baseline_state on_train_ingest record_current_manifest on_apply_wiki
      on_apply_proposal_change on_apply_proposal_no_action on_val_ingest on_confirm_ingest on_gate
      on_abandon abandon_owned on_test_prepare on_test_ingest on_export export_first
      on_package_untested on_reset_manifest consume_manifest
  branch-IsBudgeted apply_proposal_no_action e =
      advance_iteration-IsBudgeted c (ground arith) refl refl
  branch-IsBudgeted abandon e = grind (arith, advance_iteration-IsBudgeted)
  branch-IsBudgeted gate e = grind (arith, gate-IsBudgeted)
  branch-IsBudgeted export e = ground arith
  branch-IsBudgeted package_untested e = ground arith
  branch-IsBudgeted _ e = ground arith

finish-IsBudgeted :
    (c : DomainState) (o : Operation) (m : Checked Step)
    → IsBudgeted (endings c.history) c
    → Keeps (λ r. IsBudgeted (endings c.history + ended o r.state) r) m
    → Returns (λ r. IsBudgeted (endings r.history) r) (m >>= λ r. ok (finish c o r))
unfolding finish
finish-IsBudgeted c o (ok stay) b k = b
finish-IsBudgeted c o (ok (move r)) b k =
    ground
      (arith, endings-append c.history (record { operation = o; from = c.state; to = r.state }))
finish-IsBudgeted c o (err x) b k = tt

transition-IsBudgeted :
    (c : DomainState) (name : String) (s : TransitionInput)
    → IsWellFormed c
    → IsBudgeted (endings c.history) c
    → Returns (λ r. IsBudgeted (endings r.history) r) (transition c name s)
unfolding transition apply_operation
transition-IsBudgeted c name s w b = elim (Option-cases (parse_operation name)) [
  | inl z ↦ rw z tt
  | inr (o, z) ↦ rw z (elim (Bool-cases (is_enabled o c.state)) [
    | inl e ↦
        rw e (
          finish-IsBudgeted c o (branch o c s) b
            (branch-IsBudgeted (endings c.history) c s w b o e))
    | inr e ↦ rw e tt
  ])
]

Reach-IsBudgeted :
    {a c : DomainState}
    → IsWellFormed a
    → IsBudgeted (endings a.history) a
    → Reach a c
    → IsBudgeted (endings c.history) c
Reach-IsBudgeted w b here = b
Reach-IsBudgeted w b (next {c} name s t e) =
    subst (Returns (λ r. IsBudgeted (endings r.history) r)) e
      (transition-IsBudgeted c name s (Reach-IsWellFormed w t) (Reach-IsBudgeted w b t))

new_domain-IsBudgeted :
    (domain_id seal : String) (n : ℕ) (confirm : Bool)
    → IsBudgeted
        (endings (new_domain domain_id seal n confirm).history)
        (new_domain domain_id seal n confirm)
unfolding new_domain
new_domain-IsBudgeted domain_id seal n confirm = ground arith

-- Over any run of a new domain with at least one iteration, no more iterations have ended than
-- `max_iterations`, and while one runs it is the next one.
pub Reach-endings :
    (domain_id seal : String) (n : ℕ) (confirm : Bool) {c : DomainState}
    → 0 < n
    → Reach (new_domain domain_id seal n confirm) c
    → (endings c.history ≤ c.max_iterations)
      × (is_iterating c.state ≡ true → endings c.history + 1 ≡ c.iteration)
Reach-endings domain_id seal n confirm {c} h t =
    let b =
      Reach-IsBudgeted (new_domain-IsWellFormed domain_id seal n confirm h)
        (new_domain-IsBudgeted domain_id seal n confirm) t in
    (b.within, b.running)
