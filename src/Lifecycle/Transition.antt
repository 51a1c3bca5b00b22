-- ===== src/Lifecycle/Transition.antt =====
-- `transition` and `transition_matrix` of src/asme/lifecycle.py: which branch an operation takes in
-- which state, the refusals, and the event that every change records.
use agentic_skills_lifecycle.Prelude.{
  ◌+◌, String, str_append, Bool, true, false, not, Option, none, some, List, [], ◌∷◌, ◌++◌, map, ok,
  err, ◌>>=◌, ◌>>◌, raise_if, is_some, if◌then◌else◌,
}
use agentic_skills_lifecycle.Float.{float_zero}
use agentic_skills_lifecycle.Contract.{
  LifecycleState, uninitialized, needs_optional_seed, needs_baseline_run, needs_train_run,
  needs_wiki, needs_proposal, needs_val_run, needs_gate, needs_val_confirm, done, state_value,
}
use agentic_skills_lifecycle.Lifecycle.State.{
  Operation, init, seed_observations, rollback_seed, skip_seed, baseline_finalize, train_ingest,
  apply_wiki, apply_proposal_change, apply_proposal_no_action, val_ingest, gate, confirm_ingest,
  abandon, test_prepare, test_ingest, export, package_untested, reset_manifest, recover, status,
  operations, operation_name, parse_operation, DomainState, new_domain, TransitionInput, no_input,
  Step, stay, move, Checked,
}
use agentic_skills_lifecycle.Lifecycle.Branches.{
  on_init, on_seed_observations, on_skip_seed, on_rollback_seed, on_baseline_finalize,
  on_train_ingest, on_apply_wiki, on_apply_proposal_change, on_apply_proposal_no_action,
  on_val_ingest, on_confirm_ingest, on_gate, on_abandon, on_test_prepare, on_test_ingest, on_export,
  on_package_untested, on_reset_manifest,
}

-- The states in which the `elif` conditions let an operation through to its branch.
unfoldable pub is_enabled : Operation → LifecycleState → Bool
is_enabled init uninitialized = true
is_enabled seed_observations needs_optional_seed = true
is_enabled skip_seed needs_optional_seed = true
is_enabled rollback_seed needs_baseline_run = true
is_enabled baseline_finalize needs_baseline_run = true
is_enabled train_ingest needs_train_run = true
is_enabled apply_wiki needs_wiki = true
is_enabled apply_proposal_change needs_proposal = true
is_enabled apply_proposal_no_action needs_proposal = true
is_enabled val_ingest needs_val_run = true
is_enabled confirm_ingest needs_val_confirm = true
is_enabled gate needs_gate = true
is_enabled abandon needs_val_run = true
is_enabled abandon needs_gate = true
is_enabled abandon needs_val_confirm = true
is_enabled test_prepare done = true
is_enabled test_ingest done = true
is_enabled export done = true
is_enabled package_untested done = true
is_enabled reset_manifest needs_baseline_run = true
is_enabled reset_manifest needs_train_run = true
is_enabled reset_manifest needs_wiki = true
is_enabled reset_manifest needs_val_run = true
is_enabled reset_manifest needs_val_confirm = true
is_enabled reset_manifest done = true
is_enabled recover _ = true
is_enabled status _ = true
is_enabled _ _ = false

-- The branch of an operation.
unfoldable pub branch : Operation → DomainState → TransitionInput → Checked Step
branch init c s = on_init c s
branch seed_observations c s = on_seed_observations c s
branch rollback_seed c s = on_rollback_seed c s
branch skip_seed c s = on_skip_seed c s
branch baseline_finalize c s = on_baseline_finalize c s
branch train_ingest c s = on_train_ingest c s
branch apply_wiki c s = on_apply_wiki c s
branch apply_proposal_change c s = on_apply_proposal_change c s
branch apply_proposal_no_action c s = on_apply_proposal_no_action c s
branch val_ingest c s = on_val_ingest c s
branch gate c s = on_gate c s
branch confirm_ingest c s = on_confirm_ingest c s
branch abandon c s = on_abandon c s
branch test_prepare c s = on_test_prepare c s
branch test_ingest c s = on_test_ingest c s
branch export c s = on_export c s
branch package_untested c s = on_package_untested c s
branch reset_manifest c s = on_reset_manifest c s
branch recover c s = do
  raise_if (not (is_some c.txn)) "recover requires a recorded transaction"
  ok stay
branch status c s = ok stay

-- The end of `transition`: a changed state has its revision raised and an event appended.
unfoldable pub finish : DomainState → Operation → Step → DomainState
finish c o stay = c
finish c o (move r) = record r {
  revision = c.revision + 1;
  history = c.history ++ record { operation = o; from = c.state; to = r.state } ∷ [];
}

-- `transition` for a known operation.
unfoldable pub apply_operation : Operation → DomainState → TransitionInput → Checked DomainState
apply_operation o c s =
    if is_enabled o c.state
    then (branch o c s >>= λ r. ok (finish c o r))
    else err (str_append (operation_name o) (str_append " is refused in " (state_value c.state)))

dispatch : Option Operation → String → DomainState → TransitionInput → Checked DomainState
unfolding apply_operation
dispatch none name c s = err (str_append "unknown operation: " name)
dispatch (some o) name c s = apply_operation o c s

-- `transition(current, operation, supplied)`
unfoldable pub transition : DomainState → String → TransitionInput → Checked DomainState
unfolding dispatch
transition c name s = dispatch (parse_operation name) name c s

-- One cell of `transition_matrix`.
unfoldable pub disposition : Checked DomainState → String
disposition (ok t) = str_append "transition:" (state_value t.state)
disposition (err message) = str_append "refused:" message

abbrev pub lifecycle_states : List LifecycleState
lifecycle_states =
    uninitialized ∷ needs_optional_seed ∷ needs_baseline_run ∷ needs_train_run ∷ needs_wiki
    ∷ needs_proposal ∷ needs_val_run ∷ needs_gate ∷ needs_val_confirm ∷ done ∷ []

abbrev matrix_seed : LifecycleState → DomainState
matrix_seed q =
    record (new_domain "matrix" "0000000000000000000000000000000000000000000000000000000000000000" 1
      true) { state = q; best_score = some float_zero }

unfoldable pub matrix_row : LifecycleState → List (String × String)
unfolding transition disposition operation_name
matrix_row q =
    map
      (λ o.
        (operation_name o, disposition (transition (matrix_seed q) (operation_name o) no_input)))
      operations

-- `transition_matrix()`
unfoldable pub transition_matrix : List (String × List (String × String))
unfolding matrix_row
transition_matrix = map (λ q. (state_value q, matrix_row q)) lifecycle_states
