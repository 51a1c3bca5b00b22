-- ===== src/Transaction/Execute.antt =====
-- `TransactionEngine.execute` of src/asme/transaction.py.
use agentic_skills_lifecycle.Prelude.{
  String, str_eq, Bool, false, not, ◌&&◌, Option, none, some, List, [], ◌∷◌, ◌++◌, map, Result, ok,
  err, is_some, ◌==◌, str_sort, str_distinct, Dict, sort_keys,
}
use agentic_skills_lifecycle.Transaction.Records.{StateDoc, TransactionRecord}
use agentic_skills_lifecycle.Transaction.Disk.{
  Digests, DiskState, Failure, contract, pending, CrashPoint, Action, ◌>>=◌, ◌>>◌, lift, raise_when,
}
use agentic_skills_lifecycle.Transaction.Validate.{get, identifier}
use agentic_skills_lifecycle.Transaction.Materialize.{Engine}
use agentic_skills_lifecycle.Transaction.Replay.{read_state}
use agentic_skills_lifecycle.Transaction.Recover.{execute_record}
use agentic_skills_lifecycle.Transaction.Request.{
  Request, PlanDigests, normalized_hashes, validate_dependency_bindings, validate_hash_map,
  validate_value_preconditions, cleared,
}
use agentic_skills_lifecycle.Transaction.Preconditions.{validate_plan_preconditions}

unfoldable pub touched_roots : Request → List String
touched_roots q = str_sort (
    str_distinct (
      map (λ w. w.root) q.writes
      ++ map (λ x. x.root) q.deletions
      ++ map (λ x. x.root) q.reads
      ++ map (λ x. x.root) q.tree_reads
      ++ map (λ x. x.root) q.absences
      ++ "domain" ∷ []))

-- The roots with their fingerprints; `none` is the `KeyError` of a root that is not configured.
unfoldable pub fingerprints : Dict String → List String → Option (Dict String)
fingerprints roots [] = some []
fingerprints roots (name ∷ names) = elim (get name roots) [
  | none ↦ none
  | some f ↦ elim (fingerprints roots names) [ none ↦ none | some rest ↦ some ((name, f) ∷ rest) ]
]

-- The state on disk is the one that the caller read.
unfoldable pub same_document : DiskState → StateDoc → Bool
same_document s c = s.revision == c.revision && str_eq s.body c.body && not c.has_txn

unfoldable pub has_pending : Option DiskState → Bool
has_pending none = false
has_pending (some s) = is_some s.txn

unfoldable pub differs : Option DiskState → StateDoc → Bool
unfolding same_document
differs none c = false
differs (some s) c = not (same_document s c)

module _ (g : Digests) (plan : PlanDigests) (engine : Engine) where
  -- The record of a request.
  unfoldable pub build_record : Request → Dict String → Result Failure TransactionRecord
  unfolding fingerprints touched_roots
  build_record q hashes = elim (identifier q.operation "operation") [
    | err e ↦ err e
    | ok t ↦ elim (fingerprints engine.roots (touched_roots q)) [
      | none ↦ err (contract "KeyError")
      | some targets ↦
          let arguments = map (λ e. (e.0, plan.argument_text e.1)) q.arguments in
          ok (record {
            schema = "asme.transaction.v2";
            transaction_id = g.transaction_id q.operation q.current_state.revision arguments hashes;
            domain_id = engine.domain_id;
            operation = q.operation;
            base_revision = q.current_state.revision;
            arguments = arguments;
            input_hashes = sort_keys hashes;
            reads = q.reads;
            tree_reads = q.tree_reads;
            absences = q.absences;
            writes = q.writes;
            deletions = q.deletions;
            next_state = cleared g plan q.next_state;
            target_roots = targets;
          })
    ]
  ]

  -- The checks of a request whose input hashes are normalized, and its record.
  unfoldable pub plan_record : Request → Dict String → Action TransactionRecord
  unfolding build_record
  plan_record q hashes = do
    lift (validate_dependency_bindings g plan q hashes)
    lift (validate_hash_map g plan hashes)
    lift (validate_value_preconditions g plan q.values hashes)
    validate_plan_preconditions g plan engine q
    lift (build_record q hashes)

  -- The comparison of a request with the state on the disk.
  unfoldable pub check_current : Request → Option DiskState → Action (Unit {0})
  unfolding has_pending differs
  check_current q s = do
    raise_when (has_pending s) (pending "recover the pending transaction first")
    raise_when (differs s q.current_state)
        (contract "current_state does not match authoritative state")

  -- The checks of `execute` after it has read the state, and the record that it builds.
  unfoldable pub prepare : Request → Option DiskState → Action TransactionRecord
  unfolding plan_record check_current
  prepare q s = do
    check_current q s
    hashes ← lift (normalized_hashes g plan q)
    plan_record q hashes

  -- `execute(..., crash_at=at)`
  unfoldable pub execute : Option CrashPoint → Request → Action DiskState
  unfolding prepare
  execute at q = do
    s ← read_state g engine
    r ← prepare q s
    execute_record g engine at r q.current_state (not (is_some s))
