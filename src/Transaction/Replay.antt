-- ===== src/Transaction/Replay.antt =====
-- `_replay`, `read_state`, `_read_initialization_intent`, `_record_intent`, `recover` and the end of
-- `execute` in src/asme/transaction.py.
use agentic_skills_lifecycle.Prelude.{
  ℕ, ◌+◌, ◌/◌, String, str_append, str_eq, Bool, false, not, ◌&&◌, Option, none, some, List, [],
  ◌∷◌, Result, ok, err, length, ltb, ◌==◌, if◌then◌else◌,
}
use agentic_skills_lifecycle.Transaction.Records.{
  PlannedWrite, PlannedDeletion, TransactionRecord, same_record,
}
use agentic_skills_lifecycle.Transaction.Disk.{
  Digests, DiskState, absent, unreadable, holds, Intent, no_intent, damaged, envelope, Failure,
  corruption, crashed, CrashPoint, first_output, mid_output, last_output, output, publication,
  pre_commit, same_point, Action, ◌>>=◌, ◌>>◌, pure, lift, raise_when, modify,
}
use agentic_skills_lifecycle.Transaction.Validate.{get, validate, from_json}
use agentic_skills_lifecycle.Transaction.Materialize.{
  Engine, materialize_write, materialize_deletion,
}

module _ (g : Digests) (engine : Engine) where
  -- `_crash(requested, actual)`
  unfoldable pub crash : Option CrashPoint → CrashPoint → Action (Unit {0})
  crash none actual = pure tt
  crash (some p) actual = raise_when (same_point p actual) (crashed actual)

  -- `read_state`
  unfoldable pub read_state : Action (Option DiskState)
  read_state d = elim d.state_file [
    | absent ↦ (ok none, d)
    | unreadable ↦ (err (corruption "state file is unreadable"), d)
    | holds s ↦ (ok (some s), d)
  ]

  -- The checks of an envelope.
  unfoldable pub checked_intent : Intent → Result Failure (Option Intent)
  checked_intent i =
      if not (str_eq i.domain_id engine.domain_id)
      then err (corruption "initialization intent belongs to another domain")
      else elim (from_json g i.transaction) [
        | err e ↦ err e
        | ok r ↦
            if str_eq i.transaction_sha256 (g.record_digest r)
            then ok (some i)
            else err (corruption "initialization intent hash mismatch")
      ]

  -- `_read_initialization_intent`
  unfoldable pub read_initialization_intent : Action (Option Intent)
  unfolding checked_intent
  read_initialization_intent d = elim d.intent_file [
    | no_intent ↦ (ok none, d)
    | damaged ↦ (err (corruption "initialization intent is unreadable"), d)
    | envelope i ↦ (checked_intent i, d)
  ]

  -- The crash points that follow the output number `point` of `total`.
  unfoldable pub output_crashes : Option CrashPoint → ℕ → ℕ → Action (Unit {0})
  unfolding crash
  output_crashes at total point = do
    if point == 1 then crash at first_output else pure tt
    if ltb 2 total && point == (total + 1) / 2 then crash at mid_output else pure tt
    if point == total then crash at last_output else pure tt
    crash at (output point)

  -- The loop over the writes of a record, from the one with the given index.
  unfoldable pub run_writes : Option CrashPoint → ℕ → ℕ → List PlannedWrite → Action (Unit {0})
  run_writes at total index [] = pure tt
  run_writes at total index (w ∷ ws) = do
    materialize_write g engine w
    output_crashes at total (index + 1)
    run_writes at total (index + 1) ws

  unfoldable pub run_deletions : List PlannedDeletion → Action (Unit {0})
  run_deletions [] = pure tt
  run_deletions (x ∷ xs) = do materialize_deletion g engine x; run_deletions xs

  -- The fingerprints of the record are those of the configured roots.
  unfoldable pub check_roots : List (String × String) → Result Failure (Unit {0})
  unfolding get
  check_roots [] = ok tt
  check_roots ((name, fingerprint) ∷ rest) = elim (get name engine.roots) [
    | none ↦ err (corruption (str_append "governed root binding changed: " name))
    | some f ↦
        let others = check_roots rest in
        if str_eq f fingerprint
        then others
        else err (corruption (str_append "governed root binding changed: " name))
  ]

  abbrev pub is_pending : TransactionRecord → Option DiskState → Bool
  is_pending r none = false
  is_pending r (some s) = elim s.txn [ none ↦ false | some t ↦ same_record t r ]

  -- The state that a committed transaction leaves.
  abbrev pub committed : TransactionRecord → DiskState
  committed r = record { revision = r.next_state.revision; body = r.next_state.body; txn = none }

  unfoldable pub clear_intent : TransactionRecord → Option Intent → Action (Unit {0})
  clear_intent r none = pure tt
  clear_intent r (some i) = do
    raise_when (not (str_eq i.transaction_sha256 (g.record_digest r)))
        (corruption "initialization intent conflicts with transaction")
    modify (λ d. record d { intent_file = no_intent })

  -- The end of `_replay`: the next state is published and the intent is cleared.
  unfoldable pub publish : TransactionRecord → Action DiskState
  unfolding clear_intent read_initialization_intent
  publish r = do
    modify (λ d. record d { state_file = holds (committed r) })
    i ← read_initialization_intent
    clear_intent r i
    pure (committed r)

  -- The outputs of `_replay`, with their crash points.
  unfoldable pub make_outputs : Option CrashPoint → TransactionRecord → Action (Unit {0})
  unfolding run_writes run_deletions
  make_outputs at r = do
    run_writes at (length r.writes) 0 r.writes
    run_deletions r.deletions
    crash at publication
    crash at pre_commit

  -- `_replay(record, crash_at=at)`
  unfoldable pub replay : Option CrashPoint → TransactionRecord → Action DiskState
  unfolding make_outputs publish check_roots read_state
  replay at r = do
    lift (validate g r)
    lift (check_roots r.target_roots)
    s ← read_state
    raise_when (not (is_pending r s))
        (corruption "authoritative state does not contain the replay record")
    make_outputs at r
    publish r
