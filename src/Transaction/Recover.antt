-- ===== src/Transaction/Recover.antt =====
-- `recover`, `_record_intent` and the end of `execute` in src/asme/transaction.py. What `execute`
-- does before it has built its record is in Transaction/Execute.
use agentic_skills_lifecycle.Prelude.{str_eq, Bool, false, not, Option, none, some, if◌then◌else◌}
use agentic_skills_lifecycle.Transaction.Records.{StateDoc, TransactionRecord}
use agentic_skills_lifecycle.Transaction.Disk.{
  Digests, DiskState, holds, Intent, envelope, no_intent, corruption, pending, CrashPoint,
  pre_intent, post_intent, Action, ◌>>=◌, ◌>>◌, pure, lift, raise, raise_when, modify,
}
use agentic_skills_lifecycle.Transaction.Validate.{validate, from_json}
use agentic_skills_lifecycle.Transaction.Materialize.{Engine}
use agentic_skills_lifecycle.Transaction.Replay.{
  crash, read_state, read_initialization_intent, replay,
}

-- A state document with a pending transaction.
abbrev pub with_txn : StateDoc → TransactionRecord → DiskState
with_txn s r = record { revision = s.revision; body = s.body; txn = some r }

abbrev document : DiskState → StateDoc
document s = record { revision = s.revision; has_txn = false; body = s.body }

module _ (g : Digests) (engine : Engine) where
  -- The end of `recover`: the record is read back and replayed.
  unfoldable pub resume : Option CrashPoint → TransactionRecord → Action DiskState
  resume at raw = do
    r ← lift (from_json g raw)
    raise_when (not (str_eq r.domain_id engine.domain_id))
        (corruption "transaction belongs to another domain")
    replay g engine at r

  -- `recover` of a state without a pending transaction.
  unfoldable pub recover_idle : Option CrashPoint → DiskState → Option Intent → Action DiskState
  unfolding resume
  recover_idle at s none = pure s
  recover_idle at s (some i) =
      if str_eq i.final_state_sha256 (g.state_digest (document s))
      then (modify (λ d. record d { intent_file = no_intent }) >> pure s)
      else resume at i.transaction

  -- `recover` where there is no state file: the initialization is started again.
  unfoldable pub recover_absent : Option CrashPoint → Option Intent → Action DiskState
  unfolding resume
  recover_absent at none = raise (pending "no transaction is available to recover")
  recover_absent at (some i) = do
    r ← lift (from_json g i.transaction)
    modify (λ d. record d { state_file = holds (with_txn i.initial_state r) })
    resume at i.transaction

  unfoldable pub recover_from :
      Option CrashPoint → Option DiskState → Option Intent → Action DiskState
  unfolding recover_idle recover_absent
  recover_from at none i = recover_absent at i
  recover_from at (some s) i = elim s.txn [ none ↦ recover_idle at s i | some raw ↦ resume at raw ]

  -- `recover(crash_at=at)`
  unfoldable pub recover : Option CrashPoint → Action DiskState
  unfolding recover_from
  recover at = do
    s ← read_state g engine
    i ← read_initialization_intent g engine
    recover_from at s i

  -- `_record_intent(record, current_state, initializing)`
  unfoldable pub record_intent : TransactionRecord → StateDoc → Bool → Action (Unit {0})
  record_intent r current initializing = do
    if initializing
        then modify (λ d. record d {
          intent_file = envelope (record {
            domain_id = engine.domain_id;
            initial_state = current;
            transaction = r;
            transaction_sha256 = g.record_digest r;
            final_state_sha256 = g.state_digest r.next_state;
          });
        })
        else pure tt
    modify (λ d. record d { state_file = holds (with_txn current r) })

  -- `execute` from the point where its record is built.
  unfoldable pub execute_record :
      Option CrashPoint → TransactionRecord → StateDoc → Bool → Action DiskState
  unfolding record_intent
  execute_record at r current initializing = do
    lift (validate g r)
    crash g engine at pre_intent
    record_intent r current initializing
    crash g engine at post_intent
    replay g engine at r
