-- ===== src/Transaction/Laws/Interrupted.antt =====
-- A transaction of src/asme/transaction.py that is interrupted after its intent, and `recover`.
use agentic_skills_lifecycle.Prelude.{
  ◌≡◌, ◌∙◌, ◌⊎◌, inl, inr, refl, sym, ap, Bool, true, false, Option, none, some, [], ok, err, arith,
  eq_refl,
}
use agentic_skills_lifecycle.Transaction.Records.{TransactionRecord, StateDoc}
use agentic_skills_lifecycle.Transaction.Disk.{
  Digests, Disk, DiskState, holds, crashed, CrashPoint, pre_intent, post_intent, Action, ◌>>◌, lift,
  Intent, no_intent,
}
use agentic_skills_lifecycle.Transaction.Validate.{validate, from_json}
use agentic_skills_lifecycle.Transaction.Materialize.{Engine}
use agentic_skills_lifecycle.Transaction.Replay.{
  crash, read_initialization_intent, checked_intent, replay,
}
use agentic_skills_lifecycle.Transaction.Recover.{with_txn, recover, record_intent, execute_record}
use agentic_skills_lifecycle.Transaction.Laws.Actions.{
  interrupted, then-ok, then-err, crash-IsQuiet,
}
use agentic_skills_lifecycle.Transaction.Laws.Locations.{AreSeparate}
use agentic_skills_lifecycle.Transaction.Laws.Recovery.{make_outputs-SameControl}
use agentic_skills_lifecycle.Transaction.Laws.Resume.{replay-crashed, replay-again}
use agentic_skills_lifecycle.Transaction.Laws.Execution.{recover-pending}

module _ (g : Digests) (engine : Engine) (r : TransactionRecord) where
  -- The disk once the intent of a transaction is recorded.
  abbrev pub intended : StateDoc → Bool → Disk → Disk
  intended current initializing d = (record_intent g engine r current initializing d).1

  record_intent-ok :
      (current : StateDoc) (initializing : Bool) (d : Disk)
      → record_intent g engine r current initializing d ≡ (ok tt, intended current initializing d)
  unfolding record_intent
  record_intent-ok current true d = refl
  record_intent-ok current false d = refl

  pub intended-state :
      (current : StateDoc) (initializing : Bool) (d : Disk)
      → (intended current initializing d).state_file ≡ holds (with_txn current r)
  unfolding record_intent
  intended-state current true d = refl
  intended-state current false d = refl

  -- The steps of `execute` after its record is built.
  abbrev pub last_steps : Option CrashPoint → Action DiskState
  last_steps at = crash g engine at post_intent >> replay g engine at r

  -- The way of `execute` to its replay.
  pub execute_record-replays :
      (current : StateDoc) (initializing : Bool) (d : Disk)
      → validate g r ≡ ok tt
      → execute_record g engine none r current initializing d
        ≡ replay g engine none r (intended current initializing d)
  unfolding execute_record crash
  execute_record-replays current initializing d v =
      then-ok (lift (validate g r))
        (crash g engine none pre_intent
          >> (record_intent g engine r current initializing >> last_steps none))
        d d (ap (λ z. (z, d)) v)
      ∙ then-ok (record_intent g engine r current initializing) (last_steps none) d
          (intended current initializing d) (record_intent-ok current initializing d)

  abbrev own_intent : StateDoc → Intent
  own_intent current = record {
    domain_id = engine.domain_id;
    initial_state = current;
    transaction = r;
    transaction_sha256 = g.record_digest r;
    final_state_sha256 = g.state_digest r.next_state;
  }

  pub from_json-validates : from_json g r ≡ ok r → validate g r ≡ ok tt
  unfolding from_json
  from_json-validates f = ground arith

  -- The intent that `execute` has recorded can be read.
  intended-intent :
      (current : StateDoc) (initializing : Bool) (d e : Disk)
      → d.intent_file ≡ no_intent
      → from_json g r ≡ ok r
      → e.intent_file ≡ (intended current initializing d).intent_file
      → (i : Option Intent) × (read_initialization_intent g engine e ≡ (ok i, e))
  unfolding record_intent read_initialization_intent checked_intent
  intended-intent current true d e n f s = (
    some (own_intent current),
    ground (arith, eq_refl engine.domain_id, eq_refl (g.record_digest r)),
  )
  intended-intent current false d e n f s = (none, ground arith)

  -- Where `execute` can be interrupted.
  execute_record-crashed :
      (at : Option CrashPoint) (current : StateDoc) (initializing : Bool) (d d' : Disk)
      (q : CrashPoint)
      → validate g r ≡ ok tt
      → execute_record g engine at r current initializing d ≡ (err (crashed q), d')
      → (d' ≡ d)
        ⊎ (d' ≡ intended current initializing d)
        ⊎ (replay g engine at r (intended current initializing d) ≡ (err (crashed q), d'))
  unfolding execute_record
  execute_record-crashed at current initializing d d' q v h =
      let intent = record_intent g engine r current initializing in
      let now = intended current initializing d in
      let first =
        sym (
          then-ok (lift (validate g r)) (crash g engine at pre_intent >> (intent >> last_steps at))
            d d (ap (λ z. (z, d)) v))
        ∙ h in
      elim (crash-IsQuiet g engine at pre_intent d) [
        | inr (p, a) ↦ inl (
            ap (λ z. z.1)
              (sym first
                ∙ then-err (crash g engine at pre_intent) (intent >> last_steps at) d d (crashed p)
                    a))
        | inl a ↦
            let second =
              sym (
                then-ok (crash g engine at pre_intent) (intent >> last_steps at) d d a
                ∙ then-ok intent (last_steps at) d now (record_intent-ok current initializing d))
              ∙ first in
            elim (crash-IsQuiet g engine at post_intent now) [
              | inr (p, b) ↦ inr (
                  inl (
                    ap (λ z. z.1)
                      (sym second
                        ∙ then-err (crash g engine at post_intent) (replay g engine at r) now now
                            (crashed p) b)))
              | inl b ↦ inr (
                  inr (
                    sym (then-ok (crash g engine at post_intent) (replay g engine at r) now now b)
                    ∙ second))
            ]
      ]

  -- A transaction that is interrupted left the disk as it was, or recovery returns what the
  -- transaction returns without the crash and leaves the same disk. The record is one that
  -- `from_json` reads back, of the engine's own domain, its writes and deletions are at different
  -- files, none of them the state file, and no intent was there before.
  pub execute_record-recovers :
      (at : Option CrashPoint) (current : StateDoc) (initializing : Bool) (d d' : Disk)
      (q : CrashPoint)
      → d.intent_file ≡ no_intent
      → from_json g r ≡ ok r
      → r.domain_id ≡ engine.domain_id
      → AreSeparate g engine r.writes r.deletions
      → execute_record g engine at r current initializing d ≡ (err (crashed q), d')
      → (d' ≡ d)
        ⊎ (recover g engine none d' ≡ execute_record g engine none r current initializing d)
  execute_record-recovers at current initializing d d' q n f own p h =
      let v = from_json-validates f in
      let now = intended current initializing d in
      let straight = execute_record-replays current initializing d v in
      elim (execute_record-crashed at current initializing d d' q v h) [
        | inl same ↦ inl same
        | inr (inl same) ↦
            let (i, readable) =
              intended-intent current initializing d d' n f (ap (λ z. z.intent_file) same) in
            inr (
              recover-pending g engine r d' current i
                (ap (λ z. z.state_file) same ∙ intended-state current initializing d) readable f own
              ∙ ap (λ z. replay g engine none r z) same
              ∙ sym straight)
        | inr (inr crash) ↦
            let (a, b) = replay-crashed g engine r at now d' q crash in
            let (same, files) =
              make_outputs-SameControl g engine r at now d' (err (crashed q)) [] (interrupted q)
                b in
            let (i, readable) = intended-intent current initializing d d' n f same.same_intent in
            inr (
              recover-pending g engine r d' current i
                (same.same_state ∙ intended-state current initializing d) readable f own
              ∙ replay-again g engine r at now d' q p crash
              ∙ sym straight)
      ]
