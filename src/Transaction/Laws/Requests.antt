-- ===== src/Transaction/Laws/Requests.antt =====
-- `execute` of src/asme/transaction.py that is interrupted, and `recover`.
use agentic_skills_lifecycle.Prelude.{
  ◌≡◌, ◌∙◌, ◌⊎◌, inl, inr, sym, ap, subst, Bool, true, not, Option, none, Result, ok, err, is_some,
  arith,
}
use agentic_skills_lifecycle.Transaction.Records.{TransactionRecord, StateDoc}
use agentic_skills_lifecycle.Transaction.Disk.{
  Digests, Disk, DiskState, Failure, crashed, CrashPoint, pre_intent, ◌>>=◌, ◌>>◌, lift, no_intent,
}
use agentic_skills_lifecycle.Transaction.Validate.{validate, from_json, are_items}
use agentic_skills_lifecycle.Transaction.Materialize.{Engine}
use agentic_skills_lifecycle.Transaction.Replay.{crash, read_state}
use agentic_skills_lifecycle.Transaction.Recover.{recover, record_intent, execute_record}
use agentic_skills_lifecycle.Transaction.Request.{Request, PlanDigests}
use agentic_skills_lifecycle.Transaction.Execute.{prepare, execute}
use agentic_skills_lifecycle.Transaction.Laws.Actions.{bind-ok, bind-cases, then-cases}
use agentic_skills_lifecycle.Transaction.Laws.Locations.{AreSeparate}
use agentic_skills_lifecycle.Transaction.Laws.Prepare.{
  IsRecordOf, read_state-IsReader, prepare-IsReader, prepare-IsRecordOf,
}
use agentic_skills_lifecycle.Transaction.Laws.Interrupted.{execute_record-recovers, last_steps}

module _ (g : Digests) (plan : PlanDigests) (engine : Engine) where
  -- The items of a request are ones that their constructors accept.
  abbrev pub HasItems : Request → Type 0
  HasItems q = are_items q.reads q.tree_reads q.absences q.deletions ≡ true

  -- A validated record of such a request is read back as it is.
  pub IsRecordOf-reads :
      (q : Request) (r : TransactionRecord)
      → HasItems q
      → IsRecordOf g plan engine q r
      → validate g r ≡ ok tt
      → from_json g r ≡ ok r
  unfolding from_json
  IsRecordOf-reads q r i o v =
      let a = o.own_reads in
      let b = o.own_tree_reads in let c = o.own_absences in let e = o.own_deletions in ground arith

  -- The record of a request has the effects of the request.
  pub IsRecordOf-AreSeparate :
      (q : Request) (r : TransactionRecord)
      → IsRecordOf g plan engine q r
      → AreSeparate g engine q.writes q.deletions
      → AreSeparate g engine r.writes r.deletions
  IsRecordOf-AreSeparate q r o u =
      subst (λ ws. AreSeparate g engine ws r.deletions) (sym o.own_writes)
        (subst (λ xs. AreSeparate g engine q.writes xs) (sym o.own_deletions) u)

  -- How `execute` goes once its record is built.
  pub execute-prepared :
      (at : Option CrashPoint) (q : Request) (d : Disk) (s : Option DiskState)
      (r : TransactionRecord)
      → read_state g engine d ≡ (ok s, d)
      → prepare g plan engine q s d ≡ (ok r, d)
      → execute g plan engine at q d
        ≡ execute_record g engine at r q.current_state (not (is_some s)) d
  unfolding execute
  execute-prepared at q d s r a b =
      bind-ok (read_state g engine)
        (λ t. prepare g plan engine q t >>= λ x.
          execute_record g engine at x q.current_state (not (is_some t)))
        d d s a
      ∙ bind-ok (prepare g plan engine q s)
          (λ x. execute_record g engine at x q.current_state (not (is_some s))) d d r b

  -- Where `execute` ends: before its record is built, or in its steps after that.
  pub execute-cases :
      (at : Option CrashPoint) (q : Request) (d d' : Disk) (x : Result Failure DiskState)
      → execute g plan engine at q d ≡ (x, d')
      → (d' ≡ d)
        ⊎ ((s : Option DiskState) × (r : TransactionRecord) × (read_state g engine d ≡ (ok s, d))
            × (prepare g plan engine q s d ≡ (ok r, d))
            × IsRecordOf g plan engine q r)
  unfolding execute
  execute-cases at q d d' x h =
      let rest = λ (t : Option DiskState). prepare g plan engine q t >>= λ r.
      execute_record g engine at r q.current_state (not (is_some t)) in
      elim (bind-cases (read_state g engine) rest d d' x h) [
        | inr (c, a, e) ↦ inl (sym (ap (λ z. z.1) a) ∙ read_state-IsReader g plan engine d)
        | inl (s, e, a, more) ↦
            let same = sym (ap (λ z. z.1) a) ∙ read_state-IsReader g plan engine d in
            elim (bind-cases (prepare g plan engine q s)
              (λ r. execute_record g engine at r q.current_state (not (is_some s))) e d' x more) [
                | inr (c, b, z) ↦
                    inl (sym (ap (λ z. z.1) b) ∙ prepare-IsReader g plan engine q s e ∙ same)
                | inl (r, f, b, end) ↦
                    let kept = sym (ap (λ z. z.1) b) ∙ prepare-IsReader g plan engine q s e in
                    inr (
                      s,
                      r,
                      a ∙ ap (λ z. (ok s, z)) same,
                      ap (λ z. prepare g plan engine q s z) (sym same)
                          ∙ b
                          ∙ ap (λ z. (ok r, z)) (kept ∙ same),
                      prepare-IsRecordOf g plan engine q s e f r b,
                    )
              ]
      ]

  -- A record whose steps were interrupted was validated.
  execute_record-validated :
      (at : Option CrashPoint) (r : TransactionRecord) (current : StateDoc) (initializing : Bool)
      (d d' : Disk) (x : Result Failure DiskState)
      → execute_record g engine at r current initializing d ≡ (x, d')
      → (d' ≡ d) ⊎ (validate g r ≡ ok tt)
  unfolding execute_record
  execute_record-validated at r current initializing d d' x h =
      elim (then-cases (lift (validate g r))
        (crash g engine at pre_intent
          >> (record_intent g engine r current initializing >> last_steps g engine r at))
        d d' x h) [
          | inl (e, a, rest) ↦ inr (ap (λ z. z.0) a)
          | inr (c, a, e) ↦ inl (sym (ap (λ z. z.1) a))
        ]

  -- A transaction that is interrupted left the disk as it was, or recovery returns what the
  -- transaction returns without the crash and leaves the same disk. No initialization intent was
  -- there before, the items of the request are ones that their constructors accept, and its writes
  -- and deletions are at different files, none of them the state file.
  pub execute-recovers :
      (at : Option CrashPoint) (q : Request) (d d' : Disk) (p : CrashPoint)
      → d.intent_file ≡ no_intent
      → HasItems q
      → AreSeparate g engine q.writes q.deletions
      → execute g plan engine at q d ≡ (err (crashed p), d')
      → (d' ≡ d) ⊎ (recover g engine none d' ≡ execute g plan engine none q d)
  execute-recovers at q d d' p n i u h = elim (execute-cases at q d d' (err (crashed p)) h) [
    | inl same ↦ inl same
    | inr (s, r, a, b, o) ↦
        let start = not (is_some s) in
        let steps = sym (execute-prepared at q d s r a b) ∙ h in
        elim (execute_record-validated at r q.current_state start d d' (err (crashed p)) steps) [
          | inl same ↦ inl same
          | inr v ↦
              elim (execute_record-recovers g engine r at q.current_state start d d' p n
                (IsRecordOf-reads q r i o v) o.own_domain (IsRecordOf-AreSeparate q r o u) steps) [
                  | inl same ↦ inl same
                  | inr e ↦ inr (e ∙ sym (execute-prepared none q d s r a b))
                ]
        ]
  ]
