-- ===== src/Transaction/Laws/Commits.antt =====
-- `execute` of src/asme/transaction.py, from its preconditions to the state that it commits.
use agentic_skills_lifecycle.Prelude.{
  ◌≡◌, ◌∙◌, inl, inr, refl, sym, ap, subst, String, eq_refl, Bool, true, false, not, Option, none,
  some, List, [], ◌∷◌, ◌++◌, ok, is_some, arith, length, Option-cases, Dict,
}
use agentic_skills_lifecycle.Transaction.Records.{TransactionRecord, StateDoc, same_record_iff}
use agentic_skills_lifecycle.Transaction.Disk.{
  Digests, Disk, DiskState, holds, no_intent, ◌>>=◌, ◌>>◌, lift,
}
use agentic_skills_lifecycle.Transaction.Validate.{
  get, validate, from_json, write_keys, delete_keys,
}
use agentic_skills_lifecycle.Transaction.Materialize.{Engine}
use agentic_skills_lifecycle.Transaction.Replay.{
  crash, read_state, read_initialization_intent, checked_intent, clear_intent, check_roots,
  make_outputs, publish, committed, replay,
}
use agentic_skills_lifecycle.Transaction.Recover.{with_txn, record_intent}
use agentic_skills_lifecycle.Transaction.Request.{
  Request, PlanDigests, normalized_hashes, validate_dependency_bindings, validate_hash_map,
  validate_value_preconditions,
}
use agentic_skills_lifecycle.Transaction.Preconditions.{
  check_keys, check_writes, check_deletions, check_reads, check_trees, check_absences,
  validate_plan_preconditions,
}
use agentic_skills_lifecycle.Transaction.Execute.{
  fingerprints, touched_roots, build_record, plan_record, check_current, prepare, execute,
}
use agentic_skills_lifecycle.Transaction.Laws.Actions.{returned, then-ok}
use agentic_skills_lifecycle.Transaction.Laws.Prepare.{
  prepare-IsRecordOf, bind-reads, then-reads, check_keys-IsReader, check_writes-IsReader,
  check_deletions-IsReader, check_current-IsReader, validate_plan_preconditions-IsReader,
}
use agentic_skills_lifecycle.Transaction.Laws.Recovery.{make_outputs-SameControl}
use agentic_skills_lifecycle.Transaction.Laws.Resume.{checks, replay-parts}
use agentic_skills_lifecycle.Transaction.Laws.Execution.{IsCommitted, replay-IsCommitted}
use agentic_skills_lifecycle.Transaction.Laws.Interrupted.{
  intended, intended-state, execute_record-replays, from_json-validates,
}
use agentic_skills_lifecycle.Transaction.Laws.Requests.{
  HasItems, IsRecordOf-reads, IsRecordOf-AreSeparate, execute-prepared,
}
use agentic_skills_lifecycle.Transaction.Tree.{look, bytes_of}
use agentic_skills_lifecycle.Transaction.Laws.Locations.{AreSeparate, write_paths}
use agentic_skills_lifecycle.Transaction.Laws.Rooms.{are_parallel, HaveRoom, AreClear}
use agentic_skills_lifecycle.Transaction.Laws.Ready.{
  AreWritable, AreRemovable, AreWritable-moved, AreRemovable-moved, run_writes-ends,
}
use agentic_skills_lifecycle.Transaction.Laws.Drops.{run_deletions-ends, AreRemovable-written}
use agentic_skills_lifecycle.Transaction.Laws.Checked.{
  check_writes-AreWritable, check_deletions-AreRemovable,
}

module _ (g : Digests) (plan : PlanDigests) (engine : Engine) where
  -- What `prepare` has checked of the outputs of a request.
  checked-outputs :
      (q : Request) (d d' : Disk) (t : Unit {0})
      → validate_plan_preconditions g plan engine q d ≡ (ok t, d')
      → (check_writes g plan engine q.writes d ≡ (ok tt, d))
        × (check_deletions g plan engine q.deletions d ≡ (ok tt, d))
  unfolding validate_plan_preconditions
  checked-outputs q d d' t h =
      let ws = check_writes g plan engine q.writes in
      let ds = check_deletions g plan engine q.deletions in
      let ks = write_keys q.writes ++ delete_keys q.deletions in
      let rest =
        check_reads g plan engine q.reads
        >> (check_trees g plan engine q.tree_reads >> check_absences g plan engine q.absences) in
      let (k, a) =
        then-reads (check_keys g plan engine [] ks) (ws >> (ds >> rest)) d d' t
          (check_keys-IsReader g plan engine [] ks) h in
      let (w, b) =
        then-reads ws (ds >> rest) d d' t (check_writes-IsReader g plan engine q.writes) a in
      let (x, c) =
        then-reads ds rest d d' t (check_deletions-IsReader g plan engine q.deletions) b in
      (w, x)

  prepare-outputs :
      (q : Request) (s : Option DiskState) (d d' : Disk) (r : TransactionRecord)
      → prepare g plan engine q s d ≡ (ok r, d')
      → (check_writes g plan engine q.writes d ≡ (ok tt, d))
        × (check_deletions g plan engine q.deletions d ≡ (ok tt, d))
  unfolding prepare plan_record
  prepare-outputs q s d d' r h =
      let normal = lift (normalized_hashes g plan q) in
      let plan_of = plan_record g plan engine q in
      let (x, a) =
        then-reads (check_current g plan engine q s) (normal >>= plan_of) d d' r
          (check_current-IsReader g plan engine q s) h in
      let (hashes, y, b) = bind-reads normal plan_of d d' r (λ d. refl) a in
      let bindings = lift (validate_dependency_bindings g plan q hashes) in
      let shape = lift (validate_hash_map g plan hashes) in
      let values = lift (validate_value_preconditions g plan q.values hashes) in
      let outputs = validate_plan_preconditions g plan engine q in
      let built = lift (build_record g plan engine q hashes) in
      let (z, c) =
        then-reads bindings (shape >> (values >> (outputs >> built))) d d' r (λ d. refl) b in
      let (u, e) = then-reads shape (values >> (outputs >> built)) d d' r (λ d. refl) c in
      let (v, f) = then-reads values (outputs >> built) d d' r (λ d. refl) e in
      let (w, i) =
        then-reads outputs built d d' r (validate_plan_preconditions-IsReader g plan engine q) f in
      checked-outputs q d d tt w

  -- The fingerprints of the record are those of the engine.
  fingerprints-check_roots :
      (names : List String) (targets : Dict String)
      → fingerprints engine.roots names ≡ some targets
      → check_roots g engine targets ≡ ok tt
  unfolding fingerprints check_roots
  fingerprints-check_roots [] targets h = ground arith
  fingerprints-check_roots (n ∷ names) targets h = elim (Option-cases (get n engine.roots)) [
    | inl e ↦ absurd (ground arith)
    | inr (f, e) ↦ elim (Option-cases (fingerprints engine.roots names)) [
      | inl x ↦ absurd (ground arith)
      | inr (rest, x) ↦
          let others = fingerprints-check_roots names rest x in ground (arith, eq_refl f)
    ]
  ]

module _ (g : Digests) (engine : Engine) (r : TransactionRecord) where
  -- The publication of a transaction whose intent is its own.
  publish-ends :
      (current : StateDoc) (initializing : Bool) (d e : Disk)
      → d.intent_file ≡ no_intent
      → from_json g r ≡ ok r
      → e.intent_file ≡ (intended g engine r current initializing d).intent_file
      → (e' : Disk) × (publish g engine r e ≡ (ok (committed g engine r), e'))
  unfolding publish record_intent read_initialization_intent checked_intent clear_intent
  publish-ends current true d e n f s = (
    record e { state_file = holds (committed g engine r); intent_file = no_intent },
    ground (arith, eq_refl engine.domain_id, eq_refl (g.record_digest r)),
  )
  publish-ends current false d e n f s =
      (record e { state_file = holds (committed g engine r) }, ground arith)

  -- The checks of a replay of the transaction that the state holds.
  checks-pass :
      (current : StateDoc) (d : Disk)
      → validate g r ≡ ok tt
      → check_roots g engine r.target_roots ≡ ok tt
      → d.state_file ≡ holds (with_txn current r)
      → checks g engine r d ≡ (ok tt, d)
  unfolding read_state
  checks-pass current d v c s = ground (arith, (same_record_iff r r).1 refl)

  -- The outputs end where they can be made.
  outputs-end :
      (d : Disk)
      → AreSeparate g engine r.writes r.deletions
      → are_parallel (write_paths g engine r.writes) ≡ true
      → AreWritable g engine r.writes d
      → AreRemovable g engine r.deletions d
      → (e : Disk) × (make_outputs g engine none r d ≡ (ok tt, e))
  unfolding make_outputs crash
  outputs-end d p u a b =
      let (e, x) = run_writes-ends g engine (length r.writes) 0 r.writes d u a in
      let kept =
        AreRemovable-written g engine r.writes r.deletions (length r.writes) d e x p.disjoint b in
      let (f, y) = run_deletions-ends g engine r.deletions e kept in (f, ground arith)

  intended-tree :
      (current : StateDoc) (initializing : Bool) (d : Disk)
      → (intended g engine r current initializing d).tree ≡ d.tree
  unfolding record_intent
  intended-tree current true d = refl
  intended-tree current false d = refl

  -- A replay of a recorded intent ends.
  replay-ends :
      (current : StateDoc) (initializing : Bool) (d : Disk)
      → d.intent_file ≡ no_intent
      → from_json g r ≡ ok r
      → check_roots g engine r.target_roots ≡ ok tt
      → AreSeparate g engine r.writes r.deletions
      → are_parallel (write_paths g engine r.writes) ≡ true
      → AreWritable g engine r.writes d
      → AreRemovable g engine r.deletions d
      → (d' : Disk) × (replay g engine none r (intended g engine r current initializing d)
          ≡ (ok (committed g engine r), d'))
  replay-ends current initializing d n f c p u a b =
      let v = from_json-validates g engine r f in
      let now = intended g engine r current initializing d in
      let files = intended-tree current initializing d in
      let outputs = make_outputs g engine none r in
      let (e, x) =
        outputs-end now p u (AreWritable-moved g engine r.writes d now files a)
          (AreRemovable-moved g engine r.deletions d now files b) in
      let (same, others) =
        make_outputs-SameControl g engine r none now e (ok tt) [] (returned tt) x in
      let (d', y) = publish-ends current initializing d e n f same.same_intent in
      let start = checks-pass current now v c (intended-state g engine r current initializing d) in
      (
        d',
        replay-parts g engine r none now
            ∙ then-ok (checks g engine r) (outputs >> publish g engine r) now now start
            ∙ then-ok outputs (publish g engine r) now e x
            ∙ y,
      )

  -- A committed transaction, seen from before its intent.
  intended-IsCommitted :
      (current : StateDoc) (initializing : Bool) (d d' : Disk)
      → IsCommitted g engine r (intended g engine r current initializing d) d'
      → IsCommitted g engine r d d'
  intended-IsCommitted current initializing d d' c = record {
    written = c.written;
    removed = c.removed;
    untouched = λ k i j.
        c.untouched k i j ∙ ap (λ z. bytes_of (look k z)) (intended-tree current initializing d);
    state = c.state;
    idle = c.idle;
  }

module _ (g : Digests) (plan : PlanDigests) (engine : Engine) where
  -- The outputs of a request whose record was built and validated can be made.
  prepare-ready :
      (q : Request) (s : Option DiskState) (d : Disk) (r : TransactionRecord)
      → prepare g plan engine q s d ≡ (ok r, d)
      → validate g r ≡ ok tt
      → HaveRoom g engine q.writes d
      → AreWritable g engine r.writes d
        × AreRemovable g engine r.deletions d
        × (check_roots g engine r.target_roots ≡ ok tt)
  unfolding validate
  prepare-ready q s d r h v room =
      let o = prepare-IsRecordOf g plan engine q s d d r h in
      let (w, x) = prepare-outputs g plan engine q s d d r h in
      (
        check_writes-AreWritable g plan engine r.writes d (ground arith)
            (subst (λ ws. HaveRoom g engine ws d) (sym o.own_writes) room)
            (ap (λ z. check_writes g plan engine z d) o.own_writes ∙ w),
        check_deletions-AreRemovable g plan engine r.deletions d
            (ap (λ z. check_deletions g plan engine z d) o.own_deletions ∙ x),
        fingerprints-check_roots g plan engine (touched_roots q) r.target_roots o.own_roots,
      )

  -- A request that passes the checks of `execute` up to its record, whose record is valid, whose
  -- writes and deletions are at different files, none of them the state file, and whose writes each
  -- find directories or nothing on their way, none on the way of another, is committed where no
  -- crash is requested: `execute` returns the next state, every write is there, every deletion is
  -- gone, every other regular file is as before and there is no new one, the next state is on the
  -- disk without a pending transaction, and no initialization intent is left. No intent was there
  -- before, and the items of the request are ones that their constructors accept.
  pub execute-commits :
      (q : Request) (d : Disk) (s : Option DiskState) (r : TransactionRecord)
      → d.intent_file ≡ no_intent
      → HasItems g plan engine q
      → read_state g engine d ≡ (ok s, d)
      → prepare g plan engine q s d ≡ (ok r, d)
      → validate g r ≡ ok tt
      → AreSeparate g engine q.writes q.deletions
      → AreClear g engine q.writes d
      → (d' : Disk) × (execute g plan engine none q d ≡ (ok (committed g engine r), d'))
        × IsCommitted g engine r d d'
  execute-commits q d s r n i a b v u y =
      let o = prepare-IsRecordOf g plan engine q s d d r b in
      let (w, x, c) = prepare-ready q s d r b v y.rooms in
      let apart = IsRecordOf-AreSeparate g plan engine q r o u in
      let wide = ap (λ ws. are_parallel (write_paths g engine ws)) o.own_writes ∙ y.parallel in
      let start = not (is_some s) in
      let (d', run) =
        replay-ends g engine r q.current_state start d n (IsRecordOf-reads g plan engine q r i o v)
          c apart wide w x in
      let now = intended g engine r q.current_state start d in
      let (same, ends) =
        replay-IsCommitted g engine r none now d' (committed g engine r) apart run in
      (
        d',
        execute-prepared g plan engine none q d s r a b
            ∙ execute_record-replays g engine r q.current_state start d v
            ∙ run,
        intended-IsCommitted g engine r q.current_state start d d' ends,
      )
