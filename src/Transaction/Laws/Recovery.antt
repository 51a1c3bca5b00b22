-- ===== src/Transaction/Laws/Recovery.antt =====
-- `_replay` of src/asme/transaction.py after a crash of `_replay`.
use agentic_skills_lifecycle.Prelude.{
  ◌≡◌, ◌∙◌, ◌⊎◌, inl, inr, sym, ap, subst, false, Option, none, Result, ok, err, length,
}
use agentic_skills_lifecycle.Transaction.Records.{TransactionRecord}
use agentic_skills_lifecycle.Transaction.Disk.{
  Digests, Disk, Failure, crashed, CrashPoint, publication, pre_commit, Action, ◌>>◌,
}
use agentic_skills_lifecycle.Transaction.Tree.{Location}
use agentic_skills_lifecycle.Transaction.Materialize.{Engine}
use agentic_skills_lifecycle.Transaction.Replay.{crash, run_writes, run_deletions, make_outputs}
use agentic_skills_lifecycle.Transaction.Laws.Actions.{
  IsStopped, returned, then-ok, then-err, then-cases, then-same, crash-IsQuiet,
}
use agentic_skills_lifecycle.Transaction.Laws.Writes.{SameControl, bytes_at}
use agentic_skills_lifecycle.Transaction.Laws.Locations.{
  path_mem, AreSeparate, write_paths, delete_paths,
}
use agentic_skills_lifecycle.Transaction.Laws.Outputs.{
  AreWritten, AreRemoved, SameControl-trans, AreWritten-again, run_writes-AreWritten,
  run_writes-again, run_writes-files,
}
use agentic_skills_lifecycle.Transaction.Laws.Deletions.{
  run_deletions-files, run_deletions-raises, run_deletions-AreRemoved, AreRemoved-again,
  run_deletions-AreWritten,
}

module _ (g : Digests) (engine : Engine) (r : TransactionRecord) where
  abbrev writes_of : Option CrashPoint → Action (Unit {0})
  writes_of at = run_writes g engine at (length r.writes) 0 r.writes

  abbrev boundary : Option CrashPoint → Action (Unit {0})
  boundary at = crash g engine at publication >> crash g engine at pre_commit

  -- The outputs of a record that is not interrupted.
  make_outputs-done :
      (d e f : Disk)
      → writes_of none d ≡ (ok tt, e)
      → run_deletions g engine r.deletions e ≡ (ok tt, f)
      → make_outputs g engine none r d ≡ (ok tt, f)
  unfolding make_outputs crash
  make_outputs-done d e f a b =
      then-ok (writes_of none) (run_deletions g engine r.deletions >> boundary none) d e a
      ∙ then-ok (run_deletions g engine r.deletions) (boundary none) e f b

  boundary-disk :
      (at : Option CrashPoint) (d d' : Disk) (x : Result Failure (Unit {0}))
      → boundary at d ≡ (x, d')
      → d' ≡ d
  boundary-disk at d d' x h = elim (crash-IsQuiet g engine at publication d) [
    | inl a ↦ elim (crash-IsQuiet g engine at pre_commit d) [
      | inl b ↦
          ap (λ z. z.1)
            (sym h
              ∙ then-ok (crash g engine at publication) (crash g engine at pre_commit) d d a
              ∙ b)
      | inr (p, b) ↦
          ap (λ z. z.1)
            (sym h
              ∙ then-ok (crash g engine at publication) (crash g engine at pre_commit) d d a
              ∙ b)
    ]
    | inr (p, a) ↦
        ap (λ z. z.1)
          (sym h
            ∙ then-err (crash g engine at publication) (crash g engine at pre_commit) d d
                (crashed p) a)
  ]

  -- Where the outputs of a record stop: in the writes, or after the deletions.
  pub make_outputs-cases :
      (at : Option CrashPoint) (d d' : Disk) (x : Result Failure (Unit {0}))
      → IsStopped x
      → make_outputs g engine at r d ≡ (x, d')
      → ((c : Failure) × (writes_of at d ≡ (err c, d')) × (x ≡ err c))
        ⊎ ((e : Disk) × (writes_of at d ≡ (ok tt, e))
            × (run_deletions g engine r.deletions e ≡ (ok tt, d')))
  unfolding make_outputs
  make_outputs-cases at d d' x s h =
      let deletions = run_deletions g engine r.deletions in
      elim (then-cases (writes_of at) (deletions >> boundary at) d d' x h) [
        | inr stopped ↦ inl stopped
        | inl (e, a, rest) ↦ elim (then-cases deletions (boundary at) e d' x rest) [
          | inr (c, b, q) ↦
              absurd (run_deletions-raises g engine r.deletions e d' c b (subst IsStopped q s))
          | inl (f, b, end) ↦
              inr (e, a, b ∙ ap (λ z. (ok tt, z)) (sym (boundary-disk at f d' x end)))
        ]
      ]

  -- After the loops every output is there.
  pub run-AreMade :
      (at : Option CrashPoint) (d e d' : Disk)
      → AreSeparate g engine r.writes r.deletions
      → writes_of at d ≡ (ok tt, e)
      → run_deletions g engine r.deletions e ≡ (ok tt, d')
      → AreWritten g engine r.writes d' × AreRemoved g engine r.deletions d'
  run-AreMade at d e d' p a b = (
    run_deletions-AreWritten g engine r.deletions r.writes e d' b p.disjoint
        (run_writes-AreWritten g engine at (length r.writes) 0 r.writes d e p.distinct a),
    run_deletions-AreRemoved g engine r.deletions e d' b,
  )

  -- The outputs made again from the disk of a crash are those without the crash.
  pub make_outputs-again :
      (at : Option CrashPoint) (d d' : Disk) (x : Result Failure (Unit {0}))
      → AreSeparate g engine r.writes r.deletions
      → IsStopped x
      → make_outputs g engine at r d ≡ (x, d')
      → make_outputs g engine none r d' ≡ make_outputs g engine none r d
  unfolding make_outputs
  make_outputs-again at d d' x p s h =
      let deletions = run_deletions g engine r.deletions in
      elim (make_outputs-cases at d d' x s h) [
        | inl (c, a, q) ↦ then-same (writes_of none) (deletions >> boundary none) d' d (
            run_writes-again g engine at (length r.writes) 0 r.writes d d' (err c) p.distinct
              (subst IsStopped q s) a)
        | inr (e, a, b) ↦
            let (written, removed) = run-AreMade at d e d' p a b in
            let all_written =
              run_writes-AreWritten g engine at (length r.writes) 0 r.writes d e p.distinct a in
            let first =
              sym (
                run_writes-again g engine at (length r.writes) 0 r.writes d e (ok tt) p.distinct
                  (returned tt) a)
              ∙ AreWritten-again g engine (length r.writes) 0 r.writes e all_written in
            make_outputs-done d' d' d'
              (AreWritten-again g engine (length r.writes) 0 r.writes d' written)
              (AreRemoved-again g engine r.deletions d' removed)
            ∙ sym (make_outputs-done d e d' first b)
      ]

  -- The outputs leave the state file and the intent.
  pub make_outputs-SameControl :
      (at : Option CrashPoint) (d d' : Disk) (x : Result Failure (Unit {0})) (k : Location)
      → IsStopped x
      → make_outputs g engine at r d ≡ (x, d')
      → SameControl g engine d d'
        × (path_mem k (write_paths g engine r.writes) ≡ false
            → path_mem k (delete_paths g engine r.deletions) ≡ false
            → bytes_at g engine k d' ≡ bytes_at g engine k d)
  make_outputs-SameControl at d d' x k s h = elim (make_outputs-cases at d d' x s h) [
    | inl (c, a, q) ↦
        let (same, files) =
          run_writes-files g engine at (length r.writes) 0 r.writes d d' (err c) k a in
        (same, λ m n. files m)
    | inr (e, a, b) ↦
        let (same, files) =
          run_writes-files g engine at (length r.writes) 0 r.writes d e (ok tt) k a in
        let (same', files', z) = run_deletions-files g engine r.deletions e d' (ok tt) k b in
        (SameControl-trans g engine d e d' same same', λ m n. files' n ∙ files m)
  ]
