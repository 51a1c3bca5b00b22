-- ===== src/Transaction/Laws/Deletions.antt =====
-- The loop over the deletions of `_replay` in src/asme/transaction.py, run again after a crash.
use agentic_skills_lifecycle.Prelude.{
  ◌≡◌, ◌∙◌, ◌⊎◌, inl, inr, refl, subst, true, false, List, [], ◌∷◌, Result, ok, err, arith,
}
use agentic_skills_lifecycle.Transaction.Records.{PlannedWrite, PlannedDeletion}
use agentic_skills_lifecycle.Transaction.Tree.{Location, missing, look}
use agentic_skills_lifecycle.Transaction.Disk.{Digests, Disk, Failure}
use agentic_skills_lifecycle.Transaction.Materialize.{Engine, materialize_deletion}
use agentic_skills_lifecycle.Transaction.Replay.{run_deletions}
use agentic_skills_lifecycle.Transaction.Laws.Actions.{IsStopped, interrupted, then-ok, then-cases}
use agentic_skills_lifecycle.Transaction.Laws.Writes.{
  SameControl, write_path, delete_path, bytes_at, IsWritten-kept,
}
use agentic_skills_lifecycle.Transaction.Laws.Removals.{
  materialize_deletion-IsRemoved, materialize_deletion-quiet, IsRemoved-again,
  materialize_deletion-files, IsRemoved-kept,
}
use agentic_skills_lifecycle.Transaction.Laws.Locations.{
  path_mem, are_disjoint, write_paths, delete_paths,
}
use agentic_skills_lifecycle.Transaction.Laws.Outputs.{AreWritten, AreRemoved, SameControl-trans}

module _ (g : Digests) (engine : Engine) where
  materialize_deletion-raises :
      (x : PlannedDeletion) (d d' : Disk) (c : Failure)
      → materialize_deletion g engine x d ≡ (err c, d')
      → IsStopped {A = Unit {0}} (err c)
      → ⊥
  materialize_deletion-raises x d d' c h (interrupted p) =
      materialize_deletion-quiet g engine x d d' p h

  run_deletions-cases :
      (x : PlannedDeletion) (xs : List PlannedDeletion) (d d' : Disk)
      (r : Result Failure (Unit {0}))
      → run_deletions g engine (x ∷ xs) d ≡ (r, d')
      → ((e : Disk) × (materialize_deletion g engine x d ≡ (ok tt, e))
          × (run_deletions g engine xs e ≡ (r, d')))
        ⊎ ((c : Failure) × (materialize_deletion g engine x d ≡ (err c, d')) × (r ≡ err c))
  unfolding run_deletions
  run_deletions-cases x xs d d' r h =
      then-cases (materialize_deletion g engine x) (run_deletions g engine xs) d d' r h

  -- The loop over the deletions touches only their files, and brings none back.
  pub run_deletions-files :
      (xs : List PlannedDeletion) (d d' : Disk) (r : Result Failure (Unit {0})) (k : Location)
      → run_deletions g engine xs d ≡ (r, d')
      → SameControl g engine d d'
        × (path_mem k (delete_paths g engine xs) ≡ false
            → bytes_at g engine k d' ≡ bytes_at g engine k d)
        × (look k d.tree ≡ missing → look k d'.tree ≡ missing)
  unfolding run_deletions
  run_deletions-files [] d d' r k h = ground arith
  run_deletions-files (x ∷ xs) d d' r k h = elim (run_deletions-cases x xs d d' r h) [
    | inl (e, m, rest) ↦
        let (a, f, n) = materialize_deletion-files g engine x d e (ok tt) k m in
        let (b, y, z) = run_deletions-files xs e d' r k rest in
        (
          SameControl-trans g engine d e d' a b,
          λ q. y (ground arith) ∙ f (ground arith),
          λ q. z (n q),
        )
    | inr (c, m, q) ↦
        let (a, f, n) = materialize_deletion-files g engine x d d' (err c) k m in
        (a, λ p. f (ground arith), n)
  ]

  -- The loop is not interrupted.
  pub run_deletions-raises :
      (xs : List PlannedDeletion) (d d' : Disk) (c : Failure)
      → run_deletions g engine xs d ≡ (err c, d')
      → IsStopped {A = Unit {0}} (err c)
      → ⊥
  unfolding run_deletions
  run_deletions-raises [] d d' c h s = ground arith
  run_deletions-raises (x ∷ xs) d d' c h s = elim (run_deletions-cases x xs d d' (err c) h) [
    | inl (e, m, rest) ↦ run_deletions-raises xs e d' c rest s
    | inr (b, m, q) ↦ materialize_deletion-raises x d d' b m (subst IsStopped q s)
  ]

  pub run_deletions-AreRemoved :
      (xs : List PlannedDeletion) (d d' : Disk)
      → run_deletions g engine xs d ≡ (ok tt, d')
      → AreRemoved g engine xs d'
  run_deletions-AreRemoved [] d d' h = tt
  run_deletions-AreRemoved (x ∷ xs) d d' h = elim (run_deletions-cases x xs d d' (ok tt) h) [
    | inl (e, m, rest) ↦
        let gone = materialize_deletion-IsRemoved g engine x d e m in
        let (b, y, z) = run_deletions-files xs e d' (ok tt) (delete_path g engine x) rest in
        (IsRemoved-kept g engine x e d' b (z gone.gone) gone, run_deletions-AreRemoved xs e d' rest)
    | inr (c, m, q) ↦ absurd (ground arith)
  ]

  pub AreRemoved-again :
      (xs : List PlannedDeletion) (d : Disk)
      → AreRemoved g engine xs d
      → run_deletions g engine xs d ≡ (ok tt, d)
  unfolding run_deletions
  AreRemoved-again [] d h = refl
  AreRemoved-again (x ∷ xs) d (h, hs) =
      then-ok (materialize_deletion g engine x) (run_deletions g engine xs) d d
        (IsRemoved-again g engine x d h)
      ∙ AreRemoved-again xs d hs

  -- The outputs that are there stay, where no deletion is of their paths.
  pub run_deletions-AreWritten :
      (xs : List PlannedDeletion) (ws : List PlannedWrite) (d d' : Disk)
      → run_deletions g engine xs d ≡ (ok tt, d')
      → are_disjoint (write_paths g engine ws) (delete_paths g engine xs) ≡ true
      → AreWritten g engine ws d
      → AreWritten g engine ws d'
  run_deletions-AreWritten xs [] d d' h p a = tt
  run_deletions-AreWritten xs (w ∷ ws) d d' h p (a, others) =
      let (b, y, z) = run_deletions-files xs d d' (ok tt) (write_path g engine w) h in
      (
        IsWritten-kept g engine w d d' b (y (ground arith)) a,
        run_deletions-AreWritten xs ws d d' h (ground arith) others,
      )
