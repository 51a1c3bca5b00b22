-- ===== src/Transaction/Laws/Outputs.antt =====
-- The loops of `_replay` in src/asme/transaction.py, run again after a crash.
use agentic_skills_lifecycle.Prelude.{
  ℕ, ◌+◌, ◌≡◌, ◌∙◌, ◌⊎◌, inl, inr, refl, sym, ap, subst, true, false, Option, none, List, [], ◌∷◌,
  Result, ok, err, arith,
}
use agentic_skills_lifecycle.Transaction.Records.{PlannedWrite, PlannedDeletion}
use agentic_skills_lifecycle.Transaction.Tree.{Location}
use agentic_skills_lifecycle.Transaction.Disk.{Digests, Disk, Failure, crashed, CrashPoint, ◌>>◌}
use agentic_skills_lifecycle.Transaction.Materialize.{Engine, materialize_write}
use agentic_skills_lifecycle.Transaction.Replay.{output_crashes, run_writes}
use agentic_skills_lifecycle.Transaction.Laws.Actions.{
  IsStopped, interrupted, then-ok, then-err, then-cases, output_crashes-none,
  output_crashes-IsQuiet,
}
use agentic_skills_lifecycle.Transaction.Laws.Writes.{
  IsWritten, IsRemoved, SameControl, write_path, bytes_at, materialize_write-IsWritten,
  materialize_write-quiet, IsWritten-again, materialize_write-files, IsWritten-kept,
}
use agentic_skills_lifecycle.Transaction.Laws.Locations.{path_mem, are_different, write_paths}

module _ (g : Digests) (engine : Engine) where
  -- Every output of a list of writes is there.
  abbrev pub AreWritten : List PlannedWrite → Disk → Type 0
  AreWritten [] d = Unit {0}
  AreWritten (w ∷ ws) d = IsWritten g engine w d × AreWritten ws d

  abbrev pub AreRemoved : List PlannedDeletion → Disk → Type 0
  AreRemoved [] d = Unit {0}
  AreRemoved (x ∷ xs) d = IsRemoved g engine x d × AreRemoved xs d

  pub SameControl-trans :
      (d e f : Disk)
      → SameControl g engine d e
      → SameControl g engine e f
      → SameControl g engine d f
  SameControl-trans d e f a b = record {
    same_state = b.same_state ∙ a.same_state;
    same_intent = b.same_intent ∙ a.same_intent;
    same_links = λ k. b.same_links k ∙ a.same_links k;
  }

  -- How one round of the loop over the writes went.
  run_writes-cases :
      (at : Option CrashPoint) (total i : ℕ) (w : PlannedWrite) (ws : List PlannedWrite)
      (d d' : Disk) (r : Result Failure (Unit {0}))
      → run_writes g engine at total i (w ∷ ws) d ≡ (r, d')
      → ((e : Disk) × (materialize_write g engine w d ≡ (ok tt, e))
          × (run_writes g engine at total (i + 1) ws e ≡ (r, d')))
        ⊎ ((p : CrashPoint) × (materialize_write g engine w d ≡ (ok tt, d'))
            × (r ≡ err (crashed p)))
        ⊎ ((c : Failure) × (materialize_write g engine w d ≡ (err c, d')) × (r ≡ err c))
  unfolding run_writes
  run_writes-cases at total i w ws d d' r h =
      let rounds = run_writes g engine at total (i + 1) ws in
      let crashes = output_crashes g engine at total (i + 1) in
      elim (then-cases (materialize_write g engine w) (crashes >> rounds) d d' r h) [
        | inr x ↦ inr (inr x)
        | inl (e, m, rest) ↦ elim (output_crashes-IsQuiet g engine at total (i + 1) e) [
          | inl q ↦ inl (e, m, sym (then-ok crashes rounds e e q) ∙ rest)
          | inr (p, q) ↦
              let both = sym rest ∙ then-err crashes rounds e e (crashed p) q in
              inr (inl (p, m ∙ ap (λ x. (ok tt, x.1)) (sym both), ap (λ x. x.0) both))
        ]
      ]

  -- One round of the loop that is not interrupted.
  pub run_writes-step :
      (total i : ℕ) (w : PlannedWrite) (ws : List PlannedWrite) (d e : Disk)
      → materialize_write g engine w d ≡ (ok tt, e)
      → run_writes g engine none total i (w ∷ ws) d ≡ run_writes g engine none total (i + 1) ws e
  unfolding run_writes
  run_writes-step total i w ws d e m =
      let rounds = run_writes g engine none total (i + 1) ws in
      let crashes = output_crashes g engine none total (i + 1) in
      then-ok (materialize_write g engine w) (crashes >> rounds) d e m
      ∙ then-ok crashes rounds e e (output_crashes-none g engine total (i + 1) e)

  -- A write that stops here did not fail.
  crashed-nowhere :
      {P : Type 0} (w : PlannedWrite) (d d' : Disk) (c : Failure)
      → materialize_write g engine w d ≡ (err c, d')
      → IsStopped {A = Unit {0}} (err c)
      → P
  crashed-nowhere w d d' c m (interrupted p) = absurd (materialize_write-quiet g engine w d d' p m)

  -- The loop over the writes touches only their files.
  pub run_writes-files :
      (at : Option CrashPoint) (total i : ℕ) (ws : List PlannedWrite) (d d' : Disk)
      (r : Result Failure (Unit {0})) (k : Location)
      → run_writes g engine at total i ws d ≡ (r, d')
      → SameControl g engine d d'
        × (path_mem k (write_paths g engine ws) ≡ false
            → bytes_at g engine k d' ≡ bytes_at g engine k d)
  unfolding run_writes
  run_writes-files at total i [] d d' r k h = ground arith
  run_writes-files at total i (w ∷ ws) d d' r k h =
      elim (run_writes-cases at total i w ws d d' r h) [
        | inl (e, m, rest) ↦
            let (a, x) = materialize_write-files g engine w d e (ok tt) k m in
            let (b, y) = run_writes-files at total (i + 1) ws e d' r k rest in
            (SameControl-trans d e d' a b, λ n. y (ground arith) ∙ x (ground arith))
        | inr (inl (p, m, q)) ↦
            let (a, x) = materialize_write-files g engine w d d' (ok tt) k m in
            (a, λ n. x (ground arith))
        | inr (inr (c, m, q)) ↦
            let (a, x) = materialize_write-files g engine w d d' (err c) k m in
            (a, λ n. x (ground arith))
      ]

  -- The loop from a disk on which its outputs are there does nothing.
  pub AreWritten-again :
      (total i : ℕ) (ws : List PlannedWrite) (d : Disk)
      → AreWritten ws d
      → run_writes g engine none total i ws d ≡ (ok tt, d)
  unfolding run_writes
  AreWritten-again total i [] d h = refl
  AreWritten-again total i (w ∷ ws) d (h, hs) =
      run_writes-step total i w ws d d (IsWritten-again g engine w d h)
      ∙ AreWritten-again total (i + 1) ws d hs

  -- A write is still there after the loop over the others.
  IsWritten-after :
      (at : Option CrashPoint) (total i : ℕ) (w : PlannedWrite) (ws : List PlannedWrite)
      (d e d' : Disk) (r : Result Failure (Unit {0}))
      → materialize_write g engine w d ≡ (ok tt, e)
      → run_writes g engine at total i ws e ≡ (r, d')
      → path_mem (write_path g engine w) (write_paths g engine ws) ≡ false
      → IsWritten g engine w d'
  IsWritten-after at total i w ws d e d' r m rest n =
      let (b, y) = run_writes-files at total i ws e d' r (write_path g engine w) rest in
      IsWritten-kept g engine w e d' b (y n) (materialize_write-IsWritten g engine w d e m)

  -- The loop that ends leaves every output there.
  pub run_writes-AreWritten :
      (at : Option CrashPoint) (total i : ℕ) (ws : List PlannedWrite) (d d' : Disk)
      → are_different (write_paths g engine ws) ≡ true
      → run_writes g engine at total i ws d ≡ (ok tt, d')
      → AreWritten ws d'
  run_writes-AreWritten at total i [] d d' u h = tt
  run_writes-AreWritten at total i (w ∷ ws) d d' u h =
      elim (run_writes-cases at total i w ws d d' (ok tt) h) [
        | inl (e, m, rest) ↦ (
          IsWritten-after at total (i + 1) w ws d e d' (ok tt) m rest (ground arith),
          run_writes-AreWritten at total (i + 1) ws e d' (ground arith) rest,
        )
        | inr (inl (p, m, q)) ↦ absurd (ground arith)
        | inr (inr (c, m, q)) ↦ absurd (ground arith)
      ]

  -- The loop that is interrupted, run again, does what it does without the crash.
  pub run_writes-again :
      (at : Option CrashPoint) (total i : ℕ) (ws : List PlannedWrite) (d d' : Disk)
      (r : Result Failure (Unit {0}))
      → are_different (write_paths g engine ws) ≡ true
      → IsStopped r
      → run_writes g engine at total i ws d ≡ (r, d')
      → run_writes g engine none total i ws d' ≡ run_writes g engine none total i ws d
  unfolding run_writes
  run_writes-again at total i [] d d' r u s h = ap (λ x. (ok tt, x.1)) (sym h)
  run_writes-again at total i (w ∷ ws) d d' r u s h =
      elim (run_writes-cases at total i w ws d d' r h) [
        | inl (e, m, rest) ↦
            let there = IsWritten-after at total (i + 1) w ws d e d' r m rest (ground arith) in
            run_writes-step total i w ws d' d' (IsWritten-again g engine w d' there)
            ∙ run_writes-again at total (i + 1) ws e d' r (ground arith) s rest
            ∙ sym (run_writes-step total i w ws d e m)
        | inr (inl (p, m, q)) ↦
            run_writes-step total i w ws d' d'
              (IsWritten-again g engine w d' (materialize_write-IsWritten g engine w d d' m))
            ∙ sym (run_writes-step total i w ws d d' m)
        | inr (inr (c, m, q)) ↦ crashed-nowhere w d d' c m (subst IsStopped q s)
      ]
