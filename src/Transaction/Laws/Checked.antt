-- ===== src/Transaction/Laws/Checked.antt =====
-- What the preconditions of `execute` in src/asme/transaction.py say of its writes and deletions.
use agentic_skills_lifecycle.Prelude.{
  ◌≡◌, inl, inr, refl, ap, String, str_append, true, List, [], ◌∷◌, ok, is_ok, arith,
}
use agentic_skills_lifecycle.Transaction.Records.{PlannedWrite, PlannedDeletion}
use agentic_skills_lifecycle.Transaction.Tree.{
  Tree, missing, linked, special, regular, directory, look, bytes_of,
}
use agentic_skills_lifecycle.Transaction.Disk.{Digests, Disk}
use agentic_skills_lifecycle.Transaction.Validate.{check_contents}
use agentic_skills_lifecycle.Transaction.Materialize.{Engine, content}
use agentic_skills_lifecycle.Transaction.Request.{PlanDigests}
use agentic_skills_lifecycle.Transaction.Preconditions.{
  check_before, check_write, check_writes, check_file, check_deletion, check_deletions,
}
use agentic_skills_lifecycle.Transaction.Laws.Prepare.{
  then-reads, check_write-IsReader, check_deletion-IsReader,
}
use agentic_skills_lifecycle.Transaction.Laws.Writes.{
  has_hash, write_path, delete_path, target-cases,
}
use agentic_skills_lifecycle.Transaction.Laws.Rooms.{HasRoom, HaveRoom}
use agentic_skills_lifecycle.Transaction.Laws.Ready.{
  Finds, CanWrite, AreWritable, CanDelete, AreRemovable,
}

module _ (g : Digests) (plan : PlanDigests) (engine : Engine) where
  check_before-Finds :
      (w : PlannedWrite) (d d' : Disk) (n : Tree)
      → look (write_path g engine w) d.tree ≡ n
      → check_before g plan engine w n d ≡ (ok tt, d')
      → Finds g engine w d
  unfolding check_before
  check_before-Finds w d d' missing e h = inl (e, ground arith)
  check_before-Finds w d d' (regular c) e h = inr (c, ap bytes_of e, ground arith)
  check_before-Finds w d d' linked e h = absurd (ground arith)
  check_before-Finds w d d' special e h = absurd (ground arith)
  check_before-Finds w d d' (directory f) e h = absurd (ground arith)

  -- The preconditions of a write and its place are those under which it can be made.
  check_write-CanWrite :
      (w : PlannedWrite) (d d' : Disk)
      → is_ok (content g w) ≡ true
      → HasRoom g engine w d
      → check_write g plan engine w d ≡ (ok tt, d')
      → CanWrite g engine w d
  unfolding check_write
  check_write-CanWrite w d d' c r h = elim (target-cases g engine w.root w.path d) [
    | inr (e, a, n) ↦ absurd (ground arith)
    | inl a ↦ record {
      reachable = ap (λ z. is_ok z.0) a;
      readable = c;
      room = r;
      finds = check_before-Finds w d d' (look (write_path g engine w) d.tree) refl (ground arith);
    }
  ]

  check_file-there :
      (expected refused drifted : String) (n : Tree) (d d' : Disk)
      → check_file g plan engine expected refused drifted n d ≡ (ok tt, d')
      → has_hash g engine expected (bytes_of n) ≡ true
  unfolding check_file
  check_file-there expected refused drifted (regular c) d d' h = ground arith
  check_file-there expected refused drifted missing d d' h = absurd (ground arith)
  check_file-there expected refused drifted linked d d' h = absurd (ground arith)
  check_file-there expected refused drifted special d d' h = absurd (ground arith)
  check_file-there expected refused drifted (directory f) d d' h = absurd (ground arith)

  check_deletion-CanDelete :
      (x : PlannedDeletion) (d d' : Disk)
      → check_deletion g plan engine x d ≡ (ok tt, d')
      → CanDelete g engine x d
  unfolding check_deletion
  check_deletion-CanDelete x d d' h = elim (target-cases g engine x.root x.path d) [
    | inr (e, a, n) ↦ absurd (ground arith)
    | inl a ↦ record {
      reachable = ap (λ z. is_ok z.0) a;
      there =
          check_file-there x.expected_sha256
            (str_append "planned deletion target is missing or unsafe: " x.path)
            (str_append "planned deletion precondition failed: " x.path)
            (look (delete_path g engine x) d.tree) d d' (ground arith);
    }
  ]

  pub check_writes-AreWritable :
      (ws : List PlannedWrite) (d : Disk)
      → check_contents g ws ≡ ok tt
      → HaveRoom g engine ws d
      → check_writes g plan engine ws d ≡ (ok tt, d)
      → AreWritable g engine ws d
  unfolding check_contents check_writes
  check_writes-AreWritable [] d c r h = tt
  check_writes-AreWritable (w ∷ ws) d c (r, rs) h =
      let rest = check_writes g plan engine ws in
      let (a, b) =
        then-reads (check_write g plan engine w) rest d d tt (check_write-IsReader g plan engine w)
          h in
      (
        check_write-CanWrite w d d (ground arith) r a,
        check_writes-AreWritable ws d (ground arith) rs b,
      )

  pub check_deletions-AreRemovable :
      (xs : List PlannedDeletion) (d : Disk)
      → check_deletions g plan engine xs d ≡ (ok tt, d)
      → AreRemovable g engine xs d
  unfolding check_deletions
  check_deletions-AreRemovable [] d h = tt
  check_deletions-AreRemovable (x ∷ xs) d h =
      let rest = check_deletions g plan engine xs in
      let (a, b) =
        then-reads (check_deletion g plan engine x) rest d d tt
          (check_deletion-IsReader g plan engine x) h in
      (check_deletion-CanDelete x d d a, check_deletions-AreRemovable xs d b)
