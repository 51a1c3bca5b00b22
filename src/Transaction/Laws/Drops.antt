-- ===== src/Transaction/Laws/Drops.antt =====
-- The deletions of `_replay` of src/asme/transaction.py where the preconditions of `execute` hold.
use agentic_skills_lifecycle.Prelude.{
  ℕ, ◌≡◌, ◌∙◌, ◌⊎◌, inl, inr, refl, sym, ap, subst, true, none, List, [], ◌∷◌, ok, arith,
  Bool-cases,
}
use agentic_skills_lifecycle.Transaction.Records.{PlannedWrite, PlannedDeletion}
use agentic_skills_lifecycle.Transaction.Tree.{
  Tree, missing, linked, special, regular, directory, look, bytes_of, same_path,
}
use agentic_skills_lifecycle.Transaction.Disk.{Digests, Disk}
use agentic_skills_lifecycle.Transaction.Materialize.{Engine, remove, materialize_deletion}
use agentic_skills_lifecycle.Transaction.Replay.{run_writes, run_deletions}
use agentic_skills_lifecycle.Transaction.Laws.Actions.{then-ok}
use agentic_skills_lifecycle.Transaction.Laws.Trees.{same_path-eq}
use agentic_skills_lifecycle.Transaction.Laws.Writes.{
  has_hash, delete_path, target-cases, target-links,
}
use agentic_skills_lifecycle.Transaction.Laws.Removals.{
  materialize_deletion-IsRemoved, materialize_deletion-files, IsRemoved-again, IsRemoved-kept,
}
use agentic_skills_lifecycle.Transaction.Laws.Writes.{IsRemoved}
use agentic_skills_lifecycle.Transaction.Laws.Locations.{
  are_disjoint, are_disjoint-head, write_paths, delete_paths,
}
use agentic_skills_lifecycle.Transaction.Laws.Outputs.{run_writes-files}
use agentic_skills_lifecycle.Transaction.Laws.Ready.{CanDelete, AreRemovable}

module _ (g : Digests) (engine : Engine) where
  -- What a deletion finds: its file, or nothing where the same file was deleted before.
  abbrev Drops : PlannedDeletion → Disk → Type 0
  Drops x d = CanDelete g engine x d ⊎ IsRemoved g engine x d

  abbrev AreDrops : List PlannedDeletion → Disk → Type 0
  AreDrops [] d = Unit {0}
  AreDrops (x ∷ xs) d = Drops x d × AreDrops xs d

  AreRemovable-drops :
      (xs : List PlannedDeletion) (d : Disk) → AreRemovable g engine xs d → AreDrops xs d
  AreRemovable-drops [] d h = tt
  AreRemovable-drops (x ∷ xs) d (h, hs) = (inl h, AreRemovable-drops xs d hs)

  remove-runs :
      (x : PlannedDeletion) (d : Disk) (n : Tree)
      → has_hash g engine x.expected_sha256 (bytes_of n) ≡ true
      → (remove g engine x (delete_path g engine x) n d).0 ≡ ok tt
  unfolding remove
  remove-runs x d (regular c) h = ground arith
  remove-runs x d missing h = absurd (ground arith)
  remove-runs x d linked h = absurd (ground arith)
  remove-runs x d special h = absurd (ground arith)
  remove-runs x d (directory f) h = absurd (ground arith)

  Drops-runs :
      (x : PlannedDeletion) (d : Disk)
      → Drops x d
      → materialize_deletion g engine x d ≡ (ok tt, (materialize_deletion g engine x d).1)
  unfolding materialize_deletion
  Drops-runs x d (inr h) =
      let e = IsRemoved-again g engine x d h in e ∙ ap (λ z. (ok tt, z)) (sym (ap (λ z. z.1) e))
  Drops-runs x d (inl h) = elim (target-cases g engine x.root x.path d) [
    | inr (e, a, n) ↦ let r = h.reachable in absurd (ground arith)
    | inl a ↦
        let m = remove-runs x d (look (delete_path g engine x) d.tree) h.there in
        ap (λ z. (z, (materialize_deletion g engine x d).1)) (ground arith)
  ]

  -- A deletion after another one.
  Drops-kept :
      (v x : PlannedDeletion) (d e : Disk)
      → materialize_deletion g engine v d ≡ (ok tt, e)
      → Drops x d
      → Drops x e
  Drops-kept v x d e m h =
      let (same, files, gone) =
        materialize_deletion-files g engine v d e (ok tt) (delete_path g engine x) m in
      elim h [
        | inr r ↦ inr (IsRemoved-kept g engine x d e same (gone r.gone) r)
        | inl c ↦
            let way = target-links g engine x.root x.path d e same.same_links c.reachable in
            elim (Bool-cases (same_path (delete_path g engine v) (delete_path g engine x))) [
              | inl p ↦ inr (record {
                reachable = way;
                gone =
                    subst (λ k. look k e.tree ≡ missing)
                      (same_path-eq (delete_path g engine v) (delete_path g engine x) p)
                      (materialize_deletion-IsRemoved g engine v d e m).gone;
              })
              | inr p ↦ inl (record {
                reachable = way;
                there = ap (has_hash g engine x.expected_sha256) (files p) ∙ c.there;
              })
            ]
      ]

  AreDrops-kept :
      (v : PlannedDeletion) (xs : List PlannedDeletion) (d e : Disk)
      → materialize_deletion g engine v d ≡ (ok tt, e)
      → AreDrops xs d
      → AreDrops xs e
  AreDrops-kept v [] d e m h = tt
  AreDrops-kept v (x ∷ xs) d e m (h, hs) = (Drops-kept v x d e m h, AreDrops-kept v xs d e m hs)

  -- The loop over the deletions ends.
  AreDrops-end :
      (xs : List PlannedDeletion) (d : Disk)
      → AreDrops xs d
      → (e : Disk) × (run_deletions g engine xs d ≡ (ok tt, e))
  unfolding run_deletions
  AreDrops-end [] d h = (d, refl)
  AreDrops-end (x ∷ xs) d (h, hs) =
      let e = (materialize_deletion g engine x d).1 in
      let m = Drops-runs x d h in
      let (f, rest) = AreDrops-end xs e (AreDrops-kept x xs d e m hs) in
      (f, then-ok (materialize_deletion g engine x) (run_deletions g engine xs) d e m ∙ rest)

  pub run_deletions-ends :
      (xs : List PlannedDeletion) (d : Disk)
      → AreRemovable g engine xs d
      → (e : Disk) × (run_deletions g engine xs d ≡ (ok tt, e))
  run_deletions-ends xs d h = AreDrops-end xs d (AreRemovable-drops xs d h)

  -- The writes leave what is to be deleted.
  pub AreRemovable-written :
      (ws : List PlannedWrite) (xs : List PlannedDeletion) (total : ℕ) (d e : Disk)
      → run_writes g engine none total 0 ws d ≡ (ok tt, e)
      → are_disjoint (write_paths g engine ws) (delete_paths g engine xs) ≡ true
      → AreRemovable g engine xs d
      → AreRemovable g engine xs e
  AreRemovable-written ws [] total d e m n h = tt
  AreRemovable-written ws (x ∷ xs) total d e m n (h, hs) =
      let (a, b) =
        are_disjoint-head (write_paths g engine ws) (delete_path g engine x)
          (delete_paths g engine xs) n in
      let (same, files) =
        run_writes-files g engine none total 0 ws d e (ok tt) (delete_path g engine x) m in
      (
        record {
          reachable = target-links g engine x.root x.path d e same.same_links h.reachable;
          there = ap (has_hash g engine x.expected_sha256) (files a) ∙ h.there;
        },
        AreRemovable-written ws xs total d e m b hs,
      )
