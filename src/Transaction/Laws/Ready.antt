-- ===== src/Transaction/Laws/Ready.antt =====
-- `_replay` of src/asme/transaction.py where the preconditions of `execute` hold and its writes have
-- their places.
use agentic_skills_lifecycle.Prelude.{
  ℕ, ◌+◌, ◌≡◌, ◌∙◌, ◌⊎◌, inl, inr, refl, sym, ap, subst, String, str_eq, opt_is, true, false, ◌||◌,
  none, some, List, [], ◌∷◌, ok, is_ok, is_some, arith,
}
use agentic_skills_lifecycle.Transaction.Records.{PlannedWrite, PlannedDeletion}
use agentic_skills_lifecycle.Transaction.Tree.{
  Tree, missing, linked, special, regular, directory, look, is_prefix, bytes_of,
}
use agentic_skills_lifecycle.Transaction.Disk.{Digests, Disk}
use agentic_skills_lifecycle.Transaction.Materialize.{
  Engine, target, content, ensure_safe_parent, write_file, write_over, materialize_write,
}
use agentic_skills_lifecycle.Transaction.Replay.{run_writes}
use agentic_skills_lifecycle.Transaction.Laws.Trees.{
  has_link-write_at, bytes-write_at, missing-write_at,
}
use agentic_skills_lifecycle.Transaction.Laws.Writes.{
  has_hash, write_path, delete_path, bytes_at, with_output, target-cases, target-links,
  content-cases, materialize_write-Outcome,
}
use agentic_skills_lifecycle.Transaction.Laws.Locations.{write_paths}
use agentic_skills_lifecycle.Transaction.Laws.Outputs.{run_writes-step}
use agentic_skills_lifecycle.Transaction.Laws.Rooms.{
  is_nested, are_parallel, is_prefix-same_path, HasRoom, HasRoom-kept,
}

module _ (g : Digests) (engine : Engine) where
  -- What a write may find at its path.
  abbrev pub Finds : PlannedWrite → Disk → Type 0
  Finds w d =
      ((look (write_path g engine w) d.tree ≡ missing) × (is_some w.expected_before_sha256 ≡ false))
      ⊎ ((c : String) × (bytes_at g engine (write_path g engine w) d ≡ some c)
          × (str_eq (g.sha256 c) w.content_sha256 || opt_is w.expected_before_sha256 (g.sha256 c)
              ≡ true))

  -- A write that can be made.
  pub record CanWrite (w : PlannedWrite) (d : Disk) : Type 0 where
    pub reachable : is_ok (target g engine w.root w.path d).0 ≡ true
    pub readable : is_ok (content g w) ≡ true
    pub room : HasRoom g engine w d
    pub finds : Finds w d

  abbrev pub AreWritable : List PlannedWrite → Disk → Type 0
  AreWritable [] d = Unit {0}
  AreWritable (w ∷ ws) d = CanWrite w d × AreWritable ws d

  -- A deletion whose file is there.
  pub record CanDelete (x : PlannedDeletion) (d : Disk) : Type 0 where
    pub reachable : is_ok (target g engine x.root x.path d).0 ≡ true
    pub there :
        has_hash g engine x.expected_sha256 (bytes_at g engine (delete_path g engine x) d) ≡ true

  abbrev pub AreRemovable : List PlannedDeletion → Disk → Type 0
  AreRemovable [] d = Unit {0}
  AreRemovable (x ∷ xs) d = CanDelete x d × AreRemovable xs d

  -- The same on a disk with the same governed files.
  pub AreWritable-moved :
      (ws : List PlannedWrite) (d e : Disk) → e.tree ≡ d.tree → AreWritable ws d → AreWritable ws e
  unfolding target
  AreWritable-moved [] d e f h = tt
  AreWritable-moved (w ∷ ws) d e f (h, hs) = (go, AreWritable-moved ws d e f hs)
    where
      go : CanWrite w e
      go = record {
        reachable = ground arith;
        readable = h.readable;
        room = record {
          proper = h.room.proper;
          rooted = ground arith;
          way = ground arith;
          aside = h.room.aside;
        };
        finds = subst (λ t. Finds w (record e { tree = t })) (sym f) h.finds;
      }

  pub AreRemovable-moved :
      (xs : List PlannedDeletion) (d e : Disk)
      → e.tree ≡ d.tree
      → AreRemovable xs d
      → AreRemovable xs e
  unfolding target
  AreRemovable-moved [] d e f h = tt
  AreRemovable-moved (x ∷ xs) d e f (h, hs) = (go, AreRemovable-moved xs d e f hs)
    where
      go : CanDelete x e
      go = record { reachable = ground arith; there = ground arith }

  -- What stands at a write that finds what it may find is missing or a regular file.
  Finds-cases :
      (w : PlannedWrite) (d : Disk) (n : Tree)
      → look (write_path g engine w) d.tree ≡ n
      → Finds w d
      → ((n ≡ missing) × (is_some w.expected_before_sha256 ≡ false))
        ⊎ ((c : String) × (n ≡ regular c)
            × (str_eq (g.sha256 c) w.content_sha256 || opt_is w.expected_before_sha256 (g.sha256 c)
                ≡ true))
  Finds-cases w d n e (inl (m, f)) = inl (sym e ∙ m, f)
  Finds-cases w d (regular old) e (inr (c, m, f)) =
      let p = sym (ap bytes_of e) ∙ m in inr (old, refl, ground arith)
  Finds-cases w d missing e (inr (c, m, f)) =
      let p = sym (ap bytes_of e) ∙ m in absurd (ground arith)
  Finds-cases w d linked e (inr (c, m, f)) =
      let p = sym (ap bytes_of e) ∙ m in absurd (ground arith)
  Finds-cases w d special e (inr (c, m, f)) =
      let p = sym (ap bytes_of e) ∙ m in absurd (ground arith)
  Finds-cases w d (directory k) e (inr (c, m, f)) =
      let p = sym (ap bytes_of e) ∙ m in absurd (ground arith)

  CanWrite-runs :
      (w : PlannedWrite) (d : Disk)
      → CanWrite w d
      → materialize_write g engine w d ≡ (ok tt, (materialize_write g engine w d).1)
  unfolding materialize_write write_over write_file ensure_safe_parent
  CanWrite-runs w d h = elim (target-cases g engine w.root w.path d) [
    | inr (e, a, n) ↦ let r = h.reachable in absurd (ground arith)
    | inl a ↦ elim (content-cases g engine w) [
      | inr (e, b, n) ↦ let r = h.readable in absurd (ground arith)
      | inl (c, b, s) ↦
          let i = h.room.proper in
          let j = h.room.rooted in
          let k = h.room.way in
          let l = h.room.aside in
          elim (Finds-cases w d (look (write_path g engine w) d.tree) refl h.finds) [
            | inl (m, f) ↦ ground arith
            | inr (old, m, f) ↦ ground arith
          ]
    ]
  ]

  -- A write can still be made after one that is not on its way.
  CanWrite-kept :
      (v w : PlannedWrite) (d e : Disk)
      → materialize_write g engine v d ≡ (ok tt, e)
      → is_prefix (write_path g engine v) (write_path g engine w) ≡ false
      → is_prefix (write_path g engine w) (write_path g engine v) ≡ false
      → CanWrite w d
      → CanWrite w e
  CanWrite-kept v w d e m a b h = elim (materialize_write-Outcome g engine v d) [
    | inl (q, x) ↦ subst (CanWrite w) (ap (λ z. z.1) (sym q ∙ m)) h
    | inr (inr (c, q, n)) ↦ absurd (ground arith)
    | inr (inl (c, q, x)) ↦ subst (CanWrite w) (ap (λ z. z.1) (sym q ∙ m)) (record {
      reachable =
          target-links g engine w.root w.path d (with_output g engine v c d)
            (λ k. has_link-write_at k (write_path g engine v) c d.tree) h.reachable;
      readable = h.readable;
      room = HasRoom-kept g engine v w c d a h.room;
      finds = elim h.finds [
        | inl (n, f) ↦
            inl (missing-write_at (write_path g engine w) (write_path g engine v) c d.tree n b, f)
        | inr (old, n, f) ↦ inr (
          old,
          bytes-write_at (write_path g engine w) (write_path g engine v) c d.tree
                (is_prefix-same_path (write_path g engine v) (write_path g engine w) a)
              ∙ n,
          f,
        )
      ];
    })
  ]

  AreWritable-kept :
      (v : PlannedWrite) (ws : List PlannedWrite) (d e : Disk)
      → materialize_write g engine v d ≡ (ok tt, e)
      → is_nested (write_path g engine v) (write_paths g engine ws) ≡ false
      → AreWritable ws d
      → AreWritable ws e
  AreWritable-kept v [] d e m n h = tt
  AreWritable-kept v (w ∷ ws) d e m n (h, hs) = (
    CanWrite-kept v w d e m (ground arith) (ground arith) h,
    AreWritable-kept v ws d e m (ground arith) hs,
  )

  -- The loops end where each of their rounds can be made.
  pub run_writes-ends :
      (total i : ℕ) (ws : List PlannedWrite) (d : Disk)
      → are_parallel (write_paths g engine ws) ≡ true
      → AreWritable ws d
      → (e : Disk) × (run_writes g engine none total i ws d ≡ (ok tt, e))
  unfolding run_writes
  run_writes-ends total i [] d u h = (d, refl)
  run_writes-ends total i (w ∷ ws) d u (h, hs) =
      let e = (materialize_write g engine w d).1 in
      let m = CanWrite-runs w d h in
      let (f, rest) =
        run_writes-ends total (i + 1) ws e (ground arith)
          (AreWritable-kept w ws d e m (ground arith) hs) in
      (f, run_writes-step g engine total i w ws d e m ∙ rest)
