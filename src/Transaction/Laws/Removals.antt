-- ===== src/Transaction/Laws/Removals.antt =====
-- One planned deletion of src/asme/transaction.py, repeated or after another effect.
use agentic_skills_lifecycle.Prelude.{
  ◌≡◌, ◌≢◌, ◌∙◌, ◌⊎◌, inl, inr, refl, sym, ap, subst, String, str_append, str_eq, true, false,
  Result, ok, err, is_ok, arith, Bool-cases,
}
use agentic_skills_lifecycle.Transaction.Records.{PlannedDeletion}
use agentic_skills_lifecycle.Transaction.Tree.{
  Location, Tree, missing, regular, look, remove_at, same_path,
}
use agentic_skills_lifecycle.Transaction.Disk.{
  Digests, Disk, Failure, crashed, corruption, CrashPoint,
}
use agentic_skills_lifecycle.Transaction.Materialize.{Engine, target, remove, materialize_deletion}
use agentic_skills_lifecycle.Transaction.Laws.Trees.{
  has_link-remove_at, bytes-remove_at, missing-remove_at, look-remove_at,
}
use agentic_skills_lifecycle.Transaction.Laws.Writes.{
  IsRemoved, IsError, SameControl, SameControl-refl, delete_path, bytes_at, target-cases,
  target-links,
}

module _ (g : Digests) (engine : Engine) where
  abbrev pub without_file : PlannedDeletion → Disk → Disk
  without_file x d = record d { tree = remove_at (delete_path g engine x) d.tree }

  -- How a deletion goes: nothing is there, or the file is removed, or the deletion is refused.
  abbrev pub Removal : PlannedDeletion → Disk → Result Failure (Unit {0}) × Disk → Type 0
  Removal x d r =
      ((r ≡ (ok tt, d)) × IsRemoved g engine x d)
      ⊎ ((c : String) × (r ≡ (ok tt, without_file x d)) × IsRemoved g engine x (without_file x d))
      ⊎ ((e : Failure) × (r ≡ (err e, d)) × IsError g engine e)

  remove-Removal :
      (x : PlannedDeletion) (d : Disk) (n : Tree)
      → look (delete_path g engine x) d.tree ≡ n
      → is_ok (target g engine x.root x.path d).0 ≡ true
      → Removal x d (remove g engine x (delete_path g engine x) n d)
  unfolding remove
  remove-Removal x d missing n t = inl (refl, record { reachable = t; gone = n })
  remove-Removal x d (regular old) n t =
      elim (Bool-cases (str_eq (g.sha256 old) x.expected_sha256)) [
        | inr a ↦ inr (
            inr (
              corruption (str_append "planned deletion drifted after intent: " x.path),
              ground arith,
              λ q z. ground arith,
            ))
        | inl a ↦ inr (
            inl (
              old,
              ground arith,
              record {
                reachable =
                    target-links g engine x.root x.path d (without_file x d)
                      (λ k. has_link-remove_at k (delete_path g engine x) d.tree) t;
                gone = look-remove_at (delete_path g engine x) old d.tree n;
              },
            ))
      ]
  remove-Removal x d _ n t = inr (
      inr (
        corruption (str_append "planned deletion is not a regular file: " x.path),
        refl,
        λ q z. ground arith,
      ))

  materialize_deletion-Removal :
      (x : PlannedDeletion) (d : Disk) → Removal x d (materialize_deletion g engine x d)
  unfolding materialize_deletion
  materialize_deletion-Removal x d = elim (target-cases g engine x.root x.path d) [
    | inr (e, a, n) ↦ inr (inr (e, ground arith, n))
    | inl a ↦
        subst (Removal x d) (ground arith)
          (remove-Removal x d (look (delete_path g engine x) d.tree) refl (ap (λ z. is_ok z.0) a))
  ]

  pub materialize_deletion-IsRemoved :
      (x : PlannedDeletion) (d d' : Disk)
      → materialize_deletion g engine x d ≡ (ok tt, d')
      → IsRemoved g engine x d'
  materialize_deletion-IsRemoved x d d' h = elim (materialize_deletion-Removal x d) [
    | inl (a, y) ↦ subst (IsRemoved g engine x) (ap (λ z. z.1) (sym a ∙ h)) y
    | inr (inl (c, a, y)) ↦ subst (IsRemoved g engine x) (ap (λ z. z.1) (sym a ∙ h)) y
    | inr (inr (e, a, n)) ↦ absurd (ground arith)
  ]

  pub materialize_deletion-quiet :
      (x : PlannedDeletion) (d d' : Disk) (q : CrashPoint)
      → materialize_deletion g engine x d ≢ (err (crashed q), d')
  materialize_deletion-quiet x d d' q h = elim (materialize_deletion-Removal x d) [
    | inl (a, y) ↦ absurd (ground arith)
    | inr (inl (c, a, y)) ↦ absurd (ground arith)
    | inr (inr (e, a, n)) ↦ n q (ground arith)
  ]

  pub IsRemoved-again :
      (x : PlannedDeletion) (d : Disk)
      → IsRemoved g engine x d
      → materialize_deletion g engine x d ≡ (ok tt, d)
  unfolding materialize_deletion remove
  IsRemoved-again x d h = elim (target-cases g engine x.root x.path d) [
    | inr (e, a, n) ↦ let r = h.reachable in absurd (ground arith)
    | inl a ↦ let m = h.gone in ground arith
  ]

  -- What a deletion leaves of the disk.
  abbrev pub Leaves : PlannedDeletion → Location → Disk → Disk → Type 0
  Leaves x k d e =
      SameControl g engine d e
      × (same_path (delete_path g engine x) k ≡ false
          → bytes_at g engine k e ≡ bytes_at g engine k d)
      × (look k d.tree ≡ missing → look k e.tree ≡ missing)

  pub materialize_deletion-files :
      (x : PlannedDeletion) (d d' : Disk) (r : Result Failure (Unit {0})) (k : Location)
      → materialize_deletion g engine x d ≡ (r, d')
      → Leaves x k d d'
  materialize_deletion-files x d d' r k h = elim (materialize_deletion-Removal x d) [
    | inl (a, y) ↦
        subst (Leaves x k d) (ap (λ z. z.1) (sym a ∙ h))
          (SameControl-refl g engine d, λ n. refl, λ m. m)
    | inr (inr (e, a, n)) ↦
        subst (Leaves x k d) (ap (λ z. z.1) (sym a ∙ h))
          (SameControl-refl g engine d, λ n. refl, λ m. m)
    | inr (inl (c, a, y)) ↦ subst (Leaves x k d) (ap (λ z. z.1) (sym a ∙ h)) (
      record {
        same_state = refl;
        same_intent = refl;
        same_links = λ j. has_link-remove_at j (delete_path g engine x) d.tree;
      },
      bytes-remove_at k (delete_path g engine x) d.tree,
      missing-remove_at k (delete_path g engine x) d.tree,
    )
  ]

  pub IsRemoved-kept :
      (x : PlannedDeletion) (d d' : Disk)
      → SameControl g engine d d'
      → look (delete_path g engine x) d'.tree ≡ missing
      → IsRemoved g engine x d
      → IsRemoved g engine x d'
  IsRemoved-kept x d d' s f h = record {
    reachable = target-links g engine x.root x.path d d' s.same_links h.reachable;
    gone = f;
  }
