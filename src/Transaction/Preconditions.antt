-- ===== src/Transaction/Preconditions.antt =====
-- `_validate_plan_preconditions` of src/asme/transaction.py, and the target roots of a record.
use agentic_skills_lifecycle.Prelude.{
  Bool, true, false, ◌||◌, String, str_append, str_eq, opt_is, not, ◌&&◌, List, [], ◌∷◌, ◌++◌,
  is_some, str_mem,
}
use agentic_skills_lifecycle.Transaction.Records.{
  PlannedWrite, PlannedDeletion, PlannedRead, PlannedAbsence,
}
use agentic_skills_lifecycle.Transaction.Disk.{
  Digests, Key, contract, Action, ◌>>=◌, ◌>>◌, pure, raise, raise_when, gets,
}
use agentic_skills_lifecycle.Transaction.Validate.{key_mem, write_keys, delete_keys}
use agentic_skills_lifecycle.Transaction.Tree.{Tree, missing, regular, directory, look}
use agentic_skills_lifecycle.Transaction.Materialize.{Engine, root_names, target}
use agentic_skills_lifecycle.Transaction.Request.{Request, PlanDigests}

abbrev is_directory : Tree → Bool
is_directory (directory f) = true
is_directory _ = false

abbrev is_present : Tree → Bool
is_present missing = false
is_present _ = true

module _ (g : Digests) (plan : PlanDigests) (engine : Engine) where
  abbrev pub roots : List String
  roots = root_names engine.roots

  -- One round of the loop over the keys of the writes and the deletions.
  unfoldable pub check_key : List Key → Key → Action (Unit {0})
  check_key seen k = do
    raise_when (not (str_mem k.0 roots)) (contract (str_append "unknown governed root: " k.0))
    raise_when (str_eq k.0 "domain" && str_eq k.1 "state.json")
        (contract "state.json is reserved for the transaction engine")
    raise_when (key_mem k seen) (
        contract
          (str_append "duplicate transaction target: " (str_append k.0 (str_append ":" k.1))))

  unfoldable pub check_keys : List Key → List Key → Action (Unit {0})
  unfolding check_key
  check_keys seen [] = pure tt
  check_keys seen (k ∷ ks) = do check_key seen k; check_keys (k ∷ seen) ks

  -- The precondition of a write, by what stands at its target.
  unfoldable pub check_before : PlannedWrite → Tree → Action (Unit {0})
  check_before item missing =
      raise_when (is_some item.expected_before_sha256)
        (contract (str_append "planned replacement target is missing: " item.path))
  check_before item (regular old) =
      raise_when
        (not (str_eq (g.sha256 old) item.content_sha256 && item.allow_existing_identical)
          && not (opt_is item.expected_before_sha256 (g.sha256 old)))
        (contract (str_append "planned write precondition failed: " item.path))
  check_before item _ =
      raise (contract (str_append "planned write target is not a regular file: " item.path))

  unfoldable pub check_write : PlannedWrite → Action (Unit {0})
  unfolding check_before
  check_write item = do
    k ← target g engine item.root item.path
    node ← gets (λ d. look k d.tree)
    check_before item node

  unfoldable pub check_writes : List PlannedWrite → Action (Unit {0})
  unfolding check_write
  check_writes [] = pure tt
  check_writes (w ∷ ws) = do check_write w; check_writes ws

  -- A regular file with the given hash.
  unfoldable pub check_file : String → String → String → Tree → Action (Unit {0})
  check_file expected refused drifted (regular c) =
      raise_when (not (str_eq (g.sha256 c) expected)) (contract drifted)
  check_file expected refused drifted _ = raise (contract refused)

  unfoldable pub check_deletion : PlannedDeletion → Action (Unit {0})
  unfolding check_file
  check_deletion item = do
    k ← target g engine item.root item.path
    node ← gets (λ d. look k d.tree)
    check_file item.expected_sha256
        (str_append "planned deletion target is missing or unsafe: " item.path)
        (str_append "planned deletion precondition failed: " item.path) node

  unfoldable pub check_deletions : List PlannedDeletion → Action (Unit {0})
  unfolding check_deletion
  check_deletions [] = pure tt
  check_deletions (x ∷ xs) = do check_deletion x; check_deletions xs

  unfoldable pub check_read : PlannedRead → Action (Unit {0})
  unfolding check_file
  check_read item = do
    raise_when (not (str_mem item.root roots))
        (contract (str_append "unknown governed root: " item.root))
    k ← target g engine item.root item.path
    node ← gets (λ d. look k d.tree)
    check_file item.expected_sha256 (str_append "read dependency is missing or unsafe: " item.name)
        (str_append "read dependency drifted: " item.name) node

  unfoldable pub check_reads : List PlannedRead → Action (Unit {0})
  unfolding check_read
  check_reads [] = pure tt
  check_reads (x ∷ xs) = do check_read x; check_reads xs

  unfoldable pub check_tree : PlannedRead → Action (Unit {0})
  check_tree item = do
    raise_when (not (str_mem item.root roots))
        (contract (str_append "unknown governed root: " item.root))
    k ← target g engine item.root item.path
    node ← gets (λ d. look k d.tree)
    found ← gets (λ d. plan.tree_hash d k)
    raise_when (not (is_directory node) || not (is_some found))
        (contract (str_append "tree dependency is missing or unsafe: " item.name))
    raise_when (not (opt_is found item.expected_sha256))
        (contract (str_append "tree dependency drifted: " item.name))

  unfoldable pub check_trees : List PlannedRead → Action (Unit {0})
  unfolding check_tree
  check_trees [] = pure tt
  check_trees (x ∷ xs) = do check_tree x; check_trees xs

  unfoldable pub check_absence : PlannedAbsence → Action (Unit {0})
  check_absence item = do
    raise_when (not (str_mem item.root roots))
        (contract (str_append "unknown governed root: " item.root))
    k ← target g engine item.root item.path
    node ← gets (λ d. look k d.tree)
    raise_when (is_present node)
        (contract (str_append "negative-existence dependency failed: " item.name))

  unfoldable pub check_absences : List PlannedAbsence → Action (Unit {0})
  unfolding check_absence
  check_absences [] = pure tt
  check_absences (x ∷ xs) = do check_absence x; check_absences xs

  -- `_validate_plan_preconditions`
  unfoldable pub validate_plan_preconditions : Request → Action (Unit {0})
  unfolding check_keys check_writes check_deletions check_reads check_trees check_absences
  validate_plan_preconditions q = do
    check_keys [] (write_keys q.writes ++ delete_keys q.deletions)
    check_writes q.writes
    check_deletions q.deletions
    check_reads q.reads
    check_trees q.tree_reads
    check_absences q.absences
