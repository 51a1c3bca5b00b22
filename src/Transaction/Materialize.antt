-- ===== src/Transaction/Materialize.antt =====
-- `_target`, `_materialize_write` and `_materialize_deletion` of src/asme/transaction.py: one planned
-- effect, made so that it can be repeated.
use agentic_skills_lifecycle.Prelude.{
  String, codes, ◌||◌, ◌++◌, str_append, str_eq, opt_is, Bool, true, false, not, none, some, List,
  [], ◌∷◌, Result, ok, err, is_ok, is_some, if◌then◌else◌,
}
use agentic_skills_lifecycle.Canonical.{safe_member_name, pure_parts}
use agentic_skills_lifecycle.Transaction.Records.{PlannedWrite, PlannedDeletion}
use agentic_skills_lifecycle.Transaction.Tree.{
  Location, Tree, missing, regular, look, has_link, is_open, write_at, remove_at, is_prefix,
}
use agentic_skills_lifecycle.Transaction.Disk.{
  Digests, Failure, system, contract, corruption, Action, ◌>>=◌, ◌>>◌, pure, raise, lift,
  raise_when, gets, modify,
}

-- `PlannedWrite.content`
unfoldable pub content : Digests → PlannedWrite → Result Failure String
content g item = elim (g.decode_base64 item.content_base64) [
  | none ↦ err (corruption "planned write contains invalid base64")
  | some c ↦
      if str_eq (g.sha256 c) item.content_sha256
      then ok c
      else err (corruption "planned write content hash mismatch")
]

-- A `TransactionEngine`: its domain, its governed roots with their fingerprints, and the resolved path
-- of each root.
pub record Engine : Type 0 where
  pub domain_id : String
  pub roots : List (String × String)
  pub place : String → Location

abbrev pub is_empty : Location → Bool
is_empty [] = true
is_empty _ = false

abbrev pub root_names : List (String × String) → List String
root_names [] = []
root_names ((j, v) ∷ m) = j ∷ root_names m

-- `PurePosixPath(member).parts`
abbrev pub parts_of : String → Location
parts_of member = pure_parts (codes member)

module _ (g : Digests) (engine : Engine) where
  open g use {sha256}

  abbrev pub is_root : String → List String → Bool
  is_root r [] = false
  is_root r (x ∷ xs) = if str_eq x r then true else is_root r xs

  -- `root.joinpath(*PurePosixPath(member).parts)`
  unfoldable pub locate : String → String → Location
  locate root member = engine.place root ++ parts_of member

  -- `state_path`
  abbrev pub state_path : Location
  state_path = engine.place "domain" ++ codes "state.json" ∷ []

  -- `_target(root_name, member)`
  unfoldable pub target : String → String → Action Location
  target root member = do
    raise_when (not (is_ok (safe_member_name member))) (contract "unsafe archive member")
    raise_when (not (is_root root (root_names engine.roots)))
        (corruption (str_append "transaction references unknown root: " root))
    b ← gets (λ d. has_link (locate root member) d.tree)
    raise_when b (contract "symlink component forbidden")
    pure (locate root member)

  -- `_ensure_safe_parent(target, root_name=root)`: the checks of the directories on the way. The
  -- missing ones are made when the file is written. The state file is there during a replay, and is
  -- no directory.
  unfoldable pub ensure_safe_parent : String → String → Action (Unit {0})
  ensure_safe_parent root member d =
      if is_empty (parts_of member)
      then (err (system "ValueError"), d)
      else if not (is_open (engine.place root) d.tree)
      then (err (system "OSError"), d)
      else if not (is_open (locate root member) d.tree) || is_prefix state_path (locate root member)
      then (err (corruption "symlink or non-directory parent forbidden"), d)
      else (ok tt, d)

  -- The write itself, and the check of what was written.
  unfoldable pub write_file : PlannedWrite → Location → String → Action (Unit {0})
  unfolding ensure_safe_parent
  write_file item k c = do
    ensure_safe_parent item.root item.path
    modify (λ d. record d { tree = write_at k c d.tree })
    raise_when (not (str_eq (sha256 c) item.content_sha256))
        (corruption (str_append "planned output failed post-write hash check: " item.path))

  -- What is done for each thing that may stand at the target.
  unfoldable pub write_over : PlannedWrite → Location → String → Tree → Action (Unit {0})
  unfolding write_file
  write_over item k c missing =
      if is_some item.expected_before_sha256
      then raise
          (corruption (str_append "planned replacement disappeared after intent: " item.path))
      else write_file item k c
  write_over item k c (regular old) =
      if str_eq (sha256 old) item.content_sha256
      then pure tt
      else if not (opt_is item.expected_before_sha256 (sha256 old))
      then raise (corruption (str_append "planned output drifted after intent: " item.path))
      else write_file item k c
  write_over item k c _ =
      raise (corruption (str_append "planned output is not a regular file: " item.path))

  -- `_materialize_write`
  unfoldable pub materialize_write : PlannedWrite → Action (Unit {0})
  materialize_write item = do
    k ← target item.root item.path
    c ← lift (content g item)
    node ← gets (λ d. look k d.tree)
    write_over item k c node

  unfoldable pub remove : PlannedDeletion → Location → Tree → Action (Unit {0})
  remove item k missing = pure tt
  remove item k (regular old) =
      if not (str_eq (sha256 old) item.expected_sha256)
      then raise (corruption (str_append "planned deletion drifted after intent: " item.path))
      else modify (λ d. record d { tree = remove_at k d.tree })
  remove item k _ =
      raise (corruption (str_append "planned deletion is not a regular file: " item.path))

  -- `_materialize_deletion`
  unfoldable pub materialize_deletion : PlannedDeletion → Action (Unit {0})
  materialize_deletion item = do
    k ← target item.root item.path
    node ← gets (λ d. look k d.tree)
    remove item k node
