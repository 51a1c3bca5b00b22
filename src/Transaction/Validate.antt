-- ===== src/Transaction/Validate.antt =====
-- `TransactionRecord.validate` and the checks of `TransactionRecord.from_json` in
-- src/asme/transaction.py, and `_validate_hash_map`.
use agentic_skills_lifecycle.Prelude.{
  String, str_append, str_eq, str_len, str_leb, Bool, true, false, not, ◌&&◌, ◌||◌, Option, none,
  some, List, [], ◌∷◌, Result, ok, err, is_ok, all, ◌==◌, if◌then◌else◌,
}
use agentic_skills_lifecycle.Prelude.Errors.{◌>>=◌, ◌>>◌, raise_if}
use agentic_skills_lifecycle.Canonical.{safe_member_name, require_identifier}
use agentic_skills_lifecycle.Transaction.Records.{
  PlannedWrite, PlannedDeletion, PlannedRead, PlannedAbsence, TransactionRecord,
}
use agentic_skills_lifecycle.Transaction.Disk.{
  Digests, Key, same_key, Failure, contract, corruption,
}
use agentic_skills_lifecycle.Transaction.Materialize.{content}

abbrev Pairs : Type 0
Pairs = List (String × String)

-- `values.get(name)`
unfoldable pub get : String → Pairs → Option String
get k [] = none
get k ((j, v) ∷ m) = if str_eq j k then some v else get k m

abbrev names : Pairs → List String
names [] = []
names ((j, v) ∷ m) = j ∷ names m

-- `list(target_roots) == sorted(target_roots)`, for keys that are unique.
abbrev is_sorted : List String → Bool
is_sorted [] = true
is_sorted (x ∷ []) = true
is_sorted (x ∷ y ∷ xs) = str_leb x y && is_sorted (y ∷ xs)

abbrev has_fingerprints : Pairs → Bool
has_fingerprints [] = true
has_fingerprints ((j, v) ∷ m) = str_len v == 64 && has_fingerprints m

-- `root in target_roots`
abbrev is_declared : Pairs → String → Bool
is_declared m root = elim (get root m) [ none ↦ false | some v ↦ true ]

abbrev pub key_mem : Key → List Key → Bool
key_mem k [] = false
key_mem k (j ∷ ks) = same_key j k || key_mem k ks

-- `len(set(keys)) == len(keys)`
abbrev pub are_unique : List Key → Bool
are_unique [] = true
are_unique (k ∷ ks) = not (key_mem k ks) && are_unique ks

-- `not set(left) & set(right)`
abbrev pub are_apart : List Key → List Key → Bool
are_apart [] ks = true
are_apart (j ∷ js) ks = not (key_mem j ks) && are_apart js ks

abbrev pub write_keys : List PlannedWrite → List Key
write_keys [] = []
write_keys (w ∷ ws) = (w.root, w.path) ∷ write_keys ws

abbrev pub delete_keys : List PlannedDeletion → List Key
delete_keys [] = []
delete_keys (x ∷ xs) = (x.root, x.path) ∷ delete_keys xs

unfoldable pub check_contents : Digests → List PlannedWrite → Result Failure (Unit {0})
unfolding content
check_contents g [] = ok tt
check_contents g (w ∷ ws) = do c ← content g w; check_contents g ws

-- A `ContractError` of `require_identifier`.
abbrev pub identifier : String → String → Result Failure (Unit {0})
identifier value field =
    if is_ok (require_identifier value field)
    then ok tt
    else err (contract (str_append field " must match ^[a-z0-9][a-z0-9._-]{0,127}$"))

abbrev is_v2 : TransactionRecord → Bool
is_v2 r = str_eq r.schema "asme.transaction.v2"

abbrev is_plan : Digests → TransactionRecord → Bool
is_plan g r = elim (get "output_plan" r.input_hashes) [
  | none ↦ false
  | some h ↦ str_eq h (g.output_plan r.writes r.deletions r.next_state)
]

-- `TransactionRecord.validate`
unfoldable pub validate : Digests → TransactionRecord → Result Failure (Unit {0})
unfolding check_contents
validate g r = do
  raise_if (not (str_eq r.schema "asme.transaction.v1" || is_v2 r))
      (corruption (str_append "unsupported transaction schema: " r.schema))
  identifier r.domain_id "transaction domain_id"
  identifier r.operation "transaction operation"
  raise_if r.next_state.has_txn (corruption "transaction next_state must clear txn")
  raise_if (not (is_sorted (names r.target_roots)))
      (corruption "transaction target roots must be sorted and unique")
  raise_if (not (has_fingerprints r.target_roots))
      (corruption "transaction target roots require path fingerprints")
  raise_if (not (all (λ w. is_declared r.target_roots w.root) r.writes))
      (corruption "planned write references an undeclared target root")
  raise_if (not (all (λ x. is_declared r.target_roots x.root) r.deletions))
      (corruption "planned deletion references an undeclared target root")
  raise_if (not (all (λ x. is_declared r.target_roots x.root) r.reads))
      (corruption "planned read references an undeclared target root")
  raise_if (not (all (λ x. is_declared r.target_roots x.root) r.tree_reads))
      (corruption "planned tree read references an undeclared target root")
  raise_if (not (all (λ x. is_declared r.target_roots x.root) r.absences))
      (corruption "planned absence references an undeclared target root")
  raise_if (not (are_unique (write_keys r.writes)))
      (corruption "transaction contains duplicate planned writes")
  raise_if (not (are_unique (delete_keys r.deletions)))
      (corruption "transaction contains duplicate planned deletions")
  raise_if (not (are_apart (write_keys r.writes) (delete_keys r.deletions)))
      (corruption "transaction cannot write and delete the same path")
  raise_if
      (not (
        str_eq r.transaction_id
          (g.transaction_id r.operation r.base_revision r.arguments r.input_hashes)))
      (corruption "transaction ID does not match its immutable inputs")
  raise_if (is_v2 r && not (is_plan g r)) (corruption "transaction output plan hash mismatch")
  check_contents g r.writes

-- The `__post_init__` checks of the planned items of a record that is read back.
abbrev is_planned : String → String → Bool
is_planned root path = is_ok (require_identifier root "root") && is_ok (safe_member_name path)

abbrev is_planned_read : PlannedRead → Bool
is_planned_read x =
    is_ok (require_identifier x.name "name")
    && is_planned x.root x.path
    && str_len x.expected_sha256 == 64

abbrev pub are_items :
    List PlannedRead → List PlannedRead → List PlannedAbsence → List PlannedDeletion → Bool
are_items reads tree_reads absences deletions =
    all is_planned_read reads
    && all is_planned_read tree_reads
    && all (λ x. is_ok (require_identifier x.name "name") && is_planned x.root x.path) absences
    && all (λ x. is_planned x.root x.path && str_len x.expected_sha256 == 64) deletions

abbrev are_planned : TransactionRecord → Bool
are_planned r = are_items r.reads r.tree_reads r.absences r.deletions

-- `TransactionRecord.from_json`, once JSON has given the fields their types.
unfoldable pub from_json : Digests → TransactionRecord → Result Failure TransactionRecord
unfolding validate
from_json g r = do
  raise_if (not (are_planned r)) (corruption "malformed transaction record")
  validate g r
  ok r
