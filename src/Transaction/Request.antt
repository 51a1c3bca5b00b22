-- ===== src/Transaction/Request.antt =====
-- `TransactionEngine.execute` of src/asme/transaction.py up to the record that it builds: the hashes
-- of the plan, the bindings of the dependencies and the preconditions.
use agentic_skills_lifecycle.Prelude.{
  String, str_append, str_eq, str_len, opt_is, Bool, true, false, not, ◌&&◌, ◌||◌, Option, none,
  some, List, [], ◌∷◌, ◌++◌, map, Result, ok, err, is_some, any, ◌==◌, is_unique, Dict, lookup,
  has_key, put_key, keys, if◌then◌else◌,
}
use agentic_skills_lifecycle.Prelude.Errors.{◌>>=◌, ◌>>◌, raise_if}
use agentic_skills_lifecycle.Json.{Json, text}
use agentic_skills_lifecycle.Dependencies.Matrix.{
  DependencyCell, route, seal, Bindings, operation_cells, verify_binding_coverage,
}
use agentic_skills_lifecycle.Dependencies.Table.{default_cells}
use agentic_skills_lifecycle.Transaction.Records.{
  PlannedWrite, PlannedDeletion, PlannedRead, PlannedAbsence, StateDoc,
}
use agentic_skills_lifecycle.Transaction.Tree.{Location}
use agentic_skills_lifecycle.Transaction.Disk.{Digests, Disk, Failure, contract}

pub record PlannedValue : Type 0 where
  pub name : String
  pub content_base64 : String
  pub content_sha256 : String

-- The arguments of `execute`.
pub record Request : Type 0 where
  pub operation : String
  pub current_state : StateDoc
  pub next_state : StateDoc
  pub arguments : Dict Json
  pub input_hashes : Dict String
  pub reads : List PlannedRead
  pub tree_reads : List PlannedRead
  pub values : List PlannedValue
  pub absences : List PlannedAbsence
  pub writes : List PlannedWrite
  pub deletions : List PlannedDeletion

-- What `execute` computes besides the digests of a transaction: hashes of canonical JSON, the text of
-- an argument, the `seal` of a state, and the hash of the manifest of a directory on a disk.
pub record PlanDigests : Type 0 where
  pub hash_arguments : Dict Json → String
  pub hash_state : StateDoc → String
  pub hash_route : String → String
  pub hash_plan : List PlannedRead → List PlannedRead → Dict String → List PlannedAbsence → String
  pub matrix_digest : String
  pub argument_text : Json → String
  pub seal_of : StateDoc → Option String
  pub tree_hash : Disk → Location → Option String

-- `arguments.get(name)` where it has to be a text.
abbrev pub text_argument : Option Json → Option String
text_argument (some (text s)) = some s
text_argument _ = none

-- `{key: value for key, value in arguments.items() if key != name}`
unfoldable pub without_key : String → Dict Json → Dict Json
without_key name [] = []
without_key name ((k, v) ∷ m) =
    let rest = without_key name m in if str_eq k name then rest else (k, v) ∷ rest

abbrev pub same_option : Option String → Option String → Bool
same_option none none = true
same_option (some a) (some b) = str_eq a b
same_option _ _ = false

abbrev pub value_names : List PlannedValue → List String
value_names values = map (λ v. v.name) values

abbrev pub is_seal : DependencyCell → Bool
is_seal c = str_eq c.name "seal" && (elim c.kind [ seal ↦ true | _ ↦ false ])

abbrev pub is_route : DependencyCell → Bool
is_route c = elim c.kind [ route ↦ true | _ ↦ false ]

module _ (g : Digests) (plan : PlanDigests) where
  open plan use {
    hash_arguments, hash_state, hash_route, hash_plan, matrix_digest, argument_text, seal_of,
    tree_hash,
  }

  -- `input_hashes.get("clock") == sha256_bytes(clock)`
  abbrev is_clock_bound : Option Json → Dict String → Bool
  is_clock_bound v hashes = elim (text_argument v) [
    | none ↦ false
    | some clock ↦ opt_is (lookup "clock" hashes) (g.sha256 clock)
  ]

  abbrev is_route_bound : Option Json → String → Dict String → Bool
  is_route_bound v name hashes = elim (text_argument v) [
    | none ↦ false
    | some delivery ↦ opt_is (lookup name hashes) (hash_route delivery)
  ]

  -- One round of the loop over the cells of the operation.
  unfoldable pub check_cell : Request → Dict String → DependencyCell → Result Failure (Unit {0})
  check_cell q hashes c = do
    raise_if (is_seal c && not (same_option (lookup "seal" hashes) (seal_of q.current_state)))
        (contract "seal binding drifted")
    raise_if
        (is_route c && not (is_route_bound (lookup "delivery_route" q.arguments) c.name hashes))
        (contract "delivery route binding drifted")

  unfoldable pub check_cells :
      Request → Dict String → List DependencyCell → Result Failure (Unit {0})
  unfolding check_cell
  check_cells q hashes [] = ok tt
  check_cells q hashes (c ∷ cs) = do check_cell q hashes c; check_cells q hashes cs

  -- A `ContractError` of the dependency matrix.
  abbrev of_contract : {A : Type 0} → Result String A → Result Failure A
  of_contract (ok a) = ok a
  of_contract (err message) = err (contract message)

  unfoldable pub bindings_of : Request → Dict String → Bindings
  bindings_of q hashes = record {
    values = keys hashes;
    materials = value_names q.values;
    reads = map (λ r. r.name) (q.reads ++ q.tree_reads);
    absences = map (λ a. a.name) q.absences;
  }

  -- `_validate_dependency_bindings` for a dependency operation.
  unfoldable pub validate_bindings : Request → Dict String → String → Result Failure (Unit {0})
  unfolding check_cells bindings_of
  validate_bindings q hashes operation = do
    raise_if (not (opt_is (lookup "dependency_matrix" hashes) matrix_digest))
        (contract "dependency matrix binding drifted")
    raise_if
        (not (
          opt_is (lookup "operation_arguments" hashes)
            (hash_arguments (without_key "dependency_operation" q.arguments))))
        (contract "operation arguments binding drifted")
    raise_if (not (opt_is (lookup "state" hashes) (hash_state q.current_state)))
        (contract "state binding drifted")
    raise_if (not (is_clock_bound (lookup "clock" q.arguments) hashes))
        (contract "clock binding drifted")
    of_contract (verify_binding_coverage default_cells operation (bindings_of q hashes))
    cells ← of_contract (operation_cells operation default_cells)
    check_cells q hashes cells

  -- `arguments.get("dependency_operation") is None`
  abbrev is_unset : Option Json → Bool
  is_unset none = true
  is_unset (some Json.null) = true
  is_unset _ = false

  -- `_validate_dependency_bindings`
  unfoldable pub validate_dependency_bindings : Request → Dict String → Result Failure (Unit {0})
  unfolding validate_bindings
  validate_dependency_bindings q hashes =
      let operation = lookup "dependency_operation" q.arguments in
      if is_unset operation then ok tt else elim (text_argument operation) [
        | none ↦ err (contract "dependency operation binding is invalid")
        | some name ↦ validate_bindings q hashes name
      ]

  -- `_validate_hash_map`
  unfoldable pub validate_hash_map : Dict String → Result Failure (Unit {0})
  validate_hash_map hashes =
      raise_if (any (λ e. str_eq e.0 "" || not (str_len e.1 == 64)) hashes)
        (contract "input_hashes must map non-empty names to SHA-256 digests")

  -- `PlannedValue.content`, and its hash among the inputs.
  unfoldable pub check_value : Dict String → PlannedValue → Result Failure (Unit {0})
  check_value hashes v = elim (g.decode_base64 v.content_base64) [
    | none ↦ err (contract "planned value contains invalid base64")
    | some c ↦
        if not (str_eq (g.sha256 c) v.content_sha256)
        then err (contract (str_append "planned value drifted before intent: " v.name))
        else raise_if (not (opt_is (lookup v.name hashes) v.content_sha256))
            (contract (str_append "planned value hash differs: " v.name))
  ]

  unfoldable pub check_values : Dict String → List PlannedValue → Result Failure (Unit {0})
  unfolding check_value
  check_values hashes [] = ok tt
  check_values hashes (v ∷ vs) = do check_value hashes v; check_values hashes vs

  -- `_validate_value_preconditions`
  unfoldable pub validate_value_preconditions :
      List PlannedValue → Dict String → Result Failure (Unit {0})
  unfolding check_values
  validate_value_preconditions values hashes = do
    raise_if (not (is_unique (value_names values)))
        (contract "planned values contain duplicate dependency names")
    check_values hashes values

  -- The entry of the inputs for the reads, the values and the absences.
  unfoldable pub with_plan : Request → Dict String → Result Failure (Dict String)
  with_plan q hashes =
      if elim q.reads [
        | r ∷ rs ↦ true
        | [] ↦ elim q.tree_reads [
          | r ∷ rs ↦ true
          | [] ↦ elim q.values [
            | v ∷ vs ↦ true
            | [] ↦ elim q.absences [ a ∷ as' ↦ true | [] ↦ false ]
          ]
        ]
      ]
      then (if has_key "dependency_plan" hashes
          then err (contract "dependency_plan input hash is reserved")
          else ok (
              put_key "dependency_plan"
                (hash_plan q.reads q.tree_reads (map (λ v. (v.name, v.content_sha256)) q.values)
                  q.absences)
                hashes))
      else ok hashes

  abbrev pub cleared : StateDoc → StateDoc
  cleared s = record s { has_txn = false }

  -- The normalized input hashes.
  unfoldable pub normalized_hashes : Request → Result Failure (Dict String)
  unfolding with_plan
  normalized_hashes q =
      let planned = g.output_plan q.writes q.deletions (cleared q.next_state) in
      if is_some (lookup "output_plan" q.input_hashes)
        && not (opt_is (lookup "output_plan" q.input_hashes) planned)
      then err (contract "supplied output plan differs from planned transaction outputs")
      else with_plan q (put_key "output_plan" planned q.input_hashes)
