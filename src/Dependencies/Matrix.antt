-- ===== src/Dependencies/Matrix.antt =====
-- `DependencyCell`, `DependencyMatrix` and the checks of the matrix in src/asme/dependencies.py.
use agentic_skills_lifecycle.Prelude.{
  String, str_append, str_eq, Bool, true, false, not, ◌&&◌, ◌||◌, Option, none, some, List, [], ◌∷◌,
  map, Result, ok, err, ◌>>=◌, ◌>>◌, raise_if, is_blank, any, all, select, str_mem, is_unique, Dict,
  lookup, has_key, is_subset, if◌then◌else◌,
}
use agentic_skills_lifecycle.Canonical.{require_identifier}

pub data DependencyKind : Type 0 where
  argument clock dynamic_input negative_existence output : DependencyKind
  route seal state replay_source : DependencyKind

pub record DependencyCell : Type 0 where
  pub cell_id : String
  pub operation : String
  pub kind : DependencyKind
  pub name : String
  pub required : Bool
  pub source_class : String

-- `DependencyCell.__post_init__`
unfoldable pub checked_cell : DependencyCell → Result String DependencyCell
checked_cell cell = do
  _ ← require_identifier cell.cell_id "dependency cell_id"
  _ ← require_identifier cell.operation "dependency operation"
  raise_if (is_blank cell.name) "dependency name cannot be blank"
  ok cell

abbrev pub is_argument : DependencyKind → Bool
is_argument argument = true
is_argument _ = false

abbrev pub is_state : DependencyKind → Bool
is_state state = true
is_state _ = false

abbrev pub is_clock : DependencyKind → Bool
is_clock clock = true
is_clock _ = false

abbrev pub is_absence : DependencyKind → Bool
is_absence negative_existence = true
is_absence _ = false

abbrev pub is_dynamic : DependencyKind → Bool
is_dynamic dynamic_input = true
is_dynamic _ = false

abbrev pub has_kind : (DependencyKind → Bool) → String → List DependencyCell → Bool
has_kind test operation cells = any (λ c. str_eq c.operation operation && test c.kind) cells

-- `{ARGUMENT, CLOCK, STATE} - kinds` is empty.
abbrev pub has_common : String → List DependencyCell → Bool
has_common operation cells =
    has_kind is_argument operation cells
    && has_kind is_clock operation cells
    && has_kind is_state operation cells

abbrev pub cell_ids : List DependencyCell → List String
cell_ids cells = map (λ c. c.cell_id) cells

-- `DependencyMatrix.__post_init__`
unfoldable pub checked_matrix : List DependencyCell → Result String (List DependencyCell)
checked_matrix cells = do
  raise_if (not (is_unique (cell_ids cells))) "dependency matrix cell IDs must be unique"
  raise_if (not (all (λ c. has_common c.operation cells) cells))
      "dependency operation lacks common cells"
  ok cells

abbrev pub of_operation : String → DependencyCell → Bool
of_operation operation c = str_eq c.operation operation

-- `operation_cells`
unfoldable pub operation_cells : String → List DependencyCell → Result String (List DependencyCell)
operation_cells operation cells = elim (select (of_operation operation) cells) [
  | [] ↦ err (str_append "operation absent from dependency matrix: " operation)
  | c ∷ cs ↦ ok (c ∷ cs)
]

-- `recorded[name] != current[name]`, for names that are in both.
abbrev pub is_drift : Option String → Option String → Bool
is_drift (some a) (some b) = not (str_eq a b)
is_drift _ _ = false

-- `negative_existence.get(cell.name) is not True`, on values that are Booleans.
abbrev pub is_absent : Option Bool → Bool
is_absent none = false
is_absent (some b) = b

-- One round of the loop of `verify_hashes`.
unfoldable pub verify_cell :
    Dict String → Dict String → Dict Bool → DependencyCell → Result String (Unit {0})
verify_cell recorded current absences cell =
    if not cell.required
    then ok tt
    else if is_absence cell.kind
    then raise_if (not (is_absent (lookup cell.name absences)))
        (str_append "negative-existence predicate failed: " cell.name)
    else if not (has_key cell.name recorded) || not (has_key cell.name current)
    then err (str_append "dependency hash is missing: " cell.name)
    else raise_if (is_drift (lookup cell.name recorded) (lookup cell.name current))
        (str_append "dependency drift detected: " cell.name)

unfoldable pub verify_cells :
    Dict String → Dict String → Dict Bool → List DependencyCell → Result String (Unit {0})
unfolding verify_cell
verify_cells recorded current absences [] = ok tt
verify_cells recorded current absences (c ∷ cs) = do
  verify_cell recorded current absences c
  verify_cells recorded current absences cs

-- `verify_hashes`
unfoldable pub verify_hashes :
    List DependencyCell → String → Dict String → Dict String → Dict Bool → Result String (Unit {0})
unfolding operation_cells verify_cells
verify_hashes cells operation recorded current absences = do
  chosen ← operation_cells operation cells
  verify_cells recorded current absences chosen

-- `verify_fixture_coverage`
unfoldable pub verify_fixture_coverage :
    List DependencyCell → List String → Result String (Unit {0})
verify_fixture_coverage cells fixtures =
    let expected = cell_ids (select (λ c. c.required) cells) in
    raise_if (not (is_subset expected fixtures) || not (is_subset fixtures expected))
      "dependency fixture coverage mismatch"

-- What `verify_binding_coverage` is given: the names of the values, the materials, the reads and the
-- absences that a transaction binds.
pub record Bindings : Type 0 where
  pub values : List String
  pub materials : List String
  pub reads : List String
  pub absences : List String

abbrev pub is_common : String → Bool
is_common name = str_mem name ("operation_arguments" ∷ "state" ∷ "clock" ∷ [])

-- The expected binding of a required cell is there.
unfoldable pub is_bound : Bindings → DependencyCell → Bool
is_bound b c =
    if is_absence c.kind
    then str_mem c.name b.absences
    else if is_dynamic c.kind
    then str_mem c.name b.materials || str_mem c.name b.reads
    else is_common c.name || str_mem c.name b.values || str_mem c.name b.reads

abbrev pub absence_names : List DependencyCell → List String
absence_names cells = map (λ c. c.name) (select (λ c. is_absence c.kind) cells)

-- `verify_binding_coverage`: no binding is missing and no absence is unexpected.
unfoldable pub verify_binding_coverage :
    List DependencyCell → String → Bindings → Result String (Unit {0})
unfolding operation_cells is_bound
verify_binding_coverage cells operation b = do
  chosen ← operation_cells operation cells
  let needed = select (λ c. c.required) chosen
  raise_if (not (all (is_bound b) needed) || not (is_subset b.absences (absence_names needed)))
      "dependency binding coverage mismatch"
