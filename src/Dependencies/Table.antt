-- ===== src/Dependencies/Table.antt =====
-- `_OPERATION_INPUTS` and `default_dependency_matrix` of src/asme/dependencies.py.
use agentic_skills_lifecycle.Prelude.{
  ℕ, zero, suc, ◌+◌, ◌/◌, ◌%◌, String, str_append, true, List, [], ◌∷◌, ◌++◌,
}
use agentic_skills_lifecycle.Dependencies.Matrix.{
  DependencyKind, argument, clock, dynamic_input, negative_existence, output, route, seal, state,
  replay_source, DependencyCell,
}

-- The specific inputs of an operation.
abbrev pub Inputs : Type 0
Inputs = List (DependencyKind × String)

-- `_OPERATION_INPUTS`
abbrev pub operation_inputs : List (String × Inputs)
operation_inputs =
    ("prepare-rollout", (seal, "seal") ∷ (dynamic_input, "named_snapshot") ∷ [])
    ∷ (
      "record-execution",
      (dynamic_input, "prepared_job_record") ∷ (dynamic_input, "captured_execution") ∷ [],
    )
    ∷ (
      "ingest-rollout",
      (seal, "seal") ∷ (dynamic_input, "prompts") ∷ (dynamic_input, "submitted_outputs") ∷ [],
    )
    ∷ ("reset-manifest", (dynamic_input, "manifest") ∷ (dynamic_input, "manifest_sidecars") ∷ [])
    ∷ (
      "baseline-finalize",
      (dynamic_input, "baseline_manifest") ∷ (dynamic_input, "baseline_sidecars") ∷ [],
    )
    ∷ (
      "sample",
      (dynamic_input, "train_manifest")
          ∷ (dynamic_input, "raw_traces")
          ∷ (dynamic_input, "raw_sidecars")
          ∷ (dynamic_input, "wiki")
          ∷ [],
    )
    ∷ (
      "apply-wiki",
      (dynamic_input, "maintainer_output")
          ∷ (dynamic_input, "maintainer_input")
          ∷ (dynamic_input, "wiki")
          ∷ (dynamic_input, "train_manifest")
          ∷ [],
    )
    ∷ (
      "proposer-context",
      (dynamic_input, "wiki")
          ∷ (dynamic_input, "train_manifest")
          ∷ (dynamic_input, "raw_sidecars")
          ∷ (dynamic_input, "train_answers")
          ∷ (dynamic_input, "active_snapshot")
          ∷ [],
    )
    ∷ (
      "apply-proposal",
      (dynamic_input, "proposal_output")
          ∷ (dynamic_input, "active_snapshot")
          ∷ (seal, "seal_markers")
          ∷ [],
    )
    ∷ (
      "gate",
      (dynamic_input, "evaluation_manifests")
          ∷ (dynamic_input, "evaluation_sidecars")
          ∷ (dynamic_input, "candidate_snapshot")
          ∷ (dynamic_input, "active_snapshot")
          ∷ (dynamic_input, "provisional")
          ∷ [],
    )
    ∷ (
      "abandon",
      (dynamic_input, "evaluation_manifests")
          ∷ (dynamic_input, "evaluation_sidecars")
          ∷ (dynamic_input, "candidate_snapshot")
          ∷ (dynamic_input, "provisional")
          ∷ [],
    )
    ∷ (
      "export",
      (dynamic_input, "test_manifests")
          ∷ (dynamic_input, "test_sidecars")
          ∷ (dynamic_input, "active_snapshot")
          ∷ (seal, "seal")
          ∷ (route, "delivery_route")
          ∷ (negative_existence, "existing_staging_target")
          ∷ [],
    )
    ∷ (
      "package-untested",
      (dynamic_input, "active_snapshot")
          ∷ (dynamic_input, "untested_approval")
          ∷ (seal, "seal")
          ∷ (route, "delivery_route")
          ∷ (negative_existence, "test_artifacts_absent")
          ∷ (negative_existence, "existing_staging_target")
          ∷ [],
    )
    ∷ ("recover", (replay_source, "state_transaction") ∷ [])
    ∷ []

abbrev pub common_inputs : Inputs
common_inputs =
    (argument, "operation_arguments")
    ∷ (state, "state")
    ∷ (clock, "clock")
    ∷ (output, "output_plan")
    ∷ []

abbrev digits : List String
digits = "0" ∷ "1" ∷ "2" ∷ "3" ∷ "4" ∷ "5" ∷ "6" ∷ "7" ∷ "8" ∷ "9" ∷ []

abbrev pick : List String → ℕ → String
pick [] n = ""
pick (d ∷ ds) zero = d
pick (d ∷ ds) (suc n) = pick ds n

-- `f"dep-{sequence:03d}"`, for numbers below 1000.
unfoldable pub cell_name : ℕ → String
cell_name n = str_append "dep-" (
    str_append (pick digits (n / 100))
      (str_append (pick digits (n / 10 % 10)) (pick digits (n % 10))))

-- The cells of one operation, numbered on from a sequence number.
unfoldable pub number_cells : ℕ → String → Inputs → List DependencyCell
unfolding cell_name
number_cells n operation [] = []
number_cells n operation ((kind, name) ∷ rest) =
    record {
      cell_id = cell_name n;
      operation = operation;
      kind = kind;
      name = name;
      required = true;
      source_class = "ARCHITECTURE";
    }
    ∷ number_cells (n + 1) operation rest

abbrev count : Inputs → ℕ
count [] = 0
count (i ∷ is) = 1 + count is

unfoldable pub table_cells : ℕ → List (String × Inputs) → List DependencyCell
unfolding number_cells
table_cells n [] = []
table_cells n ((operation, specific) ∷ rest) =
    number_cells n operation (common_inputs ++ specific)
    ++ table_cells (n + count (common_inputs ++ specific)) rest

-- `default_dependency_matrix().cells`
unfoldable pub default_cells : List DependencyCell
unfolding table_cells
default_cells = table_cells 1 operation_inputs
