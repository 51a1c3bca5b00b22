-- ===== src/Dependencies/Tests.antt =====
-- The default matrix of src/asme/dependencies.py, and its checks at concrete dependencies.
use agentic_skills_lifecycle.Prelude.{
  ◌≡◌, ◌↔◌, refl, String, Bool, true, List, [], ◌∷◌, ok, is_ok, Dict, str_mem, any, select, length,
}
use agentic_skills_lifecycle.Dependencies.Matrix.{
  DependencyCell, replay_source, negative_existence, checked_matrix, cell_ids, of_operation,
  verify_hashes, verify_fixture_coverage, Bindings, absence_names, verify_binding_coverage,
}
use agentic_skills_lifecycle.Dependencies.Table.{
  default_cells, table_cells, number_cells, cell_name,
}
use agentic_skills_lifecycle.Dependencies.Hashes.{AreCurrent, verify_hashes-AreCurrent}
use agentic_skills_lifecycle.Dependencies.Coverage.{
  verify_fixture_coverage-members, AreBound, verify_binding_coverage-AreBound,
}

default_size : length default_cells ≡ 105
unfolding default_cells table_cells number_cells cell_name
default_size = refl

default_is_valid : is_ok (checked_matrix default_cells) ≡ true
unfolding default_cells table_cells number_cells cell_name checked_matrix
default_is_valid = refl

abbrev two_cells : List DependencyCell
two_cells =
    record {
      cell_id = "dep-001";
      operation = "recover";
      kind = replay_source;
      name = "source";
      required = true;
      source_class = "ARCHITECTURE";
    }
    ∷ record {
      cell_id = "dep-002";
      operation = "recover";
      kind = negative_existence;
      name = "target";
      required = true;
      source_class = "ARCHITECTURE";
    }
    ∷ []

abbrev hashes : Dict String
hashes = ("source", "a") ∷ []

abbrev absent_target : Dict Bool
absent_target = ("target", true) ∷ []

verify_hashes-AreCurrent_example :
    (verify_hashes two_cells "recover" hashes hashes absent_target ≡ ok tt) ↔ (
      (any (of_operation "recover") two_cells ≡ true)
      × AreCurrent hashes hashes absent_target "recover" two_cells)
verify_hashes-AreCurrent_example =
    verify_hashes-AreCurrent hashes hashes absent_target two_cells "recover"

verify_fixture_coverage-members_example :
    (verify_fixture_coverage two_cells ("dep-002" ∷ "dep-001" ∷ []) ≡ ok tt) ↔ (
      (s : String)
      → str_mem s (cell_ids (select (λ c. c.required) two_cells))
        ≡ str_mem s ("dep-002" ∷ "dep-001" ∷ []))
verify_fixture_coverage-members_example =
    verify_fixture_coverage-members two_cells ("dep-002" ∷ "dep-001" ∷ [])

abbrev target_bindings : Bindings
target_bindings = record {
  values = [];
  materials = [];
  reads = "source" ∷ [];
  absences = "target" ∷ [];
}

verify_binding_coverage-AreBound_example :
    (verify_binding_coverage two_cells "recover" target_bindings ≡ ok tt) ↔ (
      (any (of_operation "recover") two_cells ≡ true)
      × AreBound target_bindings (select (of_operation "recover") two_cells)
      × ((s : String)
          → str_mem s target_bindings.absences ≡ true
          → str_mem s
              (absence_names (select (λ c. c.required) (select (of_operation "recover") two_cells)))
            ≡ true))
verify_binding_coverage-AreBound_example =
    verify_binding_coverage-AreBound two_cells "recover" target_bindings
