-- ===== src/Transaction/Laws/Locations.antt =====
-- The paths that the effects of a request of src/asme/transaction.py take place at. Two of its governed
-- roots may lie in each other, so that two (root, path) pairs may be one file.
use agentic_skills_lifecycle.Prelude.{
  ◌≡◌, refl, Bool, true, false, not, ◌&&◌, ◌||◌, List, [], ◌∷◌, ◌++◌, arith,
}
use agentic_skills_lifecycle.Transaction.Records.{PlannedWrite, PlannedDeletion}
use agentic_skills_lifecycle.Transaction.Tree.{Location, same_path}
use agentic_skills_lifecycle.Transaction.Disk.{Digests}
use agentic_skills_lifecycle.Transaction.Materialize.{Engine, state_path}
use agentic_skills_lifecycle.Transaction.Laws.Trees.{same_path_sym}
use agentic_skills_lifecycle.Transaction.Laws.Writes.{write_path, delete_path}

abbrev pub path_mem : Location → List Location → Bool
path_mem k [] = false
path_mem k (j ∷ js) = same_path j k || path_mem k js

-- No path occurs twice.
abbrev pub are_different : List Location → Bool
are_different [] = true
are_different (j ∷ js) = not (path_mem j js) && are_different js

-- No path of the first list is one of the second.
abbrev pub are_disjoint : List Location → List Location → Bool
are_disjoint [] ks = true
are_disjoint (j ∷ js) ks = not (path_mem j ks) && are_disjoint js ks

pub are_disjoint-head :
    (js : List Location) (k : Location) (ks : List Location)
    → are_disjoint js (k ∷ ks) ≡ true
    → (path_mem k js ≡ false) × (are_disjoint js ks ≡ true)
are_disjoint-head [] k ks h = (refl, refl)
are_disjoint-head (j ∷ js) k ks h =
    let (a, b) = are_disjoint-head js k ks (ground arith) in
    let n = same_path_sym k j in (ground arith, ground arith)

module _ (g : Digests) (engine : Engine) where
  abbrev pub write_paths : List PlannedWrite → List Location
  write_paths [] = []
  write_paths (w ∷ ws) = write_path g engine w ∷ write_paths ws

  abbrev pub delete_paths : List PlannedDeletion → List Location
  delete_paths [] = []
  delete_paths (x ∷ xs) = delete_path g engine x ∷ delete_paths xs

  -- Effects at different files: no file is written twice, none is both written and deleted, and
  -- none is one of the engine's own.
  pub record AreSeparate (ws : List PlannedWrite) (xs : List PlannedDeletion) : Type 0 where
    pub distinct : are_different (write_paths ws) ≡ true
    pub disjoint : are_disjoint (write_paths ws) (delete_paths xs) ≡ true
    pub governed : path_mem (state_path g engine) (write_paths ws ++ delete_paths xs) ≡ false
