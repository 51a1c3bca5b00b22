-- ===== src/Dependencies/Coverage.antt =====
-- When `verify_fixture_coverage` and `verify_binding_coverage` of src/asme/dependencies.py pass.
use agentic_skills_lifecycle.Prelude.{
  ◌≡◌, ◌↔◌, ◌∙◌, ◌⊎◌, inl, inr, refl, sym, String, Bool, true, false, List, [], ◌∷◌, ok, any, all,
  select, str_mem, is_subset_iff, arith, Bool-cases,
}
use agentic_skills_lifecycle.Dependencies.Matrix.{
  DependencyCell, is_absence, is_dynamic, is_common, of_operation, cell_ids,
  verify_fixture_coverage, Bindings, is_bound, absence_names, verify_binding_coverage,
}
use agentic_skills_lifecycle.Dependencies.Hashes.{operation_cells-cases}

-- The fixtures pass exactly when their names are those of the required cells, as sets.
pub verify_fixture_coverage-members :
    (cells : List DependencyCell) (fixtures : List String)
    → (verify_fixture_coverage cells fixtures ≡ ok tt)
      ↔ ((s : String) → str_mem s (cell_ids (select (λ c. c.required) cells)) ≡ str_mem s fixtures)
unfolding verify_fixture_coverage
verify_fixture_coverage-members cells fixtures =
    let expected = cell_ids (select (λ c. c.required) cells) in
    let to = is_subset_iff expected fixtures in
    let from = is_subset_iff fixtures expected in
    (
      λ h s.
          both (str_mem s expected) (str_mem s fixtures) (to.0 (ground arith) s)
            (from.0 (ground arith) s),
      λ h.
          let there = to.1 (λ s m. sym (h s) ∙ m) in
          let back = from.1 (λ s m. h s ∙ m) in ground arith,
    )
  where
    both : (a b : Bool) → (a ≡ true → b ≡ true) → (b ≡ true → a ≡ true) → a ≡ b
    both true true f g = refl
    both false false f g = refl
    both true false f g = sym (f refl)
    both false true f g = g refl

-- How a required cell is bound: a predicate of absence by an absence, a dynamic input by a material
-- or a read, and any other input by a value or a read, where it is not one of the common inputs.
abbrev pub IsBound : Bindings → DependencyCell → Type 0
IsBound b c =
    (is_absence c.kind ≡ true → str_mem c.name b.absences ≡ true)
    × (is_dynamic c.kind ≡ true
        → (str_mem c.name b.materials ≡ true) ⊎ (str_mem c.name b.reads ≡ true))
    × (is_absence c.kind ≡ false
        → is_dynamic c.kind ≡ false
        → is_common c.name ≡ false
        → (str_mem c.name b.values ≡ true) ⊎ (str_mem c.name b.reads ≡ true))

abbrev pub AreBound : Bindings → List DependencyCell → Type 0
AreBound b [] = Unit {0}
AreBound b (c ∷ cs) = (c.required ≡ true → IsBound b c) × AreBound b cs

is_bound-IsBound : (b : Bindings) (c : DependencyCell) → (is_bound b c ≡ true) ↔ IsBound b c
unfolding is_bound
is_bound-IsBound b c = elim (Bool-cases (is_absence c.kind)) [
  | inl a ↦ (λ h. ground arith, λ h. ground arith)
  | inr n ↦ (λ h. ground arith, λ h. ground arith)
]

all-AreBound :
    (b : Bindings) (cells : List DependencyCell)
    → (all (is_bound b) (select (λ c. c.required) cells) ≡ true) ↔ AreBound b cells
all-AreBound b [] = (λ h. tt, λ h. refl)
all-AreBound b (c ∷ cs) =
    let here = is_bound-IsBound b c in
    let rest = all-AreBound b cs in
    elim (Bool-cases c.required) [
      | inl t ↦ (
        λ h. (λ r. here.0 (ground arith), rest.0 (ground arith)),
        λ (now, later). ground (arith, here.1 (now t), rest.1 later),
      )
      | inr f ↦ (
        λ h. (λ r. absurd (ground arith), rest.0 (ground arith)),
        λ (now, later). ground (arith, rest.1 later),
      )
    ]

-- `verify_binding_coverage` returns exactly when the operation has cells, each of its required cells
-- is bound in the way of its kind, and each absence that is bound is one that a cell asks for.
pub verify_binding_coverage-AreBound :
    (cells : List DependencyCell) (operation : String) (b : Bindings)
    → (verify_binding_coverage cells operation b ≡ ok tt) ↔ (
        (any (of_operation operation) cells ≡ true)
        × AreBound b (select (of_operation operation) cells)
        × ((s : String)
            → str_mem s b.absences ≡ true
            → str_mem s
                (absence_names (select (λ c. c.required) (select (of_operation operation) cells)))
              ≡ true))
unfolding verify_binding_coverage
verify_binding_coverage-AreBound cells operation b = elim (operation_cells-cases operation cells) [
  | inl (t, e) ↦
      let chosen = select (of_operation operation) cells in
      let bound = all-AreBound b chosen in
      let asked = is_subset_iff b.absences (absence_names (select (λ c. c.required) chosen)) in
      (
        λ h. (t, bound.0 (ground arith), asked.0 (ground arith)),
        λ (u, x, y). ground (arith, bound.1 x, asked.1 y),
      )
  | inr (message, f, e) ↦ (λ h. absurd (ground arith), λ (u, x, y). absurd (ground arith))
]
