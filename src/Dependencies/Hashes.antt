-- ===== src/Dependencies/Hashes.antt =====
-- When `verify_hashes` of src/asme/dependencies.py lets an operation go on.
use agentic_skills_lifecycle.Prelude.{
  ◌≡◌, ◌↔◌, ◌⊎◌, inl, inr, refl, String, str_eq, eq_iff, eq_refl, Bool, true, false, some, List, [],
  ◌∷◌, ok, err, any, select, select-none, select-some, str_append, Dict, lookup, has_key, arith,
  Option-cases, Bool-cases,
}
use agentic_skills_lifecycle.Dependencies.Matrix.{
  DependencyCell, is_absence, of_operation, operation_cells, verify_cell, verify_cells,
  verify_hashes,
}

-- The cells of an operation, where it has some.
pub operation_cells-cases :
    (operation : String) (cells : List DependencyCell)
    → ((any (of_operation operation) cells ≡ true)
        × (operation_cells operation cells ≡ ok (select (of_operation operation) cells)))
      ⊎ ((e : String) × (any (of_operation operation) cells ≡ false)
          × (operation_cells operation cells ≡ err e))
unfolding operation_cells
operation_cells-cases operation cells = elim (Bool-cases (any (of_operation operation) cells)) [
  | inl t ↦ let (c, cs, e) = select-some (of_operation operation) cells t in inl (t, ground arith)
  | inr f ↦
      let e = select-none (of_operation operation) cells f in
      inr (str_append "operation absent from dependency matrix: " operation, f, ground arith)
]

module _ (recorded current : Dict String) (absences : Dict Bool) where
  -- A dependency has not changed: what must not exist does not, and any other input has the hash
  -- that was recorded.
  pub record IsCurrent (c : DependencyCell) : Type 0 where
    pub absent : is_absence c.kind ≡ true → lookup c.name absences ≡ some true
    pub bound :
        is_absence c.kind ≡ false
        → (h : String) × (lookup c.name recorded ≡ some h) × (lookup c.name current ≡ some h)

  -- Every required dependency of the operation has not changed.
  abbrev pub AreCurrent : String → List DependencyCell → Type 0
  AreCurrent operation [] = Unit {0}
  AreCurrent operation (c ∷ cs) =
      (c.operation ≡ operation → c.required ≡ true → IsCurrent c) × AreCurrent operation cs

  verified-IsCurrent :
      (c : DependencyCell)
      → verify_cell recorded current absences c ≡ ok tt
      → c.required ≡ true
      → IsCurrent c
  unfolding verify_cell has_key
  verified-IsCurrent c h r = record { absent = λ a. absent_now a; bound = λ b. bound_now b }
    where
      absent_now : is_absence c.kind ≡ true → lookup c.name absences ≡ some true
      absent_now a = elim (Option-cases (lookup c.name absences)) [
        | inl n ↦ absurd (ground arith)
        | inr (b, n) ↦ ground arith
      ]

      bound_now :
          is_absence c.kind ≡ false
          → (h : String) × (lookup c.name recorded ≡ some h) × (lookup c.name current ≡ some h)
      bound_now b = elim (Option-cases (lookup c.name recorded)) [
        | inl n ↦ absurd (ground arith)
        | inr (x, n) ↦ elim (Option-cases (lookup c.name current)) [
          | inl m ↦ absurd (ground arith)
          | inr (y, m) ↦ (x, n, ground (arith, eq_iff x y))
        ]
      ]

  IsCurrent-verified :
      (c : DependencyCell)
      → (c.required ≡ true → IsCurrent c)
      → verify_cell recorded current absences c ≡ ok tt
  unfolding verify_cell has_key
  IsCurrent-verified c f = elim (Bool-cases c.required) [
    | inr n ↦ ground arith
    | inl r ↦
        let now = f r in
        elim (Bool-cases (is_absence c.kind)) [
          | inl a ↦ ground (arith, now.absent a)
          | inr b ↦ let (h, x, y) = now.bound b in ground (arith, eq_refl h)
        ]
  ]

  verify_cells-AreCurrent :
      (operation : String) (cells : List DependencyCell)
      → (verify_cells recorded current absences (select (of_operation operation) cells) ≡ ok tt)
        ↔ AreCurrent operation cells
  unfolding verify_cells
  verify_cells-AreCurrent operation [] = (λ h. tt, λ h. refl)
  verify_cells-AreCurrent operation (c ∷ cs) =
      let rest = verify_cells-AreCurrent operation cs in
      elim (Bool-cases (str_eq c.operation operation)) [
        | inl e ↦ (
          λ h. (λ o r. verified-IsCurrent c (ground arith) r, rest.0 (ground arith)),
          λ (now, later).
              let here = IsCurrent-verified c (now ((eq_iff c.operation operation).0 e)) in
              ground (arith, rest.1 later),
        )
        | inr n ↦ (
          λ h.
              (λ o r. absurd (ground (arith, eq_iff c.operation operation)), rest.0 (ground arith)),
          λ (now, later). ground (arith, rest.1 later),
        )
      ]

  -- `verify_hashes` returns exactly when the operation has cells and every required one has not
  -- changed: a predicate of absence holds, and any other input has the hash that was recorded.
  pub verify_hashes-AreCurrent :
      (cells : List DependencyCell) (operation : String)
      → (verify_hashes cells operation recorded current absences ≡ ok tt)
        ↔ ((any (of_operation operation) cells ≡ true) × AreCurrent operation cells)
  unfolding verify_hashes
  verify_hashes-AreCurrent cells operation = elim (operation_cells-cases operation cells) [
    | inl (t, e) ↦
        let loop = verify_cells-AreCurrent operation cells in
        (λ h. (t, loop.0 (ground arith)), λ (u, a). ground (arith, loop.1 a))
    | inr (message, f, e) ↦ (λ h. absurd (ground arith), λ (u, a). absurd (ground arith))
  ]
