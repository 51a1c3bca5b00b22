-- ===== src/Governance/Laws.antt =====
-- Which phases the gates of src/asme/governance.py let pass.
use agentic_skills_lifecycle.Prelude.{
  ◌≡◌, ◌↔◌, ◌⊎◌, inl, inr, refl, String, str_eq, eq_iff, true, some, ok, arith, Bool-cases,
  Option-cases,
}
use agentic_skills_lifecycle.Governance.{
  DecisionStatus, adopted, provisional, unresolved, GateDecision, Decisions, find_decision,
  is_adopted, require_adopted, require_phase_authorized,
}

-- The decision with the given key is adopted.
abbrev pub IsAdopted : String → Decisions → Type 0
IsAdopted key ds = (d : GateDecision) × (find_decision key ds ≡ some d) × (d.status ≡ adopted)

-- The decision that a phase rests on is adopted.
abbrev pub IsAuthorized : String → Decisions → Type 0
IsAuthorized phase ds =
    ((phase ≡ "implementation") × IsAdopted "A5" ds)
    ⊎ (((phase ≡ "publication") ⊎ (phase ≡ "distribution")) × IsAdopted "A4" ds)

is_adopted-eq : (s : DecisionStatus) → is_adopted s ≡ true → s ≡ adopted
is_adopted-eq adopted h = refl
is_adopted-eq provisional h = cc
is_adopted-eq unresolved h = cc

require_adopted-IsAdopted :
    (key message : String) (ds : Decisions)
    → require_adopted key message ds ≡ ok tt
    → IsAdopted key ds
unfolding require_adopted
require_adopted-IsAdopted key message ds h = elim (Option-cases (find_decision key ds)) [
  | inl n ↦ absurd (ground arith)
  | inr (d, n) ↦ (d, n, is_adopted-eq d.status (ground arith))
]

IsAdopted-require_adopted :
    (key message : String) (ds : Decisions)
    → IsAdopted key ds
    → require_adopted key message ds ≡ ok tt
unfolding require_adopted
IsAdopted-require_adopted key message ds (d, n, s) = ground arith

passing-IsAuthorized :
    (phase : String) (ds : Decisions)
    → require_phase_authorized phase ds ≡ ok tt
    → IsAuthorized phase ds
unfolding require_phase_authorized
passing-IsAuthorized phase ds h = elim (Bool-cases (str_eq phase "implementation")) [
  | inl t ↦ inl (
    (eq_iff phase "implementation").0 t,
    require_adopted-IsAdopted "A5" "implementation lacks an adopted A5 decision" ds (ground arith),
  )
  | inr f ↦ elim (Bool-cases (str_eq phase "publication")) [
    | inl t ↦ inr (
      inl ((eq_iff phase "publication").0 t),
      require_adopted-IsAdopted "A4" "publication and distribution remain blocked by unresolved A4"
          ds (ground arith),
    )
    | inr g ↦ elim (Bool-cases (str_eq phase "distribution")) [
      | inl t ↦ inr (
        inr ((eq_iff phase "distribution").0 t),
        require_adopted-IsAdopted "A4"
            "publication and distribution remain blocked by unresolved A4" ds (ground arith),
      )
      | inr d ↦ absurd (ground arith)
    ]
  ]
]

-- A phase is let pass exactly when it is the implementation and decision A5 is adopted, or it is the
-- publication or the distribution and decision A4 is adopted; in particular a live installation
-- never is.
pub require_phase_authorized-IsAuthorized :
    (phase : String) (ds : Decisions)
    → (require_phase_authorized phase ds ≡ ok tt) ↔ IsAuthorized phase ds
unfolding require_phase_authorized
require_phase_authorized-IsAuthorized phase ds =
    (passing-IsAuthorized phase ds, λ h. back phase ds h)
  where
    back :
        (phase : String) (ds : Decisions)
        → IsAuthorized phase ds
        → require_phase_authorized phase ds ≡ ok tt
    back phase ds (inl (e, a)) =
        rw (e, IsAdopted-require_adopted "A5" "implementation lacks an adopted A5 decision" ds a)
    back phase ds (inr (inl e, a)) = rw (
      e,
      IsAdopted-require_adopted "A4" "publication and distribution remain blocked by unresolved A4"
          ds a,
    )
    back phase ds (inr (inr e, a)) = rw (
      e,
      IsAdopted-require_adopted "A4" "publication and distribution remain blocked by unresolved A4"
          ds a,
    )
