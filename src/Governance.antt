-- ===== src/Governance.antt =====
-- The release gates of src/asme/governance.py. A mapping of decisions is an association list; the
-- message of a missing key is the key. The hash of the decision log is not here.
pub mod Laws
mod Tests
use agentic_skills_lifecycle.Prelude.{
  String, str_append, str_eq, Bool, true, false, not, ◌&&◌, ◌||◌, Option, none, some, List, [], ◌∷◌,
  Result, ok, err, ◌>>=◌, ◌>>◌, raise_if, is_blank, str_mem, any, if◌then◌else◌,
}

pub data DecisionStatus : Type 0 where
  adopted provisional unresolved : DecisionStatus

pub record GateDecision : Type 0 where
  pub decision_id : String
  pub status : DecisionStatus
  pub value : String
  pub source_class : String
  pub source_locator : String
  pub consequence : String

-- `GateDecision.__post_init__`
unfoldable pub checked_decision : GateDecision → Result String GateDecision
checked_decision d = do
  raise_if (not (str_mem d.decision_id ("A1" ∷ "A2" ∷ "A3" ∷ "A4" ∷ "A5" ∷ [])))
      "unknown Gate A decision ID"
  raise_if (any is_blank (d.value ∷ d.source_class ∷ d.source_locator ∷ d.consequence ∷ []))
      "Gate A decision fields cannot be blank"
  ok d

abbrev pub Decisions : Type 0
Decisions = List (String × GateDecision)

abbrev decision_a1 : GateDecision
decision_a1 = record {
  decision_id = "A1";
  status = adopted;
  value = "truthful narrower evidence labels are allowed";
  source_class = "DIRECT_CURRENT_GOAL";
  source_locator =
      "PROVENANCE.md#current-development-authority; sha256:c8966236b915aee64067f03ae28a7d6028c31b171b3b8e7c771ef2e7fed6e809; scope:truthful-capability-labels";
  consequence = "no runtime claim may exceed measured evidence";
}

abbrev decision_a2 : GateDecision
decision_a2 = record {
  decision_id = "A2";
  status = adopted;
  value =
      "strict aggregate improvement plus fresh confirmation for local acceptance; adopted as drafted in the Gate A approval record, 2026-09-01";
  source_class = "ARCHITECTURE_DEFAULT";
  source_locator = "locked/architecture-contract.md:section-16-A2";
  consequence = "paper-comparable public claims remain separately gated";
}

abbrev decision_a3 : GateDecision
decision_a3 = record {
  decision_id = "A3";
  status = adopted;
  value = "trusted text-only domains; adopted as drafted in the Gate A approval record, 2026-09-01";
  source_class = "ARCHITECTURE_DEFAULT";
  source_locator = "locked/architecture-contract.md:section-16-A3";
  consequence = "artifact-producing and environment-interactive domains remain excluded";
}

abbrev decision_a4 : GateDecision
decision_a4 = record {
  decision_id = "A4";
  status = adopted;
  value =
      "free community use with preserved attribution; MIT (code) plus CC BY 4.0 (docs/methodology) selected per the Gate A approval record, 2026-09-01, Option A; the project-page link to manysaintvictormd.com is a non-binding NOTICE.md request";
  source_class = "DIRECT_CURRENT_REQUIREMENT";
  source_locator =
      "PROVENANCE.md#owner-attribution-requirement; sha256:8245fd2d7d6205935cd948b9af01a199d82f24118854192580c75237e3e13ac8; scope:attribution-and-backlink";
  consequence =
      "publication and distribution proceed only through recorded owner action-time approvals";
}

abbrev decision_a5 : GateDecision
decision_a5 = record {
  decision_id = "A5";
  status = adopted;
  value = "bounded core and Hermes adapter development in an isolated worktree";
  source_class = "DIRECT_CURRENT_GOAL";
  source_locator =
      "PROVENANCE.md#current-development-authority; sha256:c8966236b915aee64067f03ae28a7d6028c31b171b3b8e7c771ef2e7fed6e809; scope:bounded-isolated-worktree-implementation";
  consequence = "no live installation, commit, merge, publication, or distribution";
}

-- `DEVELOPMENT_DECISIONS`
abbrev pub development_decisions : Decisions
development_decisions =
    ("A1", decision_a1)
    ∷ ("A2", decision_a2)
    ∷ ("A3", decision_a3)
    ∷ ("A4", decision_a4)
    ∷ ("A5", decision_a5)
    ∷ []

abbrev pub find_decision : String → Decisions → Option GateDecision
find_decision key [] = none
find_decision key ((k, d) ∷ rest) = if str_eq k key then some d else find_decision key rest

abbrev pub is_adopted : DecisionStatus → Bool
is_adopted adopted = true
is_adopted _ = false

-- `if decisions[key].status is not DecisionStatus.ADOPTED: raise`
unfoldable pub require_adopted : String → String → Decisions → Result String (Unit {0})
require_adopted key message ds = elim (find_decision key ds) [
  | none ↦ err key
  | some d ↦ raise_if (not (is_adopted d.status)) message
]

-- `require_phase_authorized(phase, decisions)`
unfoldable pub require_phase_authorized : String → Decisions → Result String (Unit {0})
unfolding require_adopted
require_phase_authorized phase ds =
    if str_eq phase "implementation"
    then require_adopted "A5" "implementation lacks an adopted A5 decision" ds
    else if str_eq phase "publication" || str_eq phase "distribution"
    then require_adopted "A4" "publication and distribution remain blocked by unresolved A4" ds
    else if str_eq phase "live_installation"
    then err "live installation requires a separate action-time approval record"
    else err (str_append "unknown governed phase: " phase)
