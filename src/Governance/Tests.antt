-- ===== src/Governance/Tests.antt =====
-- The gates at the recorded decisions.
use agentic_skills_lifecycle.Prelude.{◌≡◌, ◌↔◌, ok}
use agentic_skills_lifecycle.Governance.{development_decisions, require_phase_authorized}
use agentic_skills_lifecycle.Governance.Laws.{IsAuthorized, require_phase_authorized-IsAuthorized}

require_phase_authorized-IsAuthorized_example :
    (require_phase_authorized "publication" development_decisions ≡ ok tt)
    ↔ IsAuthorized "publication" development_decisions
require_phase_authorized-IsAuthorized_example =
    require_phase_authorized-IsAuthorized "publication" development_decisions
