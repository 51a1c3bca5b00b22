-- ===== src/Impact/Tests.antt =====
-- The history of impacts at a concrete entry.
use agentic_skills_lifecycle.Prelude.{◌≡◌, refl, none, [], ◌∷◌, ok}
use agentic_skills_lifecycle.Impact.{
  no_action, ImpactEntry, find_entry, append_impact, checked_entry, create_impact,
}
use agentic_skills_lifecycle.Impact.Laws.{IsAppended, append_impact-IsAppended}

abbrev idle : ImpactEntry
idle = record {
  entry_id = "idle";
  body = record {
    domain_id = "demo";
    iteration = 1;
    outcome = no_action;
    active_before = "a";
    candidate_snapshot = none;
    active_after = "a";
    scores = [];
    unified_diff = none;
    source_class = "ARCHITECTURE";
  };
}

idle_is_created : create_impact (λ b. "idle") idle.body ≡ ok idle
unfolding create_impact checked_entry
idle_is_created = refl

idle_appends : append_impact [] idle ≡ ok (idle ∷ [])
unfolding append_impact find_entry
idle_appends = refl

append_impact-IsAppended_example : IsAppended [] idle (idle ∷ [])
append_impact-IsAppended_example = append_impact-IsAppended [] idle (idle ∷ []) tt idle_appends
