-- ===== src/Capture/Tests.antt =====
-- The capture of a final answer, and the theorem of Capture/ there.
use agentic_skills_lifecycle.Prelude.{◌≡◌, some, none, List, [], ◌∷◌, is_ok}
use agentic_skills_lifecycle.Capability.Tests.{report}
use agentic_skills_lifecycle.Capture.{Event, kinds, Job, captured_execution}
use agentic_skills_lifecycle.Capture.Laws.{may_capture, captured_execution_iff}

abbrev events : List Event
events = record { kind = some "final_answer"; event_type = none } ∷ []

abbrev job : Job
job = record {
  execution_id = "e1";
  runtime_id = "runtime";
  runtime_version = "1";
  adapter_version = "1";
  job_spec_hash = "job";
  prompt_hash = "prompt";
  active_snapshot_hash = "snapshot";
  started = "now";
  finished = "now";
  termination = "done";
}

captured_execution_iff_example :
    is_ok (captured_execution (λ s. s) (λ c. "report") job events "4" report)
    ≡ may_capture report.trace_fidelity (kinds events) "4"
captured_execution_iff_example =
    captured_execution_iff (λ s. s) (λ c. "report") job events "4" report
