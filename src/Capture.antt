-- ===== src/Capture.antt =====
-- Captured executions: `CapturedExecution` of src/asme/contract.py, and `classify_trace` and
-- `captured_execution` of src/asme/evidence.py. The kinds of an event are texts or absent, and of an
-- event only they are kept. SHA-256 of a text and the digest of a report are parameters.
mod Laws
mod Tests
use agentic_skills_lifecycle.Prelude.{
  ℕ, String, str_eq, Bool, true, false, not, ◌&&◌, ◌||◌, Option, none, some, List, [], ◌∷◌, map,
  Result, ok, err, ◌>>=◌, ◌>>◌, raise_if, ltb, any, str_mem, is_subset, present, if◌then◌else◌,
}
use agentic_skills_lifecycle.Contract.{
  IsolationLevel, TraceFidelity, paper_complete, observable_transcript, final_only,
  unknown_fidelity,
}
use agentic_skills_lifecycle.Capability.{CapabilityReport, paper_events, is_paper}

pub record Event : Type 0 where
  pub kind : Option String
  pub event_type : Option String

-- `str(event.get("kind") or event.get("event_type") or "")`
unfoldable pub event_kind : Event → String
event_kind e = elim (present e.kind) [
  | true ↦ (elim e.kind [ some s ↦ s | none ↦ "" ])
  | false ↦ (elim e.event_type [ some s ↦ s | none ↦ "" ])
]

abbrev pub kinds : List Event → List String
kinds events = map event_kind events

-- `classify_trace`
unfoldable pub classify_trace : List Event → String → TraceFidelity
unfolding event_kind
classify_trace events output =
    if is_subset paper_events (kinds events)
    then paper_complete
    else if any (λ k. str_mem k (kinds events))
        ("assistant_message" ∷ "tool_call" ∷ "tool_output" ∷ [])
    then observable_transcript
    else if str_eq output ""
    then unknown_fidelity
    else final_only

unfoldable pub rank : TraceFidelity → ℕ
rank unknown_fidelity = 0
rank final_only = 1
rank observable_transcript = 2
rank paper_complete = 3

pub record Isolation : Type 0 where
  pub conversation : IsolationLevel
  pub filesystem : IsolationLevel
  pub tool : IsolationLevel
  pub held_out_answer : IsolationLevel
  pub wiki : IsolationLevel

-- The job of an execution, as `captured_execution` takes it over.
pub record Job : Type 0 where
  pub execution_id : String
  pub runtime_id : String
  pub runtime_version : String
  pub adapter_version : String
  pub job_spec_hash : String
  pub prompt_hash : String
  pub active_snapshot_hash : String
  pub started : String
  pub finished : String
  pub termination : String

pub record CapturedExecution : Type 0 where
  pub job : Job
  pub captured_events : List Event
  pub returned_output : String
  pub returned_output_hash : String
  pub trace_fidelity : TraceFidelity
  pub isolation_labels : Isolation
  pub capability_report_hash : String

abbrev pub is_final : TraceFidelity → Bool
is_final final_only = true
is_final _ = false

unfoldable pub isolation_of : CapabilityReport → Isolation
isolation_of c = record {
  conversation = c.conversation_isolation;
  filesystem = c.filesystem_isolation;
  tool = c.tool_isolation;
  held_out_answer = c.held_out_answer_isolation;
  wiki = c.wiki_isolation;
}

module _ (sha256 : String → String) (digest : CapabilityReport → String) where
  -- `CapturedExecution.__post_init__`
  unfoldable pub checked_execution : CapturedExecution → Result String CapturedExecution
  unfolding event_kind
  checked_execution e = do
    raise_if (not (str_eq (sha256 e.returned_output) e.returned_output_hash))
        "returned output is not bound to returned_output_hash"
    raise_if (is_paper e.trace_fidelity && not (is_subset paper_events (kinds e.captured_events)))
        "paper_complete execution lacks required captured events"
    raise_if (is_final e.trace_fidelity && not (str_mem "final_answer" (kinds e.captured_events)))
        "final_only execution lacks a captured final answer"
    ok e

  abbrev pub executed : Job → List Event → String → CapabilityReport → CapturedExecution
  executed job events output c = record {
    job = job;
    captured_events = events;
    returned_output = output;
    returned_output_hash = sha256 output;
    trace_fidelity = classify_trace events output;
    isolation_labels = isolation_of c;
    capability_report_hash = digest c;
  }

  -- `captured_execution`
  unfoldable pub captured_execution :
      Job → List Event → String → CapabilityReport → Result String CapturedExecution
  unfolding classify_trace rank isolation_of checked_execution
  captured_execution job events output c = do
    raise_if (ltb (rank c.trace_fidelity) (rank (classify_trace events output)))
        "captured events exceed the measured capability report"
    checked_execution (executed job events output c)
