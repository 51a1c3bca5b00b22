-- ===== src/Capture/Laws.antt =====
-- What a captured execution of src/asme/evidence.py claims.
use agentic_skills_lifecycle.Prelude.{
  ◌≡◌, refl, String, str_eq, eq_refl, Bool, not, ◌&&◌, ◌||◌, List, is_ok, str_mem, arith,
}
use agentic_skills_lifecycle.Contract.{
  TraceFidelity, paper_complete, observable_transcript, final_only, unknown_fidelity,
}
use agentic_skills_lifecycle.Capability.{CapabilityReport}
use agentic_skills_lifecycle.Capture.{
  Event, kinds, classify_trace, rank, Job, checked_execution, captured_execution,
}

-- The events of a complete trace.
abbrev pub is_complete : List String → Bool
is_complete ks =
    str_mem "reasoning" ks
    && str_mem "tool_call" ks
    && str_mem "tool_output" ks
    && str_mem "final_answer" ks

-- An event of the transcript.
abbrev pub is_observed : List String → Bool
is_observed ks =
    str_mem "assistant_message" ks || str_mem "tool_call" ks || str_mem "tool_output" ks

-- Whether a trace can be captured, by the fidelity that the report measured and the kinds of the
-- trace's events.
abbrev pub may_capture : TraceFidelity → List String → String → Bool
may_capture paper_complete ks output =
    is_complete ks || is_observed ks || str_mem "final_answer" ks || str_eq output ""
may_capture observable_transcript ks output =
    not (is_complete ks) && (is_observed ks || str_mem "final_answer" ks || str_eq output "")
may_capture final_only ks output =
    not (is_complete ks) && not (is_observed ks) && (str_mem "final_answer" ks || str_eq output "")
may_capture unknown_fidelity ks output =
    not (is_complete ks) && not (is_observed ks) && str_eq output ""

module _ (sha256 : String → String) (digest : CapabilityReport → String) where
  -- A capture is accepted by the fidelity that the report measured. A trace with all the events of
  -- a complete one needs `paper_complete`; another one with an assistant message, a tool call or a
  -- tool output needs at least `observable_transcript`; any other with an output needs at least
  -- `final_only` and an event of the final answer; and a trace without an output needs nothing.
  pub captured_execution_iff :
      (job : Job) (events : List Event) (output : String) (c : CapabilityReport)
      → is_ok (captured_execution sha256 digest job events output c)
        ≡ may_capture c.trace_fidelity (kinds events) output
  unfolding captured_execution checked_execution classify_trace rank
  captured_execution_iff job events output c = by_level c.trace_fidelity refl
    where
      by_level :
          (f : TraceFidelity)
          → c.trace_fidelity ≡ f
          → is_ok (captured_execution sha256 digest job events output c)
            ≡ may_capture f (kinds events) output
      by_level paper_complete e = ground (arith, eq_refl (sha256 output))
      by_level observable_transcript e = ground (arith, eq_refl (sha256 output))
      by_level final_only e = ground (arith, eq_refl (sha256 output))
      by_level unknown_fidelity e = ground (arith, eq_refl (sha256 output))
