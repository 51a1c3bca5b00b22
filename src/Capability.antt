-- ===== src/Capability.antt =====
-- `CapabilityReport` of src/asme/contract.py: the checks of a report, and the conservative one. The
-- clock is a parameter of the caller: the time of observation is a text.
mod Laws
pub mod Tests
use agentic_skills_lifecycle.Prelude.{
  String, Bool, true, false, not, ◌&&◌, ◌||◌, Option, none, some, List, [], ◌∷◌, ◌++◌, Result, ok,
  err, ◌>>=◌, ◌>>◌, raise_if, any, all, select, str_eq, str_mem, str_sort, str_distinct, is_subset,
  if◌then◌else◌,
}
use agentic_skills_lifecycle.Canonical.{require_identifier}
use agentic_skills_lifecycle.Contract.{
  IsolationLevel, enforced, procedural, unknown_level, TraceFidelity, paper_complete,
  observable_transcript, final_only, unknown_fidelity,
}

pub record CapabilityEvidence : Type 0 where
  pub kind : String
  pub detail : String
  pub passed : Option Bool
  pub evidence_hash : Option String

pub record CapabilityReport : Type 0 where
  pub runtime_id : String
  pub runtime_version : String
  pub adapter_version : String
  pub observed_at : String
  pub model_provider : String
  pub model_id : String
  pub provider_is_openai_backed : Bool
  pub conversation_isolation : IsolationLevel
  pub filesystem_isolation : IsolationLevel
  pub tool_isolation : IsolationLevel
  pub held_out_answer_isolation : IsolationLevel
  pub wiki_isolation : IsolationLevel
  pub trace_fidelity : TraceFidelity
  pub captured_events : List String
  pub approval_surface : List String
  pub write_roots : List String
  pub network_policy : String
  pub claims_allowed : List String
  pub claims_forbidden : List String
  pub evidence : List CapabilityEvidence

-- `TraceFidelity.value`
unfoldable pub fidelity_value : TraceFidelity → String
fidelity_value paper_complete = "paper_complete"
fidelity_value observable_transcript = "observable_transcript"
fidelity_value final_only = "final_only"
fidelity_value unknown_fidelity = "unknown"

abbrev pub fidelity_claims : List String
fidelity_claims = "paper_complete" ∷ "observable_transcript" ∷ "final_only" ∷ "unknown" ∷ []

abbrev pub paper_events : List String
paper_events = "reasoning" ∷ "tool_call" ∷ "tool_output" ∷ "final_answer" ∷ []

abbrev pub is_enforced : IsolationLevel → Bool
is_enforced enforced = true
is_enforced _ = false

abbrev pub is_paper : TraceFidelity → Bool
is_paper paper_complete = true
is_paper _ = false

-- The five isolations are all enforced.
unfoldable pub is_isolated : CapabilityReport → Bool
is_isolated r =
    is_enforced r.conversation_isolation
    && is_enforced r.filesystem_isolation
    && is_enforced r.tool_isolation
    && is_enforced r.held_out_answer_isolation
    && is_enforced r.wiki_isolation

-- `fidelity_claims & set(claims_allowed) == {value}`
unfoldable pub claims_only : String → List String → Bool
claims_only value claims =
    all (λ f. if str_eq f value then str_mem f claims else not (str_mem f claims)) fidelity_claims

-- `CapabilityReport.__post_init__`
unfoldable pub checked_report : CapabilityReport → Result String CapabilityReport
unfolding is_isolated claims_only fidelity_value
checked_report r = do
  _ ← require_identifier r.runtime_id "runtime_id"
  raise_if (is_paper r.trace_fidelity && not (is_subset paper_events r.captured_events))
      "paper_complete trace is missing events"
  raise_if
      (str_mem "unseen" r.claims_allowed
        && not (is_enforced r.held_out_answer_isolation && is_enforced r.wiki_isolation))
      "unseen requires enforced held-out and wiki isolation"
  raise_if (not (is_isolated r) && str_mem "sandboxed" r.claims_allowed)
      "sandboxed claim requires every isolation dimension enforced"
  raise_if (not (is_isolated r) && not (str_mem "unsandboxed" r.claims_allowed))
      "non-enforced isolation must allow the unsandboxed label"
  raise_if (not (claims_only (fidelity_value r.trace_fidelity) r.claims_allowed))
      "claims_allowed must contain exactly the measured trace fidelity"
  ok r

-- The arguments of `conservative`, with the time at which it is called.
pub record Observation : Type 0 where
  pub runtime_id : String
  pub runtime_version : String
  pub adapter_version : String
  pub provider : String
  pub model_id : String
  pub openai_backed : Bool
  pub captured_events : List String
  pub evidence : List CapabilityEvidence
  pub observed_at : String

-- The fidelity that captured events show.
unfoldable pub fidelity_of : List String → TraceFidelity
fidelity_of captured =
    if is_subset ("tool_call" ∷ "tool_output" ∷ "final_answer" ∷ []) captured
    then observable_transcript
    else if str_mem "final_answer" captured
    then final_only
    else unknown_fidelity

unfoldable pub conservative_report : Observation → CapabilityReport
unfolding fidelity_of fidelity_value
conservative_report o =
    let captured = str_sort (str_distinct o.captured_events) in
    let fidelity = fidelity_of captured in
    let value = fidelity_value fidelity in
    record {
      runtime_id = o.runtime_id;
      runtime_version = o.runtime_version;
      adapter_version = o.adapter_version;
      observed_at = o.observed_at;
      model_provider = o.provider;
      model_id = o.model_id;
      provider_is_openai_backed = o.openai_backed;
      conversation_isolation = procedural;
      filesystem_isolation = unknown_level;
      tool_isolation = procedural;
      held_out_answer_isolation = unknown_level;
      wiki_isolation = unknown_level;
      trace_fidelity = fidelity;
      captured_events = captured;
      approval_surface = [];
      write_roots = [];
      network_policy = "unknown";
      claims_allowed = value ∷ "unsandboxed" ∷ [];
      claims_forbidden =
          str_sort
            (select (λ f. not (str_eq f value)) fidelity_claims ++ "sandboxed" ∷ "unseen" ∷ []);
      evidence = o.evidence;
    }

-- `CapabilityReport.conservative`
unfoldable pub conservative : Observation → Result String CapabilityReport
unfolding checked_report conservative_report
conservative o = checked_report (conservative_report o)
