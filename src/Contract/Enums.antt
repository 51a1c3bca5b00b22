-- ===== src/Contract/Enums.antt =====
-- `LifecycleState`, `Route`, `IsolationLevel`, `TraceFidelity` and `Role` of src/asme/contract.py.
use agentic_skills_lifecycle.Prelude.{String}

pub data LifecycleState : Type 0 where
  uninitialized needs_optional_seed needs_baseline_run needs_train_run : LifecycleState
  needs_wiki needs_proposal needs_val_run needs_gate needs_val_confirm done : LifecycleState

-- `LifecycleState.value`
unfoldable pub state_value : LifecycleState → String
state_value uninitialized = "UNINITIALIZED"
state_value needs_optional_seed = "NEEDS_OPTIONAL_SEED"
state_value needs_baseline_run = "NEEDS_BASELINE_RUN"
state_value needs_train_run = "NEEDS_TRAIN_RUN"
state_value needs_wiki = "NEEDS_WIKI"
state_value needs_proposal = "NEEDS_PROPOSAL"
state_value needs_val_run = "NEEDS_VAL_RUN"
state_value needs_gate = "NEEDS_GATE"
state_value needs_val_confirm = "NEEDS_VAL_CONFIRM"
state_value done = "DONE"

pub data Route : Type 0 where
  validated untested : Route

pub data IsolationLevel : Type 0 where
  enforced procedural none_level unknown_level : IsolationLevel

pub data TraceFidelity : Type 0 where
  paper_complete observable_transcript final_only unknown_fidelity : TraceFidelity
