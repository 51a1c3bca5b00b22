-- ===== src/Lifecycle/State.antt =====
-- The state of one domain, the inputs of a transition and the operations: `DomainState`,
-- `TransitionInput` and `OPERATIONS` of src/asme/lifecycle.py. A dictionary that the source builds
-- with fixed keys is a record of those keys.
use agentic_skills_lifecycle.Prelude.{
  ℕ, String, Bool, false, Option, none, some, List, [], ◌∷◌, str_eq, Result, if◌then◌else◌,
}
use agentic_skills_lifecycle.Float.{Float}
use agentic_skills_lifecycle.Contract.{LifecycleState, Route, uninitialized}

pub data Operation : Type 0 where
  init seed_observations rollback_seed skip_seed baseline_finalize : Operation
  train_ingest apply_wiki apply_proposal_change apply_proposal_no_action val_ingest : Operation
  gate confirm_ingest abandon test_prepare test_ingest : Operation
  export package_untested reset_manifest recover status : Operation

-- `OPERATIONS`, in its order.
abbrev pub operations : List Operation
operations =
    init ∷ seed_observations ∷ rollback_seed ∷ skip_seed ∷ baseline_finalize ∷ train_ingest
    ∷ apply_wiki ∷ apply_proposal_change ∷ apply_proposal_no_action ∷ val_ingest ∷ gate
    ∷ confirm_ingest ∷ abandon ∷ test_prepare ∷ test_ingest ∷ export ∷ package_untested
    ∷ reset_manifest ∷ recover ∷ status ∷ []

unfoldable pub operation_name : Operation → String
operation_name init = "init"
operation_name seed_observations = "seed-observations"
operation_name rollback_seed = "rollback-seed"
operation_name skip_seed = "skip-seed"
operation_name baseline_finalize = "baseline-finalize"
operation_name train_ingest = "train-ingest"
operation_name apply_wiki = "apply-wiki"
operation_name apply_proposal_change = "apply-proposal-change"
operation_name apply_proposal_no_action = "apply-proposal-no-action"
operation_name val_ingest = "val-ingest"
operation_name gate = "gate"
operation_name confirm_ingest = "confirm-ingest"
operation_name abandon = "abandon"
operation_name test_prepare = "test-prepare"
operation_name test_ingest = "test-ingest"
operation_name export = "export"
operation_name package_untested = "package-untested"
operation_name reset_manifest = "reset-manifest"
operation_name recover = "recover"
operation_name status = "status"

find_operation : String → List Operation → Option Operation
find_operation name [] = none
find_operation name (o ∷ os) =
    if str_eq (operation_name o) name then some o else find_operation name os

-- The membership test `operation in OPERATIONS`, which also says which one it is.
unfoldable pub parse_operation : String → Option Operation
unfolding find_operation operation_name
parse_operation name = find_operation name operations

-- An item of `consumed_manifests`.
pub record Consumed : Type 0 where
  pub manifest_hash : String
  pub by : String

-- An item of `test_manifests`.
pub record TestManifest : Type 0 where
  pub phase : String
  pub manifest_hash : String

-- The approval keys of a ledger entry of the untested route.
pub record Approval : Type 0 where
  pub approval_id : String
  pub approval_hash : String
  pub approval_record_hash : String

-- An item of `delivery_ledger`; an entry of the validated route has no approval keys.
pub record LedgerEntry : Type 0 where
  pub delivery_id : String
  pub route : Route
  pub approval : Option Approval

-- An item of `history`; its `source_class` is always "ARCHITECTURE".
pub record Event : Type 0 where
  pub operation : Operation
  pub from : LifecycleState
  pub to : LifecycleState

-- `txn` is the recorded transaction, which this module only tests for `None`: its JSON text.
pub record DomainState : Type 0 where
  pub domain_id : String
  pub seal : String
  pub state : LifecycleState
  pub revision : ℕ
  pub iteration : ℕ
  pub max_iterations : ℕ
  pub confirmation_required : Bool
  pub best_score : Option Float
  pub active_snapshot_hash : Option String
  pub candidate_snapshot_hash : Option String
  pub provisional_score : Option Float
  pub confirmation_score : Option Float
  pub provisional_manifest_hash : Option String
  pub gate_phase : Option String
  pub current_manifest_hash : Option String
  pub current_manifest_phase : Option String
  pub consumed_manifests : List Consumed
  pub route : Option Route
  pub validated_step : Option String
  pub prepared_test_phases : List String
  pub test_manifests : List TestManifest
  pub delivery_ledger : List LedgerEntry
  pub seed_decision : Option String
  pub seeded_observation_ids : List String
  pub txn : Option String
  pub history : List Event

-- `DomainState(domain_id, seal, max_iterations=…, confirmation_required=…)`: the other fields
-- have their defaults.
unfoldable pub new_domain : String → String → ℕ → Bool → DomainState
new_domain domain_id seal max_iterations confirmation_required = record {
  domain_id = domain_id;
  seal = seal;
  state = uninitialized;
  revision = 0;
  iteration = 0;
  max_iterations = max_iterations;
  confirmation_required = confirmation_required;
  best_score = none;
  active_snapshot_hash = none;
  candidate_snapshot_hash = none;
  provisional_score = none;
  confirmation_score = none;
  provisional_manifest_hash = none;
  gate_phase = none;
  current_manifest_hash = none;
  current_manifest_phase = none;
  consumed_manifests = [];
  route = none;
  validated_step = none;
  prepared_test_phases = [];
  test_manifests = [];
  delivery_ledger = [];
  seed_decision = none;
  seeded_observation_ids = [];
  txn = none;
  history = [];
}

-- A score as it is supplied: Python's `bool` is a number too, and is refused. An integer is the
-- float that `float(value)` makes of it.
pub data Supplied : Type 0 where
  flag : Bool → Supplied
  number : Float → Supplied

pub record TransitionInput : Type 0 where
  pub valid : Option Bool
  pub score : Option Supplied
  pub snapshot_hash : Option String
  pub approval_present : Bool
  pub approval_id : Option String
  pub approval_hash : Option String
  pub approval_record_hash : Option String
  pub delivery_id : Option String
  pub observation_ids : List String
  pub phase : Option String
  pub manifest_hash : Option String

-- `TransitionInput()`
abbrev pub no_input : TransitionInput
no_input = record {
  valid = none;
  score = none;
  snapshot_hash = none;
  approval_present = false;
  approval_id = none;
  approval_hash = none;
  approval_record_hash = none;
  delivery_id = none;
  observation_ids = [];
  phase = none;
  manifest_hash = none;
}

-- What a branch of `transition` assigns to `result`: the very object `current`, or a new state.
pub data Step : Type 0 where
  stay : Step
  move : DomainState → Step

-- `TransitionRefused` with its message.
abbrev pub Checked : Type 0 → Type 0
Checked A = Result String A
