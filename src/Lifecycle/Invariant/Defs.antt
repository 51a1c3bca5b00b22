-- ===== src/Lifecycle/Invariant/Defs.antt =====
-- The invariant of the iterations: which scores, manifests and snapshots each state of the
-- lifecycle (src/asme/lifecycle.py) can rely on.
use agentic_skills_lifecycle.Prelude.{
  ◌+◌, ◌≤◌, ◌<◌, ◌≡◌, String, Bool, true, false, not, ◌&&◌, ◌||◌, Option, none, some, List, [], ◌∷◌,
  is_some, opt_is, present,
}
use agentic_skills_lifecycle.Float.{Float, in_unit, float_ltb}
use agentic_skills_lifecycle.Contract.{
  LifecycleState, uninitialized, needs_optional_seed, needs_baseline_run, needs_wiki, needs_val_run,
  needs_gate, needs_val_confirm, done,
}
use agentic_skills_lifecycle.Lifecycle.State.{DomainState, Consumed}
use agentic_skills_lifecycle.Lifecycle.Manifests.{is_consumed}

-- No score, or one in [0,1].
abbrev pub is_in_range : Option Float → Bool
is_in_range none = true
is_in_range (some a) = in_unit a

-- A score in [0,1].
abbrev pub is_score : Option Float → Bool
is_score none = false
is_score (some a) = in_unit a

-- The second score is there and beats the first.
abbrev pub is_win : Option Float → Option Float → Bool
is_win (some a) (some b) = float_ltb a b
is_win _ _ = false

-- The states that follow the baseline.
abbrev pub is_scored : LifecycleState → Bool
is_scored uninitialized = false
is_scored needs_optional_seed = false
is_scored needs_baseline_run = false
is_scored _ = true

-- The states of a running iteration.
abbrev pub is_iterating : LifecycleState → Bool
is_iterating uninitialized = false
is_iterating needs_optional_seed = false
is_iterating needs_baseline_run = false
is_iterating done = false
is_iterating _ = true

-- The states in which a candidate waits for its verdict.
abbrev pub has_candidate : LifecycleState → Bool
has_candidate needs_val_run = true
has_candidate needs_gate = true
has_candidate needs_val_confirm = true
has_candidate _ = false

-- The states that own an ingested manifest.
abbrev pub owns_manifest : LifecycleState → Bool
owns_manifest needs_wiki = true
owns_manifest needs_gate = true
owns_manifest _ = false

-- The current manifest, if there is one, is not consumed.
abbrev pub is_fresh : Option String → List Consumed → Bool
is_fresh none ms = true
is_fresh (some h) ms = not (is_consumed h ms)

-- No manifest is consumed twice.
abbrev pub is_distinct : List Consumed → Bool
is_distinct [] = true
is_distinct (m ∷ ms) = not (is_consumed m.manifest_hash ms) && is_distinct ms

-- A validated candidate: its manifest and its winning score.
abbrev pub is_provisional : DomainState → Bool
is_provisional c =
    is_some c.provisional_manifest_hash
    && is_score c.provisional_score
    && is_win c.best_score c.provisional_score

-- What the gate judges is there, in the phase that it judges.
abbrev pub is_gate_ready : DomainState → Bool
is_gate_ready c =
    (opt_is c.gate_phase "validation"
      && opt_is c.current_manifest_phase "val"
      && is_score c.provisional_score)
    || (opt_is c.gate_phase "confirmation"
        && opt_is c.current_manifest_phase "val_confirm"
        && is_score c.confirmation_score
        && is_provisional c)

pub record IsWellFormed (c : DomainState) : Type 0 where
  pub some_iterations : 0 < c.max_iterations
  pub in_range : is_in_range c.best_score ≡ true
  pub scored : is_scored c.state ≡ true → is_some c.best_score ≡ true
  pub iteration_bound : c.iteration ≤ c.max_iterations + 1
  pub iterating_bound : is_iterating c.state ≡ true → c.iteration ≤ c.max_iterations
  pub candidate : has_candidate c.state ≡ true → present c.candidate_snapshot_hash ≡ true
  pub owned : is_some c.current_manifest_hash ≡ owns_manifest c.state
  pub fresh : is_fresh c.current_manifest_hash c.consumed_manifests ≡ true
  pub distinct : is_distinct c.consumed_manifests ≡ true
  pub trained : c.state ≡ needs_wiki → opt_is c.current_manifest_phase "train" ≡ true
  pub gated : c.state ≡ needs_gate → is_gate_ready c ≡ true
  pub confirming : c.state ≡ needs_val_confirm → is_provisional c ≡ true
