-- ===== src/Lifecycle/Branches/Setup.antt =====
-- `transition` of src/asme/lifecycle.py: `init`, the seed decision and `baseline-finalize`.
use agentic_skills_lifecycle.Prelude.{
  String, Bool, true, false, not, ◌||◌, Option, none, some, List, [], ok, ◌>>=◌, ◌>>◌, raise_if,
  any, is_unique, is_blank, str_sort, opt_is, present, if◌then◌else◌,
}
use agentic_skills_lifecycle.Float.{Float, float_one, float_eqb}
use agentic_skills_lifecycle.Contract.{
  needs_optional_seed, needs_baseline_run, needs_train_run, done,
}
use agentic_skills_lifecycle.Lifecycle.State.{
  DomainState, TransitionInput, Step, stay, move, Checked,
}
use agentic_skills_lifecycle.Lifecycle.Manifests.{
  require_score, require_manifest_hash, consume_manifest,
}

unfoldable pub on_init : DomainState → TransitionInput → Checked Step
on_init c s = ok (move (record c { state = needs_optional_seed }))

abbrev is_empty : List String → Bool
is_empty [] = true
is_empty _ = false

unfoldable pub on_seed_observations : DomainState → TransitionInput → Checked Step
on_seed_observations c s = do
  raise_if (not s.approval_present) "seed-observations requires a scoped approval record"
  raise_if
      (is_empty s.observation_ids
        || not (is_unique s.observation_ids)
        || any is_blank s.observation_ids)
      "seed-observations requires named unique observation IDs"
  ok (
      move (record c {
        state = needs_baseline_run;
        seed_decision = some "seeded";
        seeded_observation_ids = str_sort s.observation_ids;
      }))

unfoldable pub on_skip_seed : DomainState → TransitionInput → Checked Step
on_skip_seed c s = do
  raise_if (not (is_empty s.observation_ids)) "skip-seed cannot carry observation IDs"
  ok (move (record c { state = needs_baseline_run; seed_decision = some "skipped" }))

unfoldable pub on_rollback_seed : DomainState → TransitionInput → Checked Step
on_rollback_seed c s = do
  raise_if (not (opt_is c.seed_decision "seeded") || is_empty c.seeded_observation_ids)
      "rollback-seed requires an applied observation seed"
  ok (
      move (record c {
        state = needs_optional_seed;
        seed_decision = none;
        seeded_observation_ids = [];
      }))

-- `supplied.valid is True`
abbrev pub is_true : Option Bool → Bool
is_true none = false
is_true (some b) = b

-- The `replace` of the branch, before its manifest is consumed.
unfoldable pub baseline_state : DomainState → Float → Option String → DomainState
baseline_state c score snapshot = record c {
  best_score = some score;
  active_snapshot_hash = snapshot;
  iteration = 1;
  state = if float_eqb score float_one then done else needs_train_run;
}

finalize_baseline : DomainState → TransitionInput → Checked Step
unfolding baseline_state
finalize_baseline c s = do
  raise_if (not (opt_is s.phase "baseline")) "baseline-finalize requires the baseline manifest"
  h ← require_manifest_hash s.manifest_hash "baseline"
  score ← require_score s.score
  raise_if (not (present s.snapshot_hash)) "baseline-finalize requires a snapshot hash"
  c' ← consume_manifest (baseline_state c score s.snapshot_hash) h "baseline-finalize"
  ok (move c')

unfoldable pub on_baseline_finalize : DomainState → TransitionInput → Checked Step
unfolding finalize_baseline
on_baseline_finalize c s = if is_true s.valid then finalize_baseline c s else ok stay
