-- ===== src/Lifecycle/Manifests.antt =====
-- The helpers of src/asme/lifecycle.py that the branches of `transition` share: score and manifest
-- checks, the consumption of a manifest, and the end of an iteration.
use agentic_skills_lifecycle.Prelude.{
  ◌+◌, String, str_append, str_eq, Bool, false, not, ◌&&◌, ◌||◌, Option, none, some, List, [], ◌∷◌,
  ◌++◌, ok, err, ◌>>=◌, ◌>>◌, raise_if, opt_is, codes, str_len, from_hex, ltb, ◌==◌, if◌then◌else◌,
}
use agentic_skills_lifecycle.Float.{Float, float_one, float_eqb, in_unit}
use agentic_skills_lifecycle.Contract.{done, needs_train_run}
use agentic_skills_lifecycle.Lifecycle.State.{
  DomainState, TransitionInput, Consumed, Supplied, flag, number, Checked,
}

-- `option == 1.0`
unfoldable pub is_perfect : Option Float → Bool
unfolding float_eqb
is_perfect none = false
is_perfect (some a) = float_eqb a float_one

-- `_advance_iteration`
unfoldable pub advance_iteration : DomainState → DomainState
advance_iteration c =
    let perfect = is_perfect c.best_score in
    let next_iteration = if perfect then c.iteration else c.iteration + 1 in
    record c {
      state = if perfect || ltb c.max_iterations next_iteration then done else needs_train_run;
      iteration = next_iteration;
      candidate_snapshot_hash = none;
      provisional_score = none;
      confirmation_score = none;
      provisional_manifest_hash = none;
      gate_phase = none;
      current_manifest_hash = none;
      current_manifest_phase = none;
    }

-- `_require_score`
unfoldable pub require_score : Option Supplied → Checked Float
require_score none = err "operation requires a finite score in [0,1]"
require_score (some (flag b)) = err "operation requires a finite score in [0,1]"
require_score (some (number a)) =
    if in_unit a then ok a else err "operation requires a finite score in [0,1]"

-- 64 characters that `bytes.fromhex` accepts.
unfoldable pub is_manifest_hash : String → Bool
is_manifest_hash h = str_len h == 64 && from_hex false (codes h)

-- `_require_manifest_hash(value, phase=label)`
unfoldable pub require_manifest_hash : Option String → String → Checked String
require_manifest_hash none label = err (str_append label " requires a manifest SHA-256")
require_manifest_hash (some h) label =
    if is_manifest_hash h then ok h else err (str_append label " requires a manifest SHA-256")

-- `any(item.get("manifest_hash") == manifest_hash for item in consumed_manifests)`
unfoldable pub is_consumed : String → List Consumed → Bool
is_consumed h [] = false
is_consumed h (m ∷ ms) = str_eq m.manifest_hash h || is_consumed h ms

-- `_consume_manifest(state, manifest_hash, by=by)`
unfoldable pub consume_manifest : DomainState → String → String → Checked DomainState
consume_manifest c h by = do
  raise_if (is_consumed h c.consumed_manifests) "manifest has already been consumed"
  ok (record c {
    consumed_manifests = c.consumed_manifests ++ record { manifest_hash = h; by = by } ∷ [];
  })

-- `_record_current_manifest(state, supplied, phase=phase)`
unfoldable pub record_current_manifest :
    DomainState → TransitionInput → String → Checked DomainState
record_current_manifest c s phase = do
  raise_if (not (opt_is s.phase phase)) (str_append "manifest phase must be " phase)
  h ← require_manifest_hash s.manifest_hash phase
  raise_if (is_consumed h c.consumed_manifests) "manifest has already been consumed"
  ok (record c { current_manifest_hash = some h; current_manifest_phase = some phase })
