-- ===== src/Lifecycle/Branches/Delivery.antt =====
-- `transition` of src/asme/lifecycle.py: the test phases, the two delivery routes and
-- `reset-manifest`.
use agentic_skills_lifecycle.Prelude.{
  String, str_append, str_eq, Bool, true, false, not, ◌||◌, ◌&&◌, Option, none, some, List, [], ◌∷◌,
  ◌++◌, ok, err, ◌>>=◌, ◌>>◌, raise_if, all, str_mem, str_sort, opt_is, present, if◌then◌else◌,
}
use agentic_skills_lifecycle.Contract.{
  LifecycleState, needs_wiki, needs_train_run, Route, validated, untested,
}
use agentic_skills_lifecycle.Lifecycle.State.{
  DomainState, TransitionInput, TestManifest, LedgerEntry, Approval, Step, stay, move, Checked,
}
use agentic_skills_lifecycle.Lifecycle.Manifests.{require_manifest_hash, consume_manifest}
use agentic_skills_lifecycle.Lifecycle.Branches.Setup.{is_true}

abbrev pub is_test_phase : String → Bool
is_test_phase p = str_eq p "test-baseline" || str_eq p "test-final"

abbrev pub same_route : Route → Route → Bool
same_route validated validated = true
same_route untested untested = true
same_route _ _ = false

-- `current.route not in {None, route}`
abbrev pub is_other_route : Option Route → Route → Bool
is_other_route none r = false
is_other_route (some q) r = not (same_route q r)

-- `current.route is route`
abbrev pub on_route : Option Route → Route → Bool
on_route none r = false
on_route (some q) r = same_route q r

-- `any(item.get("phase") == phase for item in test_manifests)`
unfoldable pub has_phase : String → List TestManifest → Bool
has_phase p [] = false
has_phase p (m ∷ ms) = str_eq m.phase p || has_phase p ms

-- The named phase, of which `None` is never one of those tested for.
abbrev pub named : Option String → String → Checked String
named none message = err message
named (some p) message = ok p

unfoldable pub on_test_prepare : DomainState → TransitionInput → Checked Step
on_test_prepare c s = do
  p ← named s.phase "test prepare requires test-baseline or test-final"
  raise_if (not (is_test_phase p)) "test prepare requires test-baseline or test-final"
  raise_if (is_other_route c.route validated)
      "validated route conflicts with latched untested route"
  raise_if (has_phase p c.test_manifests) "test phase is already ingested"
  ok (
      if str_mem p c.prepared_test_phases
      then stay
      else move (record c {
        route = some validated;
        validated_step = some "prepared";
        prepared_test_phases = str_sort (c.prepared_test_phases ++ p ∷ []);
      }))

-- Whether a set of phases, given with repetitions, is {"test-baseline", "test-final"}.
unfoldable pub is_both_phases : List String → Bool
is_both_phases ps = all is_test_phase ps && str_mem "test-baseline" ps && str_mem "test-final" ps

abbrev pub phases : List TestManifest → List String
phases [] = []
phases (m ∷ ms) = m.phase ∷ phases ms

unfoldable pub on_test_ingest : DomainState → TransitionInput → Checked Step
unfolding is_both_phases
on_test_ingest c s = do
  raise_if (not (on_route c.route validated)) "test ingest requires the validated prepared step"
  p ← named s.phase "test ingest requires the validated prepared step"
  raise_if (not (str_mem p c.prepared_test_phases))
      "test ingest requires the validated prepared step"
  h ← require_manifest_hash s.manifest_hash p
  raise_if (has_phase p c.test_manifests) "test manifest phase is already recorded"
  ok (
      if is_true s.valid
      then move (record c {
        validated_step =
            some (if is_both_phases (p ∷ phases c.test_manifests) then "ingested" else "prepared");
        test_manifests = c.test_manifests ++ record { phase = p; manifest_hash = h } ∷ [];
      })
      else stay)

-- `by_phase[phase]`: of two items with one phase the dictionary keeps the later.
unfoldable pub phase_manifest : String → List TestManifest → Option String
phase_manifest p [] = none
phase_manifest p (m ∷ ms) = elim (phase_manifest p ms) [
  | some h ↦ some h
  | none ↦ if str_eq m.phase p then some m.manifest_hash else none
]

-- `matching = [item for item in delivery_ledger if item["delivery_id"] == delivery_id]`
unfoldable pub matching : String → List LedgerEntry → List LedgerEntry
matching d [] = []
matching d (e ∷ es) = if str_eq e.delivery_id d then e ∷ matching d es else matching d es

-- `len(matching) == 1 and test(matching[0])`
abbrev pub is_single : (LedgerEntry → Bool) → List LedgerEntry → Bool
is_single p (e ∷ []) = p e
is_single p _ = false

-- A first export: both test manifests are consumed and the delivery is recorded.
unfoldable pub export_first : DomainState → String → Checked Step
unfolding is_both_phases
export_first c d = do
  raise_if (not (is_both_phases (phases c.test_manifests))) "export requires both test manifests"
  raise_if (not (opt_is c.validated_step "ingested")) "export requires valid ingested test evidence"
  baseline ←
      named (phase_manifest "test-baseline" c.test_manifests) "export requires both test manifests"
  final ← named (phase_manifest "test-final" c.test_manifests) "export requires both test manifests"
  c₁ ← consume_manifest c baseline (str_append "export:" d)
  c₂ ← consume_manifest c₁ final (str_append "export:" d)
  ok (
      move (record c₂ {
        validated_step = some "exported";
        delivery_ledger =
            c₂.delivery_ledger
            ++ record { delivery_id = d; route = validated; approval = none } ∷ [];
      }))

unfoldable pub on_export : DomainState → TransitionInput → Checked Step
on_export c s = do
  raise_if (not (on_route c.route validated)) "export requires valid ingested test evidence"
  raise_if (not (is_true s.valid) || not (present s.delivery_id))
      "export requires valid evidence and a delivery identity"
  d ← named s.delivery_id "export requires valid evidence and a delivery identity"
  if opt_is c.validated_step "exported"
      then if is_single (λ e. same_route e.route validated) (matching d c.delivery_ledger)
        then ok stay
        else err "validated export is already latched to another identity"
      else export_first c d

abbrev same_approval : Option Approval → Option Approval → Bool
same_approval none none = true
same_approval (some a) (some b) =
    str_eq a.approval_id b.approval_id
    && str_eq a.approval_hash b.approval_hash
    && str_eq a.approval_record_hash b.approval_record_hash
same_approval _ _ = false

-- `dict(item) == entry`
unfoldable pub same_entry : LedgerEntry → LedgerEntry → Bool
same_entry a b =
    str_eq a.delivery_id b.delivery_id
    && same_route a.route b.route
    && same_approval a.approval b.approval

abbrev no_artifacts : DomainState → Bool
no_artifacts c = elim c.prepared_test_phases [
  | [] ↦ elim c.test_manifests [ [] ↦ true | _ ∷ _ ↦ false ]
  | _ ∷ _ ↦ false
]

unfoldable pub on_package_untested : DomainState → TransitionInput → Checked Step
unfolding same_entry
on_package_untested c s = do
  raise_if (not s.approval_present) "untested route requires action-time approval"
  raise_if (is_other_route c.route untested) "untested route conflicts with latched validated route"
  raise_if (not (no_artifacts c)) "untested route requires no prepared test artifacts"
  raise_if (not (present s.delivery_id)) "untested route requires a delivery identity"
  d ← named s.delivery_id "untested route requires a delivery identity"
  raise_if (not (present s.approval_id)) "untested route requires an approval identity"
  a ← named s.approval_id "untested route requires an approval identity"
  h ← require_manifest_hash s.approval_hash "package-untested approval"
  r ← require_manifest_hash s.approval_record_hash "package-untested approval record"
  let entry : LedgerEntry = record {
    delivery_id = d;
    route = untested;
    approval = some (record { approval_id = a; approval_hash = h; approval_record_hash = r });
  }
  if on_route c.route untested
      then if is_single (λ e. same_entry e entry) (matching d c.delivery_ledger)
        then ok stay
        else err "untested package is already latched to another identity"
      else ok (
          move
            (record c { route = some untested; delivery_ledger = c.delivery_ledger ++ entry ∷ [] }))

-- The state of `reset-manifest`: a train run that lost its manifest starts again.
abbrev reset_state : LifecycleState → LifecycleState
reset_state needs_wiki = needs_train_run
reset_state q = q

unfoldable pub on_reset_manifest : DomainState → TransitionInput → Checked Step
on_reset_manifest c s = ok (
    move (record c {
      state = reset_state c.state;
      current_manifest_hash = none;
      current_manifest_phase = none;
    }))
