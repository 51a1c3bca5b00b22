-- ===== src/Lifecycle/Consumption.antt =====
-- What a consumption, a recording and the end of an iteration do to a domain: the inversions of the
-- helpers in Lifecycle/Manifests.antt, and the laws of the list of consumed manifests.
use agentic_skills_lifecycle.Prelude.{
  ◌≡◌, refl, String, str_eq, eq_iff, true, false, ◌||◌, Option, none, some, List, [], ◌∷◌, ◌++◌, ok,
  arith, Option-cases, inl, inr,
}
use agentic_skills_lifecycle.Float.{Float, in_unit}
use agentic_skills_lifecycle.Lifecycle.State.{
  DomainState, TransitionInput, Supplied, number, flag, Consumed,
}
use agentic_skills_lifecycle.Lifecycle.Manifests.{
  is_consumed, consume_manifest, record_current_manifest, require_score, require_manifest_hash,
}
use agentic_skills_lifecycle.Lifecycle.Invariant.Defs.{is_distinct}

pub is_consumed-append :
    (h : String) (ms : List Consumed) (m : Consumed)
    → is_consumed h (ms ++ m ∷ []) ≡ (is_consumed h ms || str_eq m.manifest_hash h)
unfolding is_consumed
is_consumed-append h [] m = ground arith
is_consumed-append h (x ∷ ms) m = ground (arith, is_consumed-append h ms m)

-- A manifest that was not consumed can be added.
pub is_distinct-append :
    (ms : List Consumed) (m : Consumed)
    → is_distinct ms ≡ true
    → is_consumed m.manifest_hash ms ≡ false
    → is_distinct (ms ++ m ∷ []) ≡ true
unfolding is_consumed
is_distinct-append [] m d n = refl
is_distinct-append (x ∷ ms) m d n = ground (
  arith,
  is_distinct-append ms m,
  is_consumed-append x.manifest_hash ms m,
  eq_iff m.manifest_hash x.manifest_hash,
  eq_iff x.manifest_hash m.manifest_hash,
)

-- A consumption that succeeds adds one manifest, which was not consumed before.
pub consume_manifest-ok :
    (c : DomainState) (h by : String) (r : DomainState)
    → consume_manifest c h by ≡ ok r
    → (is_consumed h c.consumed_manifests ≡ false)
      × (r ≡ record c {
        consumed_manifests = c.consumed_manifests ++ record { manifest_hash = h; by = by } ∷ [];
      })
unfolding consume_manifest
consume_manifest-ok c h by r e = ground arith

pub record_current_manifest-ok :
    (c : DomainState) (s : TransitionInput) (p : String) (r : DomainState)
    → record_current_manifest c s p ≡ ok r
    → (h : String) × (s.manifest_hash ≡ some h)
      × (is_consumed h c.consumed_manifests ≡ false)
      × (r ≡ record c { current_manifest_hash = some h; current_manifest_phase = some p })
unfolding record_current_manifest require_manifest_hash
record_current_manifest-ok c s p r e = elim (Option-cases s.manifest_hash) [
  | inl n ↦ ground arith
  | inr (h, n) ↦ (h, n, ground arith, ground arith)
]

pub require_score-ok :
    (s : Option Supplied) (a : Float)
    → require_score s ≡ ok a
    → (s ≡ some (number a)) × (in_unit a ≡ true)
unfolding require_score
require_score-ok none a e = cc
require_score-ok (some (flag b)) a e = cc
require_score-ok (some (number x)) a e = ground arith
