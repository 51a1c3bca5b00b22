-- ===== src/Impact.antt =====
-- The history of impacts of src/asme/impact.py. The hash of an entry's canonical JSON is a parameter.
pub mod Laws
mod Tests
use agentic_skills_lifecycle.Prelude.{
  ℕ, ◌≡◌, ◌↔◌, refl, String, String-discrete, str_append, str_eq, Bool, true, false, not, ◌&&◌,
  ◌||◌, Option, none, some, List, [], ◌∷◌, ◌++◌, Result, ok, err, ◌>>=◌, ◌>>◌, raise_if, opt_is,
  present, is_some, ltb, ◌==◌, length, any, if◌then◌else◌,
}
use native.Mathlib.Decide.{ℕ_discrete}
use agentic_skills_lifecycle.Float.{Float, in_unit}

pub data ImpactOutcome : Type 0 where
  accepted rejected rejected_after_confirm no_action abandoned : ImpactOutcome

-- The fields of an `ImpactEntry` that its identity is the hash of.
pub record ImpactBody : Type 0 where
  pub domain_id : String
  pub iteration : ℕ
  pub outcome : ImpactOutcome
  pub active_before : String
  pub candidate_snapshot : Option String
  pub active_after : String
  pub scores : List Float
  pub unified_diff : Option String
  pub source_class : String

pub record ImpactEntry : Type 0 where
  pub entry_id : String
  pub body : ImpactBody

-- `expected_scores`, and the text that names it in the message.
abbrev pub is_expected : ImpactOutcome → ℕ → Bool
is_expected accepted n = n == 1 || n == 2
is_expected rejected n = n == 1
is_expected rejected_after_confirm n = n == 2
is_expected no_action n = n == 0
is_expected abandoned n = n == 0

abbrev expected_message : ImpactOutcome → String
expected_message accepted = "Accepted requires 1 or 2 score values"
expected_message rejected = "Rejected requires 1 score values"
expected_message rejected_after_confirm = "RejectedAfterConfirm requires 2 score values"
expected_message no_action = "NoAction requires 0 score values"
expected_message abandoned = "Abandoned requires 0 score values"

abbrev pub is_accepted : ImpactOutcome → Bool
is_accepted accepted = true
is_accepted _ = false

abbrev pub has_candidate : ImpactOutcome → Bool
has_candidate no_action = false
has_candidate _ = true

Entry-discrete : Discrete ImpactEntry
Entry-discrete = hlevel (ℕ_discrete, String-discrete)

-- `existing == entry`
unfoldable pub same_impact : ImpactEntry → ImpactEntry → Bool
unfolding Entry-discrete
same_impact a b = elim (Entry-discrete a b) [ yes e ↦ true | no n ↦ false ]

pub same_impact_iff : (a b : ImpactEntry) → (same_impact a b ≡ true) ↔ (a ≡ b)
unfolding same_impact
same_impact_iff a b =
    elim (Entry-discrete a b)
      as (λ t. ((elim t as (λ z. Bool) [ yes e ↦ true | no n ↦ false ]) ≡ true) ↔ (a ≡ b)) [
        | yes e ↦ (λ h. e, λ h. refl)
        | no n ↦ (λ h. cc, λ h. absurd (n h))
      ]

module _ (hash_json : ImpactBody → String) where
  -- `ImpactEntry.__post_init__`
  unfoldable pub checked_entry : ImpactEntry → Result String ImpactEntry
  checked_entry entry = do
    let b = entry.body
    raise_if (ltb b.iteration 1) "impact iteration must be positive"
    raise_if (not (is_expected b.outcome (length b.scores))) (expected_message b.outcome)
    raise_if (any (λ s. not (in_unit s)) b.scores) "impact scores must be within [0,1]"
    raise_if
        (has_candidate b.outcome
          && (not (present b.candidate_snapshot) || not (is_some b.unified_diff)))
        "candidate outcome requires snapshot and unified diff"
    raise_if (is_accepted b.outcome && not (opt_is b.candidate_snapshot b.active_after))
        "accepted impact must promote the candidate"
    raise_if (not (is_accepted b.outcome) && not (str_eq b.active_after b.active_before))
        "non-accepted impact cannot change the active snapshot"
    raise_if (not (str_eq entry.entry_id (hash_json b)))
        "impact entry ID does not match its content"
    ok entry

  -- `create_impact`
  unfoldable pub create_impact : ImpactBody → Result String ImpactEntry
  unfolding checked_entry
  create_impact b =
      let values = record b { source_class = "ARCHITECTURE" } in
      checked_entry (record { entry_id = hash_json values; body = values })

-- The entry of a history with the identity of the given one.
unfoldable pub find_entry : String → List ImpactEntry → Option ImpactEntry
find_entry id [] = none
find_entry id (e ∷ es) = if str_eq e.entry_id id then some e else find_entry id es

-- `append_impact`
unfoldable pub append_impact : List ImpactEntry → ImpactEntry → Result String (List ImpactEntry)
unfolding find_entry
append_impact history entry = elim (find_entry entry.entry_id history) [
  | none ↦ ok (history ++ entry ∷ [])
  | some existing ↦
      if same_impact existing entry then ok history else err "impact entry ID collision"
]
