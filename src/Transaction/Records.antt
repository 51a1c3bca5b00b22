-- ===== src/Transaction/Records.antt =====
-- The planned effects and the record of a transaction: the data classes of
-- src/asme/transaction.py. A mapping of names is an association list in the order of its keys; a
-- JSON value that the engine only hashes or stores is its text.
use agentic_skills_lifecycle.Prelude.{
  ℕ, String, Bool, true, false, Option, List, ◌≡◌, String-discrete, ◌↔◌, refl,
}
use native.Mathlib.Decide.{ℕ_discrete}

pub record PlannedWrite : Type 0 where
  pub root : String
  pub path : String
  pub content_base64 : String
  pub content_sha256 : String
  pub expected_before_sha256 : Option String
  pub mode : ℕ
  pub allow_existing_identical : Bool

pub record PlannedDeletion : Type 0 where
  pub root : String
  pub path : String
  pub expected_sha256 : String

-- `PlannedRead`, and `PlannedTreeRead`, which has the same fields.
pub record PlannedRead : Type 0 where
  pub name : String
  pub root : String
  pub path : String
  pub expected_sha256 : String

pub record PlannedAbsence : Type 0 where
  pub name : String
  pub root : String
  pub path : String

-- A state document as a transaction carries it: its revision, whether its `txn` is set, and the
-- text of the other fields.
pub record StateDoc : Type 0 where
  pub revision : ℕ
  pub has_txn : Bool
  pub body : String

pub record TransactionRecord : Type 0 where
  pub schema : String
  pub transaction_id : String
  pub domain_id : String
  pub operation : String
  pub base_revision : ℕ
  pub arguments : List (String × String)
  pub input_hashes : List (String × String)
  pub reads : List PlannedRead
  pub tree_reads : List PlannedRead
  pub absences : List PlannedAbsence
  pub writes : List PlannedWrite
  pub deletions : List PlannedDeletion
  pub next_state : StateDoc
  pub target_roots : List (String × String)

TransactionRecord-discrete : Discrete TransactionRecord
TransactionRecord-discrete = hlevel (ℕ_discrete, String-discrete)

-- `left == right` on records as JSON objects.
unfoldable pub same_record : TransactionRecord → TransactionRecord → Bool
unfolding TransactionRecord-discrete
same_record a b = elim (TransactionRecord-discrete a b) [ yes e ↦ true | no n ↦ false ]

pub same_record_iff : (a b : TransactionRecord) → (same_record a b ≡ true) ↔ (a ≡ b)
unfolding same_record
same_record_iff a b =
    elim (TransactionRecord-discrete a b)
      as (λ t. ((elim t as (λ z. Bool) [ yes e ↦ true | no n ↦ false ]) ≡ true) ↔ (a ≡ b)) [
        | yes e ↦ (λ h. e, λ h. refl)
        | no n ↦ (λ h. cc, λ h. absurd (n h))
      ]
