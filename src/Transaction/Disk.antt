-- ===== src/Transaction/Disk.antt =====
-- What src/asme/transaction.py reads and writes: the governed files, the state file and the
-- initialization intent of one domain, and the exceptions of the engine. The file system, SHA-256,
-- base64 and JSON are not part of the program: the digests are a parameter.
use agentic_skills_lifecycle.Prelude.{
  ℕ, String, str_eq, Bool, true, false, ◌&&◌, Option, List, Result, ok, err, if◌then◌else◌,
}
use native.Mathlib.Decide.{ℕ_discrete}
use agentic_skills_lifecycle.Transaction.Tree.{Tree}
use agentic_skills_lifecycle.Transaction.Records.{
  PlannedWrite, PlannedDeletion, StateDoc, TransactionRecord,
}

-- The digests that the engine computes, as texts: SHA-256 of bytes, base64 decoding, and the hashes
-- of the canonical JSON of a transaction's identity, of its output plan, of a record and of a state.
pub record Digests : Type 0 where
  pub sha256 : String → String
  pub decode_base64 : String → Option String
  pub transaction_id : String → ℕ → List (String × String) → List (String × String) → String
  pub output_plan : List PlannedWrite → List PlannedDeletion → StateDoc → String
  pub record_digest : TransactionRecord → String
  pub state_digest : StateDoc → String

-- How a record names a path: its root, and the member below it. Roots may lie inside one another, so
-- two keys may name one file.
abbrev pub Key : Type 0
Key = String × String

abbrev pub same_key : Key → Key → Bool
same_key a b = str_eq a.0 b.0 && str_eq a.1 b.1

-- The authoritative state: the document without its `txn`, and the pending transaction.
pub record DiskState : Type 0 where
  pub revision : ℕ
  pub body : String
  pub txn : Option TransactionRecord

pub data StateFile : Type 0 where
  absent : StateFile
  unreadable : StateFile
  holds : DiskState → StateFile

-- The envelope of an initialization.
pub record Intent : Type 0 where
  pub domain_id : String
  pub initial_state : StateDoc
  pub transaction : TransactionRecord
  pub transaction_sha256 : String
  pub final_state_sha256 : String

pub data IntentFile : Type 0 where
  no_intent : IntentFile
  damaged : IntentFile
  envelope : Intent → IntentFile

-- The state file is not part of the tree; it is one of the domain's root. Its directory and that of
-- the intent can be made.
pub record Disk : Type 0 where
  pub state_file : StateFile
  pub intent_file : IntentFile
  pub tree : Tree

-- The boundaries at which a test can interrupt the engine.
pub data CrashPoint : Type 0 where
  pre_intent post_intent first_output mid_output last_output : CrashPoint
  output : ℕ → CrashPoint
  publication pre_commit : CrashPoint

-- `ContractError`, `PendingTransaction`, `RecoveryCorruption`, `SimulatedCrash`, and an exception that
-- the engine does not raise itself: an `OSError` or a `ValueError` of pathlib.
pub data Failure : Type 0 where
  contract : String → Failure
  pending : String → Failure
  corruption : String → Failure
  crashed : CrashPoint → Failure
  system : String → Failure

unfoldable pub CrashPoint-discrete : Discrete CrashPoint
CrashPoint-discrete = hlevel ℕ_discrete

-- `requested == actual`
unfoldable pub same_point : CrashPoint → CrashPoint → Bool
unfolding CrashPoint-discrete
same_point a b = elim (CrashPoint-discrete a b) [ yes e ↦ true | no n ↦ false ]

-- A call: what it returns or raises, and the disk it leaves, also where it raises.
abbrev pub Action : Type 0 → Type 0
Action A = Disk → Result Failure A × Disk

abbrev pub pure : {A : Type 0} → A → Action A
pure value disk = (ok value, disk)

abbrev pub raise : {A : Type 0} → Failure → Action A
raise failure disk = (err failure, disk)

-- A step, and what is done with its value on the disk that it leaves.
infixl 5 ◌>>=◌ ◌>>◌
abbrev pub ◌>>=◌ : {A B : Type 0} → Action A → (A → Action B) → Action B
◌>>=◌ step next disk =
    let (outcome, left) = step disk in
    elim outcome [ ok value ↦ next value left | err failure ↦ (err failure, left) ]

abbrev pub ◌>>◌ : {A B : Type 0} → Action A → Action B → Action B
step >> rest = step >>= λ value. rest

-- A check or a computation that does not touch the disk.
abbrev pub lift : {A : Type 0} → Result Failure A → Action A
lift outcome disk = (outcome, disk)

abbrev pub raise_when : Bool → Failure → Action (Unit {0})
raise_when refused failure disk = (if refused then err failure else ok tt, disk)

abbrev pub gets : {A : Type 0} → (Disk → A) → Action A
gets look disk = (ok (look disk), disk)

abbrev pub modify : (Disk → Disk) → Action (Unit {0})
modify change disk = (ok tt, change disk)
