-- ===== src/Transaction/Tests.antt =====
-- A transaction of one write and one deletion on a concrete disk, and the theorems of Transaction/
-- there.
mod Requests
use agentic_skills_lifecycle.Prelude.{
  ℕ, List, codes_eq, if◌then◌else◌, ◌≡◌, ◌⊎◌, ◌↔◌, refl, arith, String, str_len, true, false, none,
  some, [], ◌∷◌, ok, err, is_ok, codes,
}
use agentic_skills_lifecycle.Canonical.{
  safe_member_name, is_safe_path, pure_parts, split_slash, kept, prepend, join_slash,
  require_identifier, matches_identifier, is_alphanumeric, is_identifier_char, is_posix,
}
use agentic_skills_lifecycle.Canonical.Laws.{NamesMember, safe_member_name_iff}
use agentic_skills_lifecycle.Transaction.Records.{
  PlannedWrite, TransactionRecord, StateDoc, same_record, same_record_iff,
}
use agentic_skills_lifecycle.Transaction.Disk.{
  Digests, Disk, absent, holds, no_intent, crashed, CrashPoint, post_intent, same_point,
  CrashPoint-discrete,
}
use agentic_skills_lifecycle.Transaction.Validate.{get, validate, check_contents, from_json}
use agentic_skills_lifecycle.Transaction.Materialize.{
  content, target, locate, ensure_safe_parent, write_file, write_over, materialize_write, remove,
  materialize_deletion,
}
use agentic_skills_lifecycle.Transaction.Materialize.{Engine}
use agentic_skills_lifecycle.Transaction.Replay.{
  crash, read_state, read_initialization_intent, output_crashes, run_writes, run_deletions,
  check_roots, clear_intent, publish, make_outputs, replay, committed,
}
use agentic_skills_lifecycle.Transaction.Recover.{with_txn, recover, record_intent, execute_record}
use agentic_skills_lifecycle.Transaction.Tree.{
  Tree, missing, directory, look, has_link, is_open, write_at, remove_at,
}
use agentic_skills_lifecycle.Transaction.Laws.Locations.{AreSeparate}
use agentic_skills_lifecycle.Transaction.Laws.Execution.{IsCommitted, replay-IsCommitted}
use agentic_skills_lifecycle.Transaction.Laws.Interrupted.{execute_record-recovers}

abbrev fingerprint : String
fingerprint = "aaaaaaaaaaaaaaaaaaaaaaaaaaaaaaaaaaaaaaaaaaaaaaaaaaaaaaaaaaaaaaaa"

-- Digests that keep the bytes as they are.
abbrev plain : Digests
plain = record {
  sha256 = λ c. c;
  decode_base64 = λ c. some c;
  transaction_id = λ operation revision arguments hashes. operation;
  output_plan = λ writes deletions next. next.body;
  record_digest = λ r. r.transaction_id;
  state_digest = λ s. s.body;
}

abbrev page : PlannedWrite
page = record {
  root = "domain";
  path = "wiki/page";
  content_base64 = "new";
  content_sha256 = "new";
  expected_before_sha256 = none;
  mode = 384;
  allow_existing_identical = false;
}

abbrev next_doc : StateDoc
next_doc = record { revision = 1; has_txn = false; body = "after" }

abbrev current_doc : StateDoc
current_doc = record { revision = 0; has_txn = false; body = "before" }

abbrev seed : TransactionRecord
seed = record {
  schema = "asme.transaction.v1";
  transaction_id = "seed";
  domain_id = "demo";
  operation = "seed";
  base_revision = 0;
  arguments = [];
  input_hashes = [];
  reads = [];
  tree_reads = [];
  absences = [];
  writes = page ∷ [];
  deletions = record { root = "domain"; path = "old"; expected_sha256 = fingerprint } ∷ [];
  next_state = next_doc;
  target_roots = ("domain", fingerprint) ∷ [];
}

abbrev engine : Engine
engine = record {
  domain_id = "demo";
  roots = ("domain", fingerprint) ∷ [];
  place = λ name. codes "demo" ∷ [];
}

-- The domain's directory, with nothing in it.
abbrev domain_of : (List ℕ → Tree) → Tree
domain_of members =
    directory (λ k. if codes_eq (codes "demo") k then directory members else missing)

abbrev empty_disk : Disk
empty_disk = record {
  state_file = absent;
  intent_file = no_intent;
  tree = domain_of (λ k. missing);
}

abbrev pending_disk : Disk
pending_disk = record empty_disk { state_file = holds (with_txn current_doc seed) }

abbrev crashed_at : CrashPoint → Disk
crashed_at p = (execute_record plain engine (some p) seed current_doc true empty_disk).1

seed_validates : validate plain seed ≡ ok tt
unfolding validate check_contents content get require_identifier matches_identifier is_alphanumeric
    is_identifier_char str_len
seed_validates = refl

seed_reads : from_json plain seed ≡ ok seed
unfolding from_json validate check_contents content get require_identifier matches_identifier
    is_alphanumeric is_identifier_char safe_member_name is_safe_path pure_parts split_slash kept
    prepend join_slash str_len
seed_reads = refl

intent_crash :
    execute_record plain engine (some post_intent) seed current_doc true empty_disk
    ≡ (err (crashed post_intent), crashed_at post_intent)
unfolding execute_record record_intent crash same_point CrashPoint-discrete validate check_contents
    content get require_identifier matches_identifier is_alphanumeric is_identifier_char str_len
intent_crash = refl

is_seed : same_record seed seed ≡ true
is_seed = (same_record_iff seed seed).1 refl

abbrev finished_disk : Disk
finished_disk = (replay plain engine none seed pending_disk).1

seed_ends :
    replay plain engine none seed pending_disk ≡ (ok (committed plain engine seed), finished_disk)
unfolding replay make_outputs run_writes run_deletions publish clear_intent
    read_initialization_intent output_crashes crash validate check_contents content get
    require_identifier matches_identifier is_alphanumeric is_identifier_char check_roots read_state
    materialize_write target locate ensure_safe_parent look has_link is_open write_at remove_at
    write_over write_file materialize_deletion remove safe_member_name is_safe_path pure_parts
    split_slash kept prepend join_slash str_len
seed_ends = ground (arith, is_seed)

seed_separate : AreSeparate plain engine seed.writes seed.deletions
unfolding locate pure_parts split_slash kept prepend
seed_separate = record { distinct = refl; disjoint = refl; governed = refl }

execute_record-recovers_example :
    (crashed_at post_intent ≡ empty_disk)
    ⊎ (recover plain engine none (crashed_at post_intent)
        ≡ execute_record plain engine none seed current_doc true empty_disk)
execute_record-recovers_example =
    execute_record-recovers plain engine seed (some post_intent) current_doc true empty_disk
      (crashed_at post_intent) post_intent refl seed_reads refl seed_separate intent_crash

replay-IsCommitted_example :
    (committed plain engine seed ≡ committed plain engine seed)
    × IsCommitted plain engine seed pending_disk finished_disk
replay-IsCommitted_example =
    replay-IsCommitted plain engine seed none pending_disk finished_disk
      (committed plain engine seed) seed_separate seed_ends

safe_member_name_iff_example :
    (is_ok (safe_member_name "wiki/page") ≡ true)
    ↔ ((is_posix (codes "wiki/page") ≡ true) × NamesMember (codes "wiki/page"))
safe_member_name_iff_example = safe_member_name_iff "wiki/page"
