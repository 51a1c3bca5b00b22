-- ===== src/Transaction/Tests/Requests.antt =====
-- A request of one write and one deletion, and the theorems on `execute` there.
use agentic_skills_lifecycle.Prelude.{
  ◌≡◌, ◌⊎◌, refl, str_len, str_sort, true, false, none, some, [], ◌∷◌, ok, err, lookup, has_key,
  put_key, str_distinct, insert_key, sort_keys, codes, codes_eq, if◌then◌else◌,
}
use agentic_skills_lifecycle.Canonical.{
  safe_member_name, is_safe_path, pure_parts, split_slash, kept, prepend, join_slash,
  require_identifier, matches_identifier, is_alphanumeric, is_identifier_char,
}
use agentic_skills_lifecycle.Transaction.Records.{TransactionRecord, StateDoc}
use agentic_skills_lifecycle.Transaction.Disk.{
  Disk, crashed, post_intent, same_point, CrashPoint-discrete,
}
use agentic_skills_lifecycle.Transaction.Validate.{get, validate, check_contents, are_items}
use agentic_skills_lifecycle.Transaction.Materialize.{content, target, locate}
use agentic_skills_lifecycle.Transaction.Tree.{missing, regular, look, has_link, is_open}
use agentic_skills_lifecycle.Transaction.Laws.Locations.{AreSeparate}
use agentic_skills_lifecycle.Transaction.Laws.Rooms.{AreClear}
use agentic_skills_lifecycle.Transaction.Replay.{crash, read_state, committed}
use agentic_skills_lifecycle.Transaction.Recover.{recover, record_intent, execute_record}
use agentic_skills_lifecycle.Transaction.Request.{
  Request, PlanDigests, with_plan, normalized_hashes, validate_dependency_bindings,
  validate_hash_map, check_values, validate_value_preconditions,
}
use agentic_skills_lifecycle.Transaction.Preconditions.{
  check_key, check_keys, check_before, check_write, check_writes, check_file, check_deletion,
  check_deletions, check_reads, check_trees, check_absences, validate_plan_preconditions,
}
use agentic_skills_lifecycle.Transaction.Execute.{
  touched_roots, fingerprints, has_pending, differs, build_record, plan_record, check_current,
  prepare, execute,
}
use agentic_skills_lifecycle.Transaction.Laws.Execution.{IsCommitted}
use agentic_skills_lifecycle.Transaction.Laws.Requests.{execute-recovers}
use agentic_skills_lifecycle.Transaction.Laws.Commits.{execute-commits}
use agentic_skills_lifecycle.Transaction.Tests.{
  fingerprint, plain, page, current_doc, engine, domain_of, empty_disk,
}

abbrev digests : PlanDigests
digests = record {
  hash_arguments = λ m. fingerprint;
  hash_state = λ s. s.body;
  hash_route = λ s. s;
  hash_plan = λ a b c e. fingerprint;
  matrix_digest = fingerprint;
  argument_text = λ j. "";
  seal_of = λ s. none;
  tree_hash = λ d k. none;
}

abbrev target_doc : StateDoc
target_doc = record { revision = 1; has_txn = false; body = fingerprint }

abbrev request : Request
request = record {
  operation = "seed";
  current_state = current_doc;
  next_state = target_doc;
  arguments = [];
  input_hashes = [];
  reads = [];
  tree_reads = [];
  values = [];
  absences = [];
  writes = page ∷ [];
  deletions = record { root = "domain"; path = "old"; expected_sha256 = fingerprint } ∷ [];
}

abbrev old_disk : Disk
old_disk = record empty_disk {
  tree = domain_of (λ k. if codes_eq (codes "old") k then regular fingerprint else missing);
}

abbrev built : TransactionRecord
built = record {
  schema = "asme.transaction.v2";
  transaction_id = "seed";
  domain_id = "demo";
  operation = "seed";
  base_revision = 0;
  arguments = [];
  input_hashes = ("output_plan", fingerprint) ∷ [];
  reads = [];
  tree_reads = [];
  absences = [];
  writes = page ∷ [];
  deletions = request.deletions;
  next_state = target_doc;
  target_roots = ("domain", fingerprint) ∷ [];
}

built_here : prepare plain digests engine request none old_disk ≡ (ok built, old_disk)
unfolding prepare plan_record check_current has_pending differs normalized_hashes with_plan
    validate_dependency_bindings validate_hash_map check_values validate_value_preconditions
    check_key check_keys check_before check_write check_writes check_file check_deletion
    check_deletions check_reads check_trees check_absences validate_plan_preconditions insert_key
    sort_keys str_distinct touched_roots fingerprints build_record target locate look has_link get
    safe_member_name is_safe_path pure_parts split_slash kept prepend join_slash lookup has_key
    put_key str_sort require_identifier matches_identifier is_alphanumeric is_identifier_char
    str_len
built_here = refl

built_validates : validate plain built ≡ ok tt
unfolding validate check_contents content get require_identifier matches_identifier is_alphanumeric
    is_identifier_char str_len
built_validates = refl

abbrev left_at : Disk
left_at = (execute plain digests engine (some post_intent) request old_disk).1

request_crash :
    execute plain digests engine (some post_intent) request old_disk
    ≡ (err (crashed post_intent), left_at)
unfolding execute execute_record record_intent crash same_point CrashPoint-discrete validate
    check_contents content get require_identifier matches_identifier is_alphanumeric
    is_identifier_char str_len prepare plan_record check_current has_pending differs
    normalized_hashes with_plan validate_dependency_bindings validate_hash_map check_values
    validate_value_preconditions check_key check_keys check_before check_write check_writes
    check_file check_deletion check_deletions check_reads check_trees check_absences
    validate_plan_preconditions insert_key sort_keys str_distinct touched_roots fingerprints
    build_record target locate look has_link safe_member_name is_safe_path pure_parts split_slash
    kept prepend join_slash lookup has_key put_key str_sort read_state
request_crash = refl

state_reads : read_state plain engine old_disk ≡ (ok none, old_disk)
unfolding read_state
state_reads = refl

items_pass : are_items request.reads request.tree_reads request.absences request.deletions ≡ true
unfolding safe_member_name is_safe_path pure_parts split_slash kept prepend join_slash
    require_identifier matches_identifier is_alphanumeric is_identifier_char str_len
items_pass = refl

request_separate : AreSeparate plain engine request.writes request.deletions
unfolding locate pure_parts split_slash kept prepend
request_separate = record { distinct = refl; disjoint = refl; governed = refl }

request_clear : AreClear plain engine request.writes old_disk
unfolding locate pure_parts split_slash kept prepend is_open
request_clear = record {
  rooms = (record { proper = refl; rooted = refl; way = refl; aside = refl }, tt);
  parallel = refl;
}

execute-recovers_example :
    (left_at ≡ old_disk)
    ⊎ (recover plain engine none left_at ≡ execute plain digests engine none request old_disk)
execute-recovers_example =
    execute-recovers plain digests engine (some post_intent) request old_disk left_at post_intent
      refl items_pass request_separate request_crash

execute-commits_example :
    (d' : Disk) × (execute plain digests engine none request old_disk
      ≡ (ok (committed plain engine built), d'))
    × IsCommitted plain engine built old_disk d'
execute-commits_example =
    execute-commits plain digests engine request old_disk none built refl items_pass state_reads
      built_here built_validates request_separate request_clear
