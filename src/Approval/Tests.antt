-- ===== src/Approval/Tests.antt =====
-- An approval of one artifact, and the theorems of Approval/ there.
use agentic_skills_lifecycle.Prelude.{
  ◌≡◌, refl, String, str_eq, true, false, none, some, [], ◌∷◌, ok, err, lookup, is_blank,
  is_blank_codes, is_space, if◌then◌else◌,
}
use agentic_skills_lifecycle.Approval.{
  Stamp, malformed, moment, ApprovalRecord, Use, is_digest, agrees, same_dict, aware_datetime,
  current_moment, checked_approval, validate_for, consume,
}
use agentic_skills_lifecycle.Approval.Laws.{Covers, validate_for-Covers, consume-once}

abbrev parse : String → Stamp
parse s =
    if str_eq s "2026-01-01T00:00:00+00:00"
    then moment 10
    else if str_eq s "2026-01-02T00:00:00+00:00"
    then moment 20
    else malformed

abbrev digest : String
digest = "aaaaaaaaaaaaaaaaaaaaaaaaaaaaaaaaaaaaaaaaaaaaaaaaaaaaaaaaaaaaaaaa"

abbrev approval : ApprovalRecord
approval = record {
  approval_id = "a1";
  phase = "test";
  artifact_hashes = ("package", digest) ∷ [];
  runtime_id = some "runtime";
  destination = none;
  approved_at = "2026-01-01T00:00:00+00:00";
  expires_at = "2026-01-02T00:00:00+00:00";
  approver = "owner";
  consumed = false;
}

abbrev request : Use
request = record {
  phase = "test";
  artifact_hashes = ("package", digest) ∷ [];
  runtime_id = some "runtime";
  destination = none;
  now = moment 10;
}

passes : validate_for parse approval request ≡ ok tt
unfolding validate_for same_dict agrees lookup aware_datetime current_moment
passes = refl

abbrev used : ApprovalRecord
used = record approval { consumed = true }

is_used : consume parse approval ≡ ok used
unfolding consume checked_approval is_digest aware_datetime is_blank is_blank_codes is_space
is_used = refl

validate_for-Covers_example : Covers parse approval request
validate_for-Covers_example = validate_for-Covers parse approval request passes

consume-once_example :
    (false ≡ false)
    × (used ≡ used)
    × (validate_for parse used request ≡ err "approval record has already been consumed")
    × (consume parse used ≡ err "approval record has already been consumed")
consume-once_example = consume-once parse approval used request is_used
