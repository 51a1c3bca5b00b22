-- ===== src/Proposal/Tests.antt =====
-- A proposal that creates a skill in an empty snapshot, and the theorem of Proposal/ there.
use agentic_skills_lifecycle.Prelude.{
  ℕ, ◌≡◌, refl, String, codes, true, some, Option, List, [], ◌∷◌, ok, lookup, put_key, insert_key,
  sort_keys, str_leb, codes_leb, encode, encode_char, str_mem, is_unique, is_blank, is_blank_codes,
  is_space, strip_prefix, is_within, big_endian, str_distinct, str_sort, str_insert,
}
use agentic_skills_lifecycle.Canonical.{
  safe_member_name, is_safe_path, pure_parts, split_slash, kept, prepend, join_slash,
  require_identifier, matches_identifier, is_alphanumeric, is_identifier_char,
}
use agentic_skills_lifecycle.Json.{
  Json, text, array, object, no_items, item, no_fields, field, get_field,
}
use agentic_skills_lifecycle.Wiki.Patch.{has_exactly}
use agentic_skills_lifecycle.Snapshot.{
  FileDigests, Snapshot, content_map, material, framed, markers_of, checked_snapshot, snapshot_file,
  snapshot_files, from_mapping,
}
use agentic_skills_lifecycle.Proposal.Origins.{
  identifier_of, identifiers_of, trace_ids_of, origin_ids_of, purpose_origin_observations,
}
use agentic_skills_lifecycle.Proposal.Edits.{created_text, create_file, create_files}
use agentic_skills_lifecycle.Proposal.Decision.{
  create, ValidatedProposal, Proposer, choice_of, has_fields, has_skill, files_of, edited,
  reason_of, skill_of, candidate_of, changed, decided, validate_object, validate_proposal,
}
use agentic_skills_lifecycle.Proposal.Decision.Laws.{IsDecided, validate_proposal-IsAccepted}

-- One hash for the empty content, and one for every other.
abbrev digests : FileDigests
digests = record {
  sha256 = λ c. elim c [ [] ↦ "empty" | b ∷ bs ↦ "full" ];
  encode_base64 = λ c. "";
}

abbrev answer : Json
answer = object (
    field "action" (text "create") (
      field "context_hash" (text "empty") (
        field "reason" (text "four failures") (
          field "trace_ids"
            (array
              (item (text "t1") (item (text "t2") (item (text "t3") (item (text "t4") no_items)))))
            (field "skill_name" (text "sums")
              (field "files" (object (field "SKILL.md" (text "add") no_fields)) no_fields))))))

abbrev loads : List ℕ → Option Json
loads value = some answer

abbrev ids : List String
ids = "t1" ∷ "t2" ∷ "t3" ∷ "t4" ∷ []

abbrev proposer : Proposer
proposer = record {
  context = [];
  available_trace_ids = ids;
  available_origin_observation_ids = [];
  active_snapshot = record { snapshot_hash = "empty"; files = [] };
  forbidden_markers = "seed" ∷ [];
}

abbrev candidate : Snapshot
candidate = record {
  snapshot_hash = "full";
  files = record { path = "sums/SKILL.md"; content = codes "add"; sha256 = "full" } ∷ [];
}

abbrev accepted : ValidatedProposal
accepted = record {
  action = create;
  context_hash = "empty";
  reason = "four failures";
  trace_ids = ids;
  origin_observation_ids = [];
  skill_name = some "sums";
  snapshot = candidate;
}

accepted_here : validate_proposal digests loads proposer [] ≡ ok accepted
unfolding validate_proposal validate_object choice_of has_fields has_exactly reason_of trace_ids_of
    identifiers_of identifier_of decided changed skill_of origin_ids_of candidate_of
    purpose_origin_observations content_map edited has_skill files_of create_files create_file
    created_text from_mapping markers_of snapshot_files snapshot_file checked_snapshot material
    framed encode encode_char strip_prefix is_within lookup put_key insert_key sort_keys str_sort
    str_insert str_leb codes_leb get_field is_blank is_blank_codes is_space safe_member_name
    is_safe_path pure_parts split_slash kept prepend join_slash require_identifier
    matches_identifier is_alphanumeric is_identifier_char big_endian str_distinct
accepted_here = refl

validate_proposal-IsAccepted_example :
    (is_unique ids ≡ true)
    × ((s : String) → str_mem s ids ≡ true → str_mem s ids ≡ true)
    × IsDecided digests loads proposer accepted
validate_proposal-IsAccepted_example =
    validate_proposal-IsAccepted digests loads proposer [] accepted accepted_here
