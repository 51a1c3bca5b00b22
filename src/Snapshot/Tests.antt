-- ===== src/Snapshot/Tests.antt =====
-- A snapshot of one file and a mirror with another one, and the theorems of Snapshot/ there.
use agentic_skills_lifecycle.Prelude.{
  Dict, ◌≡◌, ◌↔◌, refl, arith, String, str_len, codes_leb, str_leb, false, some, [], ◌∷◌, ok,
  lookup, has_key, put_key, insert_key, sort_keys, encode, encode_char,
}
use agentic_skills_lifecycle.Canonical.{
  safe_member_name, is_safe_path, pure_parts, split_slash, kept, prepend, join_slash,
  require_identifier, matches_identifier, is_alphanumeric, is_identifier_char,
}
use agentic_skills_lifecycle.Transaction.Records.{PlannedWrite, PlannedDeletion}
use agentic_skills_lifecycle.Snapshot.{FileDigests, SnapshotFile, Snapshot, material, planned_write}
use agentic_skills_lifecycle.Snapshot.Mirror.{
  Directory, listing, regular, scan, scan_mirror, expected_from, expected_files, planned_deletion,
  rebuild_writes, rebuild_deletions, mirror_rebuild_plan,
}
use agentic_skills_lifecycle.Snapshot.Mirror.Plans.{
  find_write, find_deletion, write_for, deletion_for, mirror_rebuild_plan-plans,
}
use agentic_skills_lifecycle.Snapshot.Framing.{CanFrame, contents, material-contents}

abbrev new_hash : String
new_hash = "bbbbbbbbbbbbbbbbbbbbbbbbbbbbbbbbbbbbbbbbbbbbbbbbbbbbbbbbbbbbbbbb"

abbrev old_hash : String
old_hash = "aaaaaaaaaaaaaaaaaaaaaaaaaaaaaaaaaaaaaaaaaaaaaaaaaaaaaaaaaaaaaaaa"

abbrev digests : FileDigests
digests = record { sha256 = λ c. new_hash; encode_base64 = λ c. "" }

abbrev skill : SnapshotFile
skill = record { path = "a/SKILL.md"; content = 97 ∷ []; sha256 = new_hash }

abbrev snapshot : Snapshot
snapshot = record { snapshot_hash = new_hash; files = skill ∷ [] }

abbrev mirror : Directory
mirror = listing (("a/SKILL.md", regular old_hash) ∷ ("old.md", regular old_hash) ∷ [])

abbrev write : PlannedWrite
write = record {
  root = "mirror";
  path = "a/SKILL.md";
  content_base64 = "";
  content_sha256 = new_hash;
  expected_before_sha256 = some old_hash;
  mode = 384;
  allow_existing_identical = false;
}

abbrev deletion : PlannedDeletion
deletion = record { root = "mirror"; path = "old.md"; expected_sha256 = old_hash }

plan_here : mirror_rebuild_plan digests mirror snapshot "mirror" ≡ ok (write ∷ [], deletion ∷ [])
unfolding mirror_rebuild_plan scan_mirror scan expected_files expected_from rebuild_writes
    rebuild_deletions planned_write planned_deletion safe_member_name is_safe_path pure_parts
    split_slash kept prepend join_slash require_identifier matches_identifier is_alphanumeric
    is_identifier_char str_len lookup has_key put_key insert_key sort_keys str_leb codes_leb
plan_here = refl

mirror_rebuild_plan-plans_example :
    (actual : Dict String) × (scan_mirror mirror ≡ ok actual)
    × ((k : String)
        → (find_write k (write ∷ [])
            ≡ write_for digests "mirror" k (lookup k (expected_files snapshot)) (lookup k actual))
          × (find_deletion k (deletion ∷ [])
              ≡ deletion_for "mirror" k (expected_files snapshot) (lookup k actual)))
mirror_rebuild_plan-plans_example =
    mirror_rebuild_plan-plans digests mirror snapshot "mirror" (write ∷ []) (deletion ∷ [])
      plan_here

framable : CanFrame skill
unfolding encode encode_char
framable = record { points = ground arith; short_path = ground arith; short_content = ground arith }

material-contents_example :
    (material (skill ∷ []) ≡ material (skill ∷ []))
    ↔ (contents (skill ∷ []) ≡ contents (skill ∷ []))
material-contents_example =
    material-contents (skill ∷ []) (skill ∷ []) (framable, tt) (framable, tt)
