-- ===== src/Snapshot/Mirror.antt =====
-- `verify_snapshot` and `mirror_rebuild_plan` of src/asme/snapshot.py. The entries below a directory
-- are given in the order of their paths. The messages leave out the path.
pub mod Plans
use agentic_skills_lifecycle.Prelude.{
  String, str_len, Bool, true, false, not, ◌&&◌, List, [], ◌∷◌, Result, ok, err, ◌>>=◌, ◌>>◌,
  raise_if, opt_is, ◌==◌, Dict, lookup, has_key, put_key, sort_keys, length,
}
use agentic_skills_lifecycle.Canonical.{require_identifier, safe_member_name}
use agentic_skills_lifecycle.Transaction.Records.{PlannedWrite, PlannedDeletion}
use agentic_skills_lifecycle.Snapshot.{FileDigests, SnapshotFile, Snapshot, planned_write}

-- An entry below a directory; a regular file has its hash.
pub data Entry : Type 0 where
  linked folder special : Entry
  regular : String → Entry

-- What stands at the path of a directory.
pub data Directory : Type 0 where
  missing unsafe : Directory
  listing : List (String × Entry) → Directory

-- The loop over the entries, with the hashes found so far.
unfoldable pub scan : String → List (String × Entry) → Dict String → Result String (Dict String)
scan refused [] actual = ok actual
scan refused ((path, linked) ∷ rest) actual = err refused
scan refused ((path, special) ∷ rest) actual = err refused
scan refused ((path, folder) ∷ rest) actual = scan refused rest actual
scan refused ((path, regular hash) ∷ rest) actual = do
  _ ← safe_member_name path
  scan refused rest (put_key path hash actual)

-- `{item.path: item for item in files}`, after the items that are there.
unfoldable pub expected_from : Dict SnapshotFile → List SnapshotFile → Dict SnapshotFile
expected_from m [] = m
expected_from m (f ∷ fs) = expected_from (put_key f.path f m) fs

unfoldable pub expected_files : Snapshot → Dict SnapshotFile
unfolding expected_from
expected_files s = expected_from [] s.files

-- The hashes of the right are those of the files.
unfoldable pub all_present : Dict SnapshotFile → Dict String → Bool
all_present [] actual = true
all_present ((k, f) ∷ m) actual = opt_is (lookup k actual) f.sha256 && all_present m actual

-- `actual != expected`, of two mappings.
unfoldable pub same_members : Dict SnapshotFile → Dict String → Bool
unfolding all_present
same_members m actual = length m == length actual && all_present m actual

-- `verify_snapshot`
unfoldable pub verify_snapshot : Directory → Snapshot → Result String (Unit {0})
unfolding scan expected_files same_members
verify_snapshot missing s = elim s.files [
  | [] ↦ ok tt
  | f ∷ fs ↦ err "snapshot directory is missing or unsafe"
]
verify_snapshot unsafe s = err "snapshot directory is missing or unsafe"
verify_snapshot (listing entries) s = do
  actual ← scan "unsafe snapshot entry" entries []
  raise_if (not (same_members (expected_files s) actual))
      "immutable snapshot membership or bytes changed"

-- `PlannedDeletion(root=root, path=path, expected_sha256=digest)`
unfoldable pub planned_deletion : String → String → String → Result String PlannedDeletion
planned_deletion root path digest = do
  _ ← require_identifier root "planned deletion root"
  _ ← safe_member_name path
  raise_if (not (str_len digest == 64)) "planned deletion requires a SHA-256 digest"
  ok (record { root = root; path = path; expected_sha256 = digest })

unfoldable pub scan_mirror : Directory → Result String (Dict String)
unfolding scan
scan_mirror missing = ok []
scan_mirror unsafe = err "mirror root is unsafe"
scan_mirror (listing entries) = scan "unsafe mirror entry" entries []

-- The deletions of the files that are not expected.
unfoldable pub rebuild_deletions :
    String → Dict SnapshotFile → Dict String → Result String (List PlannedDeletion)
unfolding planned_deletion
rebuild_deletions root expected [] = ok []
rebuild_deletions root expected ((path, digest) ∷ rest) = elim (has_key path expected) [
  | true ↦ rebuild_deletions root expected rest
  | false ↦ do
    x ← planned_deletion root path digest
    xs ← rebuild_deletions root expected rest
    ok (x ∷ xs)
]

module _ (g : FileDigests) where
  -- The writes of the files that are missing or differ.
  unfoldable pub rebuild_writes :
      String → Dict String → Dict SnapshotFile → Result String (List PlannedWrite)
  rebuild_writes root actual [] = ok []
  rebuild_writes root actual ((path, f) ∷ rest) = elim (opt_is (lookup path actual) f.sha256) [
    | true ↦ rebuild_writes root actual rest
    | false ↦ do
      w ← planned_write g root path f.content (lookup path actual) 384 false
      ws ← rebuild_writes root actual rest
      ok (w ∷ ws)
  ]

  -- `mirror_rebuild_plan`
  unfoldable pub mirror_rebuild_plan :
      Directory → Snapshot → String → Result String (List PlannedWrite × List PlannedDeletion)
  unfolding scan_mirror expected_files rebuild_writes rebuild_deletions
  mirror_rebuild_plan mirror s root = do
    actual ← scan_mirror mirror
    let expected = expected_files s
    writes ← rebuild_writes root actual (sort_keys expected)
    deletions ← rebuild_deletions root expected (sort_keys actual)
    ok (writes, deletions)
