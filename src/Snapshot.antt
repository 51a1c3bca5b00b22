-- ===== src/Snapshot.antt =====
-- Snapshots of src/asme/snapshot.py: their files, the bytes that name them, and the plan that
-- publishes one. SHA-256 and base64 are a parameter. The messages leave out the path.
pub mod Mirror
mod Framing
mod Tests
use agentic_skills_lifecycle.Prelude.{
  ℕ, String, str_append, str_eq, codes, Bool, true, false, not, ◌&&◌, Option, none, some, List, [],
  ◌∷◌, ◌++◌, map, Result, ok, err, ◌>>=◌, ◌>>◌, raise_if, any, length, leb, is_unique, str_sort,
  Dict, lookup, has_key, sort_keys, Bytes, encode, big_endian, is_within, if◌then◌else◌,
}
use agentic_skills_lifecycle.Canonical.{require_identifier, safe_member_name}
use agentic_skills_lifecycle.Transaction.Records.{PlannedWrite}

pub record FileDigests : Type 0 where
  pub sha256 : Bytes → String
  pub encode_base64 : Bytes → String

pub record SnapshotFile : Type 0 where
  pub path : String
  pub content : Bytes
  pub sha256 : String

pub record Snapshot : Type 0 where
  pub snapshot_hash : String
  pub files : List SnapshotFile

-- A text or a content with its length before it.
unfoldable pub framed : Bytes → Bytes
framed content = big_endian 8 (length content) ++ content

-- `_snapshot_material`
unfoldable pub material : List SnapshotFile → Bytes
unfolding framed
material [] = []
material (f ∷ fs) = framed (encode (codes f.path)) ++ framed f.content ++ material fs

abbrev pub paths : List SnapshotFile → List String
paths files = map (λ f. f.path) files

abbrev same_texts : List String → List String → Bool
same_texts [] [] = true
same_texts (s ∷ ss) (t ∷ ts) = str_eq s t && same_texts ss ts
same_texts _ _ = false

-- `content_map`
unfoldable pub content_map : Snapshot → Dict Bytes
content_map s = map (λ f. (f.path, f.content)) s.files

-- The markers that are looked for.
unfoldable pub markers_of : List String → List Bytes
markers_of [] = []
markers_of (m ∷ ms) =
    let rest = markers_of ms in if str_eq m "" then rest else encode (codes m) ∷ rest

module _ (g : FileDigests) where
  -- `Snapshot.__post_init__`
  unfoldable pub checked_snapshot : Snapshot → Result String Snapshot
  unfolding material
  checked_snapshot s = do
    raise_if
        (not (same_texts (paths s.files) (str_sort (paths s.files)) && is_unique (paths s.files)))
        "snapshot paths must be sorted and unique"
    raise_if (not (str_eq (g.sha256 (material s.files)) s.snapshot_hash))
        "snapshot hash does not match its files"
    ok s

  -- One round of the loop of `Snapshot.from_mapping`.
  unfoldable pub snapshot_file : List Bytes → String → Bytes → Result String SnapshotFile
  snapshot_file markers path content = do
    name ← safe_member_name path
    raise_if (any (λ m. is_within m content) markers) "provenance marker propagated into candidate"
    ok (record { path = name; content = content; sha256 = g.sha256 content })

  unfoldable pub snapshot_files : List Bytes → Dict Bytes → Result String (List SnapshotFile)
  unfolding snapshot_file
  snapshot_files markers [] = ok []
  snapshot_files markers ((path, content) ∷ rest) = do
    f ← snapshot_file markers path content
    fs ← snapshot_files markers rest
    ok (f ∷ fs)

  -- `Snapshot.from_mapping(contents, forbidden_markers=markers)`
  unfoldable pub from_mapping : Dict Bytes → List String → Result String Snapshot
  unfolding checked_snapshot snapshot_files markers_of
  from_mapping contents markers = do
    files ← snapshot_files (markers_of markers) (sort_keys contents)
    checked_snapshot (record { snapshot_hash = g.sha256 (material files); files = files })

  -- `Snapshot.empty`
  unfoldable pub empty : Result String Snapshot
  unfolding checked_snapshot
  empty = checked_snapshot (record { snapshot_hash = g.sha256 []; files = [] })

  -- `snapshot_material`
  unfoldable pub snapshot_material : Snapshot → Result String Bytes
  unfolding material
  snapshot_material s =
      if str_eq (g.sha256 (material s.files)) s.snapshot_hash
      then ok (material s.files)
      else err "snapshot material differs from its hash"

  -- `PlannedWrite.from_bytes`
  unfoldable pub planned_write :
      String → String → Bytes → Option String → ℕ → Bool → Result String PlannedWrite
  planned_write root path content before mode identical = do
    _ ← require_identifier root "planned write root"
    _ ← safe_member_name path
    raise_if (not (leb mode 511)) "planned write mode must be in [0o000,0o777]"
    ok (record {
      root = root;
      path = path;
      content_base64 = g.encode_base64 content;
      content_sha256 = g.sha256 content;
      expected_before_sha256 = before;
      mode = mode;
      allow_existing_identical = identical;
    })

  unfoldable pub snapshot_writes :
      String → String → List SnapshotFile → Result String (List PlannedWrite)
  unfolding planned_write
  snapshot_writes root folder [] = ok []
  snapshot_writes root folder (f ∷ fs) = do
    w ← planned_write root (str_append folder (str_append "/" f.path)) f.content none 384 true
    ws ← snapshot_writes root folder fs
    ok (w ∷ ws)

  -- `snapshot_write_plan`
  unfoldable pub snapshot_write_plan : Snapshot → String → Result String (List PlannedWrite)
  unfolding snapshot_writes
  snapshot_write_plan s root = snapshot_writes root s.snapshot_hash s.files

-- `active_snapshot`, on `state.get("active_snapshot_hash")` where it is a text.
unfoldable pub active_snapshot : Option String → Dict Snapshot → Result String Snapshot
active_snapshot none snapshots = err "active snapshot pointer is missing or unknown"
active_snapshot (some pointer) snapshots = elim (lookup pointer snapshots) [
  | none ↦ err "active snapshot pointer is missing or unknown"
  | some s ↦
      if str_eq s.snapshot_hash pointer then ok s else err "active snapshot pointer hash mismatch"
]
