-- ===== src/Proposal/Edits.antt =====
-- The changes that a proposal makes to the files of its skill: the loop over `files` and `_apply_patch`
-- of src/asme/proposal.py.
use agentic_skills_lifecycle.Prelude.{
  ℕ, String, str_append, codes, not, Option, none, some, List, [], ◌∷◌, Result, ok, err, ◌>>=◌,
  ◌>>◌, raise_if, ◌==◌, count_of, replace_first, Dict, lookup, put_key, Bytes, encode, decode,
}
use agentic_skills_lifecycle.Canonical.{safe_member_name}
use agentic_skills_lifecycle.Json.{
  Json, text, object, Items, no_items, item, Fields, no_fields, field, get_field,
}
use agentic_skills_lifecycle.Wiki.Patch.{text_of, has_exactly, nonempty_text}

-- The text of a file of a new skill.
unfoldable pub created_text : String → Json → Result String String
created_text relative (text s) = ok s
created_text relative _ = err (str_append "created skill file must be text: " relative)

-- One round of the loop over the files of a new skill.
unfoldable pub create_file : String → String → Json → Dict Bytes → Result String (Dict Bytes)
unfolding created_text
create_file prefix member content contents = do
  relative ← safe_member_name member
  s ← created_text relative content
  path ← safe_member_name (str_append prefix relative)
  ok (put_key path (encode (codes s)) contents)

unfoldable pub create_files : String → Fields → Dict Bytes → Result String (Dict Bytes)
unfolding create_file
create_files prefix no_fields contents = ok contents
create_files prefix (field member content rest) contents = do
  next ← create_file prefix member content contents
  create_files prefix rest next

-- `safe_member_name` of a JSON value.
unfoldable pub member_of : Option Json → Result String String
member_of v = elim (text_of v) [
  | none ↦ err "archive member must be a non-empty POSIX path"
  | some s ↦ safe_member_name s
]

-- The text of a file that is there.
unfoldable pub file_text : String → Dict Bytes → Result String (List ℕ)
file_text path contents = elim (lookup path contents) [
  | none ↦ err (str_append "proposal patch file is missing: " path)
  | some content ↦ elim (decode content) [
    | none ↦ err (str_append "proposal patch file is not UTF-8: " path)
    | some cs ↦ ok cs
  ]
]

unfoldable pub replacement_of : Option Json → Result String (List ℕ)
replacement_of v = elim (text_of v) [
  | none ↦ err "proposal patch replacement must be text"
  | some s ↦ ok (codes s)
]

-- `_apply_patch`
unfoldable pub apply_patch : String → Json → Dict Bytes → Result String (Dict Bytes)
unfolding member_of file_text replacement_of
apply_patch prefix (object raw) contents = do
  raise_if (not (has_exactly raw ("path" ∷ "target" ∷ "replacement" ∷ [])))
      "proposal patch must contain path, target, and replacement"
  member ← member_of (get_field "path" raw)
  path ← safe_member_name (str_append prefix member)
  target ← nonempty_text (get_field "target" raw) "proposal patch target cannot be empty"
  replacement ← replacement_of (get_field "replacement" raw)
  old ← file_text path contents
  raise_if (not (count_of target old == 1)) "proposal patch target must match exactly once"
  ok (put_key path (encode (replace_first target replacement old)) contents)
apply_patch prefix _ contents = err "proposal patch must contain path, target, and replacement"

unfoldable pub apply_patches : String → Items → Dict Bytes → Result String (Dict Bytes)
unfolding apply_patch
apply_patches prefix no_items contents = ok contents
apply_patches prefix (item raw rest) contents = do
  next ← apply_patch prefix raw contents
  apply_patches prefix rest next
