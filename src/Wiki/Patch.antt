-- ===== src/Wiki/Patch.antt =====
-- `_mapping` and `_apply_patch_operations` of src/asme/wiki.py. The messages leave out the name of the
-- pattern.
use agentic_skills_lifecycle.Prelude.{
  ℕ, String, str_append, str_eq, Bool, true, false, not, ◌&&◌, Option, none, some, List, [], ◌∷◌,
  ◌++◌, Result, ok, err, ◌>>=◌, ◌>>◌, raise_if, codes, ◌==◌, is_blank, is_subset, count_of,
  replace_first, if◌then◌else◌,
}
use agentic_skills_lifecycle.Json.{
  Json, null, text, object, Items, no_items, item, Fields, get_field, field_keys,
}

abbrev pub Page : Type 0
Page = List ℕ

-- `_mapping(value, field=name)`
unfoldable pub mapping : Option Json → String → Result String Fields
mapping (some (object m)) name = ok m
mapping _ name = err (str_append name " must be an object")

-- `isinstance(value, str)`
abbrev pub text_of : Option Json → Option String
text_of (some (text s)) = some s
text_of _ = none

-- `isinstance(value, str) and value.strip()`
unfoldable pub is_nonblank : Option Json → Bool
is_nonblank v = elim (text_of v) [ none ↦ false | some s ↦ not (is_blank s) ]

-- `set(value) == names`
unfoldable pub has_exactly : Fields → List String → Bool
has_exactly m names = is_subset (field_keys m) names && is_subset names (field_keys m)

-- `target in {None, ""}`
abbrev pub is_no_target : Option Json → Bool
is_no_target none = true
is_no_target (some null) = true
is_no_target (some (text s)) = str_eq s ""
is_no_target _ = false

-- A text that is not empty, by code points.
unfoldable pub nonempty_text : Option Json → String → Result String Page
nonempty_text v message = elim (text_of v) [
  | none ↦ err message
  | some s ↦ elim (codes s) [ [] ↦ err message | c ∷ cs ↦ ok (c ∷ cs) ]
]

-- What an operation asks for.
pub data PatchAction : Type 0 where
  append replace insert_after : PatchAction

unfoldable pub patch_action : Option Json → Result String PatchAction
patch_action v = elim (text_of v) [
  | none ↦ err "unknown patch operation"
  | some s ↦
      if str_eq s "append"
      then ok append
      else if str_eq s "replace"
      then ok replace
      else if str_eq s "insert_after"
      then ok insert_after
      else err "unknown patch operation"
]

-- The replacement of a target that occurs once.
unfoldable pub patch_at : Page → Page → Page → Result String Page
patch_at target replacement current = do
  raise_if (not (count_of target current == 1)) "patch target must match exactly once"
  ok (replace_first target replacement current)

-- One round of the loop, on the action, the target and the content.
unfoldable pub patch_with : PatchAction → Option Json → Page → Page → Result String Page
unfolding nonempty_text patch_at
patch_with append target content current = do
  raise_if (not (is_no_target target)) "append patch must not name a target"
  ok (current ++ content)
patch_with replace target content current = do
  t ← nonempty_text target "patch target must be nonempty"
  patch_at t content current
patch_with insert_after target content current = do
  t ← nonempty_text target "patch target must be nonempty"
  patch_at t (t ++ content) current

unfoldable pub patch_step : Json → Page → Result String Page
unfolding mapping patch_action nonempty_text patch_with
patch_step raw current = do
  operation ← mapping (some raw) "update operation"
  action ← patch_action (get_field "op" operation)
  content ← nonempty_text (get_field "content" operation) "patch content must be nonempty"
  patch_with action (get_field "target" operation) content current

-- `_apply_patch_operations`
unfoldable pub apply_patch_operations : Items → Page → Result String Page
unfolding patch_step
apply_patch_operations no_items current = ok current
apply_patch_operations (item raw rest) current = do
  next ← patch_step raw current
  apply_patch_operations rest next
