-- ===== src/Wiki/Change.antt =====
-- `validate_maintainer_change` of src/asme/wiki.py.
use agentic_skills_lifecycle.Prelude.{
  ℕ, String, str_append, false, not, Option, none, some, List, [], ◌∷◌, ◌++◌, Result, ok, err,
  ◌>>=◌, ◌>>◌, raise_if, codes, any, str_mem, str_sort, is_unique, Dict, lookup, has_key, put_key,
  keys, is_some,
}
use agentic_skills_lifecycle.Canonical.{require_identifier}
use agentic_skills_lifecycle.Json.{Json, array, Items, item, Fields, get_field, field_keys, is_text}
use agentic_skills_lifecycle.Wiki.Traces.{TraceView}
use agentic_skills_lifecycle.Wiki.Patch.{
  Page, mapping, text_of, is_nonblank, has_exactly, apply_patch_operations,
}
use agentic_skills_lifecycle.Wiki.Page.{validate_pattern_page}
use agentic_skills_lifecycle.Wiki.Attestation.{
  ids_of, validate_class_coverage, validate_pattern_attestation,
}

abbrev pub Pages : Type 0
Pages = Dict Page

pub record ValidatedWikiChange : Type 0 where
  pub pages : Pages
  pub index : Option Json
  pub log_entry : Option Json
  pub attestation : Fields

-- One round of the loop over the patterns to create.
unfoldable pub create_page : Fields → String → Pages → Result String Pages
create_page creates name pages = do
  _ ← require_identifier name "pattern name"
  raise_if (has_key name pages) (str_append "create pattern already exists: " name)
  elim (text_of (get_field name creates)) [
    | none ↦ err (str_append "created pattern must be text: " name)
    | some s ↦ ok (put_key name (codes s) pages)
  ]

unfoldable pub create_pages : Fields → List String → Pages → Result String Pages
unfolding create_page
create_pages creates [] pages = ok pages
create_pages creates (name ∷ names) pages = do
  next ← create_page creates name pages
  create_pages creates names next

-- The operations of an update: a list that is not empty.
unfoldable pub operations_of : Option Json → Option Items
operations_of (some (array (item raw rest))) = some (item raw rest)
operations_of _ = none

-- One round of the loop over the patterns to update.
unfoldable pub update_page : Fields → String → Pages → Result String Pages
unfolding operations_of
update_page updates name pages = do
  _ ← require_identifier name "pattern name"
  elim (lookup name pages) [
    | none ↦ err (str_append "updated pattern does not exist: " name)
    | some page ↦ elim (operations_of (get_field name updates)) [
      | none ↦ err (str_append "updated pattern requires a nonempty operation list: " name)
      | some operations ↦ do
        patched ← apply_patch_operations operations page
        ok (put_key name patched pages)
    ]
  ]

unfoldable pub update_pages : Fields → List String → Pages → Result String Pages
unfolding update_page
update_pages updates [] pages = ok pages
update_pages updates (name ∷ names) pages = do
  next ← update_page updates name pages
  update_pages updates names next

abbrev pub change_fields : List String
change_fields =
    "create_patterns" ∷ "update_patterns" ∷ "update_index" ∷ "append_log" ∷ "attestation" ∷ []

module _ (loads : List ℕ → Option Json) where
  -- A changed page and its attestation.
  unfoldable pub check_page :
      Fields → Fields → List TraceView → Pages → String → Result String (Unit {0})
  check_page creates per_pattern traces pages name = elim (lookup name pages) [
    | none ↦ err name
    | some page ↦ do
      (kind, evidence) ← validate_pattern_page loads page
      m ← mapping (get_field name per_pattern) "attestation.per_pattern"
      validate_pattern_attestation name m kind evidence traces (is_some (get_field name creates))
  ]

  unfoldable pub check_pages :
      Fields → Fields → List TraceView → Pages → List String → Result String (Unit {0})
  unfolding check_page
  check_pages creates per_pattern traces pages [] = ok tt
  check_pages creates per_pattern traces pages (name ∷ names) = do
    check_page creates per_pattern traces pages name
    check_pages creates per_pattern traces pages names

  -- The checks of the attestation of a change that has made its pages.
  unfoldable pub check_attestation :
      Fields → Fields → List String → List TraceView → String → Pages → Result String (Unit {0})
  unfolding check_pages
  check_attestation attestation creates changed traces input_hash pages = do
    raise_if (not (has_exactly attestation ("input_hash" ∷ "class_coverage" ∷ "per_pattern" ∷ [])))
        "attestation fields must be input_hash, class_coverage, and per_pattern"
    raise_if
        (not (elim (get_field "input_hash" attestation) [
          | none ↦ false
          | some v ↦ is_text input_hash v
        ]))
        "maintainer input hash mismatch"
    per_pattern ← mapping (get_field "per_pattern" attestation) "attestation.per_pattern"
    raise_if (not (has_exactly per_pattern changed))
        "per_pattern attestation must cover every and only changed pattern"
    raise_if (not (is_unique (ids_of traces))) "sample contains duplicate trace IDs"
    validate_class_coverage (get_field "class_coverage" attestation) traces (keys pages)
    check_pages creates per_pattern traces pages (str_sort changed)

  -- `validate_maintainer_change`
  unfoldable pub validate_maintainer_change :
      Fields → List TraceView → String → Pages → Result String ValidatedWikiChange
  unfolding create_pages update_pages check_attestation
  validate_maintainer_change payload traces input_hash existing = do
    raise_if (not (has_exactly payload change_fields)) "maintainer output fields differ"
    creates ← mapping (get_field "create_patterns" payload) "create_patterns"
    updates ← mapping (get_field "update_patterns" payload) "update_patterns"
    raise_if (any (λ n. str_mem n (field_keys updates)) (field_keys creates))
        "a pattern cannot be created and updated in one change"
    created ← create_pages creates (str_sort (field_keys creates)) existing
    pages ← update_pages updates (str_sort (field_keys updates)) created
    raise_if (not (is_nonblank (get_field "update_index" payload)))
        "update_index must be nonblank text"
    raise_if (not (is_nonblank (get_field "append_log" payload))) "append_log must be nonblank text"
    attestation ← mapping (get_field "attestation" payload) "attestation"
    check_attestation attestation creates (field_keys creates ++ field_keys updates) traces
        input_hash pages
    ok (record {
      pages = pages;
      index = get_field "update_index" payload;
      log_entry = get_field "append_log" payload;
      attestation = attestation;
    })
