-- ===== src/Wiki/Laws/Changes.antt =====
-- What a maintainer's change that is accepted leaves: `validate_maintainer_change` of src/asme/wiki.py.
use agentic_skills_lifecycle.Prelude.{
  ℕ, ◌≡◌, ◌∙◌, inl, inr, refl, sym, ap, subst, String, str_eq, eq_iff, Bool, true, false, not,
  Option, none, some, List, [], ◌∷◌, ◌++◌, Result, ok, ◌>>=◌, raise_if, any, str_mem,
  str_mem-append, str_sort, str_mem-sort, lookup, is_some, is_unique, keys, arith, >>=-eq-ok,
  ok-injective, Option-cases, Bool-cases,
}
use agentic_skills_lifecycle.Json.{Json, is_text, Fields, get_field, field_keys}
use agentic_skills_lifecycle.Wiki.Traces.{TraceView}
use agentic_skills_lifecycle.Wiki.Patch.{Page, mapping, is_nonblank, has_exactly}
use agentic_skills_lifecycle.Wiki.Page.{Evidence, validate_pattern_page}
use agentic_skills_lifecycle.Wiki.Attestation.{validate_pattern_attestation}
use agentic_skills_lifecycle.Wiki.Change.{
  Pages, ValidatedWikiChange, create_page, create_pages, update_page, update_pages, change_fields,
  check_page, check_pages, check_attestation, validate_maintainer_change,
}
use agentic_skills_lifecycle.Wiki.Laws.Quotes.{AreQuoted, validate_pattern_attestation-AreQuoted}
use agentic_skills_lifecycle.Wiki.Laws.Pages.{
  create_page-fresh, update_page-there, loop, loop-untouched, loop-asked,
}
use agentic_skills_lifecycle.Wiki.Attestation.{ids_of, validate_class_coverage}

create_pages-loop :
    (creates : Fields) (names : List String) (pages : Pages)
    → create_pages creates names pages
      ≡ loop (create_page creates) (λ p. not (is_some p)) names pages
unfolding create_pages
create_pages-loop creates [] pages = refl
create_pages-loop creates (name ∷ names) pages = refl

update_pages-loop :
    (updates : Fields) (names : List String) (pages : Pages)
    → update_pages updates names pages ≡ loop (update_page updates) (λ p. is_some p) names pages
unfolding update_pages
update_pages-loop updates [] pages = refl
update_pages-loop updates (name ∷ names) pages = refl

abbrev is_new : Option Page → Bool
is_new p = not (is_some p)

-- The loop over the patterns to create.
created_pages :
    (creates : Fields) (names : List String) (pages next : Pages) (k : String)
    → create_pages creates names pages ≡ ok next
    → (str_mem k names ≡ true → lookup k pages ≡ none)
      × (str_mem k names ≡ false → lookup k next ≡ lookup k pages)
created_pages creates names pages next k h =
    let run = sym (create_pages-loop creates names pages) ∙ h in
    (
      λ m.
          none_of (lookup k pages)
            (loop-asked (create_page creates) is_new one names pages next k run m),
      λ m. loop-untouched (create_page creates) is_new one names pages next k run m,
    )
  where
    none_of : (p : Option Page) → is_new p ≡ true → p ≡ none
    none_of none q = refl
    none_of (some p) q = cc

    one :
        (name : String) (old new : Pages)
        → create_page creates name old ≡ ok new
        → (is_new (lookup name old) ≡ true)
          × ((j : String) → str_eq name j ≡ false → lookup j new ≡ lookup j old)
    one name old new q =
        let (fresh, others) = create_page-fresh creates name old new q in (ap is_new fresh, others)

-- The loop over the patterns to update.
updated_pages :
    (updates : Fields) (names : List String) (pages next : Pages) (k : String)
    → update_pages updates names pages ≡ ok next
    → (str_mem k names ≡ true → is_some (lookup k pages) ≡ true)
      × (str_mem k names ≡ false → lookup k next ≡ lookup k pages)
updated_pages updates names pages next k h =
    let run = sym (update_pages-loop updates names pages) ∙ h in
    (
      λ m.
          loop-asked (update_page updates) (λ p. is_some p) (update_page-there updates) names pages
            next k run m,
      λ m.
          loop-untouched (update_page updates) (λ p. is_some p) (update_page-there updates) names
            pages next k run m,
    )

no_common :
    (cs us : List String) (k : String)
    → any (λ n. str_mem n us) cs ≡ false
    → str_mem k us ≡ true
    → str_mem k cs ≡ false
no_common [] us k h m = refl
no_common (c ∷ cs) us k h m = elim (Bool-cases (str_eq c k)) [
  | inl t ↦
      let same = subst (λ z. str_mem z us ≡ true) (sym ((eq_iff c k).0 t)) m in
      absurd (ground arith)
  | inr f ↦ ground (arith, no_common cs us k (ground arith) m)
]

-- A page that is there, follows the grammar of patterns, and quotes the sample in its evidence.
pub record IsPattern (loads : List ℕ → Option Json) (traces : List TraceView) (pages : Pages)
    (name : String) : Type 0 where
  pub page : Page
  pub kind : List ℕ
  pub evidence : List Evidence
  pub there : lookup name pages ≡ some page
  pub valid : validate_pattern_page loads page ≡ ok (kind, evidence)
  pub quoted : AreQuoted traces evidence

module _ (loads : List ℕ → Option Json) where
  check_page-IsPattern :
      (creates per_pattern : Fields) (traces : List TraceView) (pages : Pages) (name : String)
      → check_page loads creates per_pattern traces pages name ≡ ok tt
      → IsPattern loads traces pages name
  unfolding check_page
  check_page-IsPattern creates per_pattern traces pages name h =
      elim (Option-cases (lookup name pages)) [
        | inl n ↦ absurd (ground arith)
        | inr (page, n) ↦
            let (found, valid, h1) =
              >>=-eq-ok (validate_pattern_page loads page) _ (at_page page n h) in
            let (m, _, h2) =
              >>=-eq-ok (mapping (get_field name per_pattern) "attestation.per_pattern") _ h1 in
            record {
              page = page;
              kind = found.0;
              evidence = found.1;
              there = n;
              valid = valid;
              quoted =
                  validate_pattern_attestation-AreQuoted name m found.0 found.1 traces
                    (is_some (get_field name creates)) h2;
            }
      ]
    where
      body_of : Page → Result String (Unit {0})
      body_of page = do
        (kind, evidence) ← validate_pattern_page loads page
        m ← mapping (get_field name per_pattern) "attestation.per_pattern"
        validate_pattern_attestation name m kind evidence traces (is_some (get_field name creates))

      at_page :
          (page : Page)
          → lookup name pages ≡ some page
          → check_page loads creates per_pattern traces pages name ≡ ok tt
          → body_of page ≡ ok tt
      at_page page n q = ground arith

  check_pages-IsPattern :
      (creates per_pattern : Fields) (traces : List TraceView) (pages : Pages) (names : List String)
      (k : String)
      → check_pages loads creates per_pattern traces pages names ≡ ok tt
      → str_mem k names ≡ true
      → IsPattern loads traces pages k
  unfolding check_pages
  check_pages-IsPattern creates per_pattern traces pages [] k h m = cc
  check_pages-IsPattern creates per_pattern traces pages (name ∷ names) k h m =
      let (_, now, later) =
        >>=-eq-ok (check_page loads creates per_pattern traces pages name) _ h in
      elim (Bool-cases (str_eq name k)) [
        | inl t ↦
            subst (IsPattern loads traces pages) ((eq_iff name k).0 t)
              (check_page-IsPattern creates per_pattern traces pages name now)
        | inr f ↦
            check_pages-IsPattern creates per_pattern traces pages names k later (ground arith)
      ]

  check_attestation-IsPattern :
      (attestation creates : Fields) (changed : List String) (traces : List TraceView)
      (input_hash : String) (pages : Pages) (k : String)
      → check_attestation loads attestation creates changed traces input_hash pages ≡ ok tt
      → str_mem k changed ≡ true
      → IsPattern loads traces pages k
  unfolding check_attestation
  check_attestation-IsPattern attestation creates changed traces input_hash pages k h m =
      let (_, _, h1) =
        >>=-eq-ok
          (raise_if
            (not (has_exactly attestation ("input_hash" ∷ "class_coverage" ∷ "per_pattern" ∷ [])))
            "attestation fields must be input_hash, class_coverage, and per_pattern")
          _ h in
      let (_, _, h2) =
        >>=-eq-ok
          (raise_if
            (not (elim (get_field "input_hash" attestation) as (λ z. Bool) [
              | none ↦ false
              | some v ↦ is_text input_hash v
            ]))
            "maintainer input hash mismatch")
          _ h1 in
      let (per_pattern, _, h3) =
        >>=-eq-ok (mapping (get_field "per_pattern" attestation) "attestation.per_pattern") _ h2 in
      let (_, _, h4) =
        >>=-eq-ok
          (raise_if (not (has_exactly per_pattern changed))
            "per_pattern attestation must cover every and only changed pattern")
          _ h3 in
      let (_, _, h5) =
        >>=-eq-ok (raise_if (not (is_unique (ids_of traces))) "sample contains duplicate trace IDs")
          _ h4 in
      let (_, _, h6) =
        >>=-eq-ok
          (validate_class_coverage (get_field "class_coverage" attestation) traces (keys pages)) _
          h5 in
      check_pages-IsPattern creates per_pattern traces pages (str_sort changed) k h6
        (str_mem-sort k changed ∙ m)

  -- What an accepted change is: the patterns that it creates were not there and those that it updates
  -- were, every other page is as it was, and each changed page is a pattern that quotes the sample.
  pub record IsAccepted (payload : Fields) (traces : List TraceView) (existing pages : Pages)
      : Type 0 where
    pub creates : Fields
    pub updates : Fields
    pub gives_creates : mapping (get_field "create_patterns" payload) "create_patterns" ≡ ok creates
    pub gives_updates : mapping (get_field "update_patterns" payload) "update_patterns" ≡ ok updates
    pub created : (k : String) → str_mem k (field_keys creates) ≡ true → lookup k existing ≡ none
    pub updated :
        (k : String) → str_mem k (field_keys updates) ≡ true → is_some (lookup k existing) ≡ true
    pub untouched :
        (k : String)
        → str_mem k (field_keys creates ++ field_keys updates) ≡ false
        → lookup k pages ≡ lookup k existing
    pub patterns :
        (k : String)
        → str_mem k (field_keys creates ++ field_keys updates) ≡ true
        → IsPattern loads traces pages k

  -- The parts of a change, put together.
  parts-IsAccepted :
      (payload creates updates attestation : Fields) (traces : List TraceView) (input_hash : String)
      (existing mid pages : Pages)
      → mapping (get_field "create_patterns" payload) "create_patterns" ≡ ok creates
      → mapping (get_field "update_patterns" payload) "update_patterns" ≡ ok updates
      → any (λ n. str_mem n (field_keys updates)) (field_keys creates) ≡ false
      → create_pages creates (str_sort (field_keys creates)) existing ≡ ok mid
      → update_pages updates (str_sort (field_keys updates)) mid ≡ ok pages
      → check_attestation loads attestation creates
          (field_keys creates ++ field_keys updates)
          traces
          input_hash
          pages
        ≡ ok tt
      → IsAccepted payload traces existing pages
  parts-IsAccepted payload creates updates attestation traces input_hash existing mid pages c u
        apart x y z =
      let cs = field_keys creates in
      let us = field_keys updates in
      let made = λ (k : String). created_pages creates (str_sort cs) existing mid k x in
      let patched = λ (k : String). updated_pages updates (str_sort us) mid pages k y in
      record {
        creates = creates;
        updates = updates;
        gives_creates = c;
        gives_updates = u;
        created = λ k m. (made k).0 (str_mem-sort k cs ∙ m);
        updated = λ k m.
            ap (λ p. is_some p) (sym ((made k).1 (str_mem-sort k cs ∙ no_common cs us k apart m)))
            ∙ (patched k).0 (str_mem-sort k us ∙ m);
        untouched = λ k m.
            let neither = sym (str_mem-append k cs us) ∙ m in
            (patched k).1 (str_mem-sort k us ∙ ground arith)
            ∙ (made k).1 (str_mem-sort k cs ∙ ground arith);
        patterns = λ k m.
            check_attestation-IsPattern attestation creates (cs ++ us) traces input_hash pages k z
              m;
      }

  -- A maintainer's change that is accepted creates only patterns that were not there, updates only
  -- patterns that were, and leaves every other page as it was; and each page that it changes follows
  -- the grammar of patterns and quotes in its evidence only what stands in the sampled traces.
  pub validate_maintainer_change-IsAccepted :
      (payload : Fields) (traces : List TraceView) (input_hash : String) (existing : Pages)
      (v : ValidatedWikiChange)
      → validate_maintainer_change loads payload traces input_hash existing ≡ ok v
      → IsAccepted payload traces existing v.pages
  unfolding validate_maintainer_change
  validate_maintainer_change-IsAccepted payload traces input_hash existing v h =
      let (_, _, h1) =
        >>=-eq-ok
          (raise_if (not (has_exactly payload change_fields)) "maintainer output fields differ") _
          h in
      let (creates, c, h2) =
        >>=-eq-ok (mapping (get_field "create_patterns" payload) "create_patterns") _ h1 in
      let (updates, u, h3) =
        >>=-eq-ok (mapping (get_field "update_patterns" payload) "update_patterns") _ h2 in
      let (_, apart, h4) =
        >>=-eq-ok
          (raise_if (any (λ n. str_mem n (field_keys updates)) (field_keys creates))
            "a pattern cannot be created and updated in one change")
          _ h3 in
      let (mid, x, h5) =
        >>=-eq-ok (create_pages creates (str_sort (field_keys creates)) existing) _ h4 in
      let (pages, y, h6) =
        >>=-eq-ok (update_pages updates (str_sort (field_keys updates)) mid) _ h5 in
      let (_, _, h7) =
        >>=-eq-ok
          (raise_if (not (is_nonblank (get_field "update_index" payload)))
            "update_index must be nonblank text")
          _ h6 in
      let (_, _, h8) =
        >>=-eq-ok
          (raise_if (not (is_nonblank (get_field "append_log" payload)))
            "append_log must be nonblank text")
          _ h7 in
      let (attestation, _, h9) =
        >>=-eq-ok (mapping (get_field "attestation" payload) "attestation") _ h8 in
      let (_, z, end) =
        >>=-eq-ok
          (check_attestation loads attestation creates (field_keys creates ++ field_keys updates)
            traces input_hash pages)
          _ h9 in
      subst (IsAccepted payload traces existing) (ap (λ w. w.pages) (ok-injective end)) (
        parts-IsAccepted payload creates updates attestation traces input_hash existing mid pages c
          u (not_any (any (λ n. str_mem n (field_keys updates)) (field_keys creates)) _ apart) x y
          z)
    where
      not_any : (b : Bool) (message : String) → raise_if b message ≡ ok tt → b ≡ false
      not_any b message q = ground arith
