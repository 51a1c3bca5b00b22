-- ===== src/Wiki/Laws/Pages.antt =====
-- The loops over the pages of a maintainer's change: `validate_maintainer_change` of src/asme/wiki.py.
use agentic_skills_lifecycle.Prelude.{
  ◌≡◌, ◌∙◌, inl, inr, sym, ap, subst, String, str_append, str_eq, eq_iff, Bool, true, false, Option,
  none, some, List, [], ◌∷◌, Result, ok, err, ◌>>=◌, ◌>>◌, raise_if, codes, str_mem, lookup,
  has_key, put_key, lookup-put_key, is_some, arith, >>=-eq-ok, ok-injective, Option-cases,
  Bool-cases,
}
use agentic_skills_lifecycle.Canonical.{require_identifier}
use agentic_skills_lifecycle.Json.{Items, Fields, get_field}
use agentic_skills_lifecycle.Wiki.Patch.{Page, text_of, apply_patch_operations}
use agentic_skills_lifecycle.Wiki.Change.{Pages, create_page, operations_of, update_page}

pub create_page-fresh :
    (creates : Fields) (name : String) (pages next : Pages)
    → create_page creates name pages ≡ ok next
    → (lookup name pages ≡ none)
      × ((k : String) → str_eq name k ≡ false → lookup k next ≡ lookup k pages)
unfolding create_page has_key
create_page-fresh creates name pages next h =
    let (_, _, h1) = >>=-eq-ok (require_identifier name "pattern name") _ h in
    elim (Option-cases (text_of (get_field name creates))) [
      | inl n ↦ absurd (ground arith)
      | inr (s, n) ↦
          let e = the_next s n h1 in
          (
            fresh h1,
            λ k d. ap (lookup k) (sym e) ∙ lookup-put_key name k (codes s) pages ∙ ground arith,
          )
    ]
  where
    rest_of : Result String Pages
    rest_of =
        raise_if (is_some (lookup name pages)) (str_append "create pattern already exists: " name)
        >> elim (text_of (get_field name creates)) [
          | none ↦ err (str_append "created pattern must be text: " name)
          | some s ↦ ok (put_key name (codes s) pages)
        ]

    fresh : rest_of ≡ ok next → lookup name pages ≡ none
    fresh q = ground arith

    the_next :
        (s : String)
        → text_of (get_field name creates) ≡ some s
        → rest_of ≡ ok next
        → put_key name (codes s) pages ≡ next
    the_next s n q = ground arith

pub update_page-there :
    (updates : Fields) (name : String) (pages next : Pages)
    → update_page updates name pages ≡ ok next
    → (is_some (lookup name pages) ≡ true)
      × ((k : String) → str_eq name k ≡ false → lookup k next ≡ lookup k pages)
unfolding update_page
update_page-there updates name pages next h =
    let (_, _, h1) = >>=-eq-ok (require_identifier name "pattern name") _ h in
    elim (Option-cases (lookup name pages)) [
      | inl n ↦ absurd (ground arith)
      | inr (page, n) ↦ elim (Option-cases (operations_of (get_field name updates))) [
        | inl m ↦ absurd (ground arith)
        | inr (operations, m) ↦
            let (patched, _, end) =
              >>=-eq-ok (apply_patch_operations operations page) (λ p. ok (put_key name p pages))
                (chosen page operations n m h1) in
            (
              ground arith,
              λ k d.
                  ap (lookup k) (sym (ok-injective end))
                  ∙ lookup-put_key name k patched pages
                  ∙ ground arith,
            )
      ]
    ]
  where
    rest_of : Result String Pages
    rest_of = elim (lookup name pages) [
      | none ↦ err (str_append "updated pattern does not exist: " name)
      | some page ↦ elim (operations_of (get_field name updates)) [
        | none ↦ err (str_append "updated pattern requires a nonempty operation list: " name)
        | some operations ↦ do
          patched ← apply_patch_operations operations page
          ok (put_key name patched pages)
      ]
    ]

    chosen :
        (page : Page) (operations : Items)
        → lookup name pages ≡ some page
        → operations_of (get_field name updates) ≡ some operations
        → rest_of ≡ ok next
        → (apply_patch_operations operations page >>= λ p. ok (put_key name p pages)) ≡ ok next
    chosen page operations n m q = ground arith

-- A loop over names that changes the pages of these names and of no others, and asks a question of
-- each page as it finds it.
module _ (step : String → Pages → Result String Pages) (question : Option Page → Bool) where
  abbrev pub loop : List String → Pages → Result String Pages
  loop [] pages = ok pages
  loop (name ∷ names) pages = step name pages >>= loop names

  abbrev pub IsStep : Type 0
  IsStep =
      (name : String) (pages next : Pages)
      → step name pages ≡ ok next
      → (question (lookup name pages) ≡ true)
        × ((k : String) → str_eq name k ≡ false → lookup k next ≡ lookup k pages)

  pub loop-untouched :
      IsStep
      → (names : List String) (pages next : Pages) (k : String) → loop names pages ≡ ok next
      → str_mem k names ≡ false
      → lookup k next ≡ lookup k pages
  loop-untouched s [] pages next k h n = ap (lookup k) (sym (ok-injective h))
  loop-untouched s (name ∷ names) pages next k h n =
      let (mid, e, rest) = >>=-eq-ok (step name pages) (loop names) h in
      loop-untouched s names mid next k rest (ground arith)
      ∙ (s name pages mid e).1 k (ground arith)

  pub loop-asked :
      IsStep
      → (names : List String) (pages next : Pages) (k : String) → loop names pages ≡ ok next
      → str_mem k names ≡ true
      → question (lookup k pages) ≡ true
  loop-asked s [] pages next k h n = cc
  loop-asked s (name ∷ names) pages next k h n =
      let (mid, e, rest) = >>=-eq-ok (step name pages) (loop names) h in
      elim (Bool-cases (str_eq name k)) [
        | inl t ↦
            subst (λ z. question (lookup z pages) ≡ true) ((eq_iff name k).0 t)
              (s name pages mid e).0
        | inr f ↦
            ap question (sym ((s name pages mid e).1 k f))
            ∙ loop-asked s names mid next k rest (ground arith)
      ]
