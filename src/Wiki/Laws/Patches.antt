-- ===== src/Wiki/Laws/Patches.antt =====
-- What the patch operations of src/asme/wiki.py do to a page.
use agentic_skills_lifecycle.Prelude.{
  ℕ, ◌≡◌, ◌≢◌, ◌∙◌, inl, inr, refl, sym, ap, subst, String, eq_iff, Option, none, some, List, [],
  ◌∷◌, ◌++◌, ok, codes, count_of, replace_first, IsReplaced, count-IsReplaced, Option-cases, arith,
  >>=-eq-ok, ok-injective,
}
use agentic_skills_lifecycle.Json.{
  Json, null, boolean, natural, negative, number, text, array, object, Items, no_items, item,
  Fields, get_field,
}
use agentic_skills_lifecycle.Wiki.Patch.{
  Page, mapping, text_of, nonempty_text, PatchAction, append, replace, insert_after, patch_action,
  patch_at, patch_with, patch_step, apply_patch_operations,
}

-- The name of an action.
abbrev word : PatchAction → String
word append = "append"
word replace = "replace"
word insert_after = "insert_after"

-- What an operation, by its own fields, makes of a page: `append` puts its content at the end,
-- `replace` puts its content in the place of its target, and `insert_after` puts its content behind
-- its target, where the target occurs once in the page.
pub data IsEdit (m : Fields) (c : String) (old new : Page) : Type 0 where
  appended : get_field "op" m ≡ some (text "append") → new ≡ old ++ codes c → IsEdit m c old new
  replaced :
      (t : String)
      → get_field "op" m ≡ some (text "replace")
      → get_field "target" m ≡ some (text t)
      → count_of (codes t) old ≡ 1
      → IsReplaced (codes t) (codes c) old new
      → IsEdit m c old new
  inserted :
      (t : String)
      → get_field "op" m ≡ some (text "insert_after")
      → get_field "target" m ≡ some (text t)
      → count_of (codes t) old ≡ 1
      → IsReplaced (codes t) (codes t ++ codes c) old new
      → IsEdit m c old new

-- A page goes through the edit of each operation, an object whose content is a text that is not
-- empty.
pub data Edits : Items → Page → Page → Type 0 where
  done : (page : Page) → Edits no_items page page
  edit :
      (m : Fields) (c : String) {rest : Items} {old next new : Page}
      → get_field "content" m ≡ some (text c)
      → codes c ≢ []
      → IsEdit m c old next
      → Edits rest next new
      → Edits (item (object m) rest) old new

text_of-text : (v : Option Json) (s : String) → text_of v ≡ some s → v ≡ some (text s)
text_of-text (some (text z)) s h = ground arith
text_of-text none s h = absurd (ground arith)
text_of-text (some null) s h = absurd (ground arith)
text_of-text (some (boolean b)) s h = absurd (ground arith)
text_of-text (some (natural n)) s h = absurd (ground arith)
text_of-text (some (negative n)) s h = absurd (ground arith)
text_of-text (some (number f)) s h = absurd (ground arith)
text_of-text (some (array xs)) s h = absurd (ground arith)
text_of-text (some (object m)) s h = absurd (ground arith)

mapping-object :
    (raw : Json) (name : String) (m : Fields) → mapping (some raw) name ≡ ok m → raw ≡ object m
unfolding mapping
mapping-object (object z) name m h = ground arith
mapping-object null name m h = absurd (ground arith)
mapping-object (boolean b) name m h = absurd (ground arith)
mapping-object (natural n) name m h = absurd (ground arith)
mapping-object (negative n) name m h = absurd (ground arith)
mapping-object (number f) name m h = absurd (ground arith)
mapping-object (array xs) name m h = absurd (ground arith)
mapping-object (text s) name m h = absurd (ground arith)

patch_action-word :
    (v : Option Json) (a : PatchAction) → patch_action v ≡ ok a → v ≡ some (text (word a))
unfolding patch_action
patch_action-word v a h = elim (Option-cases (text_of v)) [
  | inl n ↦ absurd (ground arith)
  | inr (s, e) ↦
      text_of-text v s e
      ∙ ap (λ z. some (text z))
          (ground (arith, eq_iff s "append", eq_iff s "replace", eq_iff s "insert_after"))
]

-- A text that is not empty.
nonempty_text-text :
    (v : Option Json) (message : String) (t : Page)
    → nonempty_text v message ≡ ok t
    → (s : String) × (v ≡ some (text s)) × (codes s ≡ t) × (t ≢ [])
unfolding nonempty_text
nonempty_text-text v message t h = elim (Option-cases (text_of v)) [
  | inl n ↦ absurd (ground arith)
  | inr (s, e) ↦ let (a, b) = go s e (codes s) refl in (s, text_of-text v s e, a, b)
]
  where
    go : (s : String) → text_of v ≡ some s → (cs : List ℕ) → codes s ≡ cs → (codes s ≡ t) × (t ≢ [])
    go s e [] q = absurd (ground arith)
    go s e (c ∷ cs) q = (ground arith, λ z. ground arith)

patch_at-IsReplaced :
    (t r old new : Page)
    → t ≢ []
    → patch_at t r old ≡ ok new
    → (count_of t old ≡ 1) × IsReplaced t r old new
unfolding patch_at
patch_at-IsReplaced t r old new n h =
    let place = count-IsReplaced t r old n (λ z. ground arith) in
    (ground arith, subst (IsReplaced t r old) (new_of h) place)
  where
    new_of : patch_at t r old ≡ ok new → replace_first t r old ≡ new
    new_of q = ground arith

patch_with-IsEdit :
    (m : Fields) (c : String) (a : PatchAction) (old new : Page)
    → get_field "op" m ≡ some (text (word a))
    → patch_with a (get_field "target" m) (codes c) old ≡ ok new
    → IsEdit m c old new
unfolding patch_with
patch_with-IsEdit m c append old new o h = appended o (ground arith)
patch_with-IsEdit m c replace old new o h =
    let (t, e, rest) =
      >>=-eq-ok (nonempty_text (get_field "target" m) "patch target must be nonempty")
        (λ t. patch_at t (codes c) old) h in
    let (s, f, q, n) =
      nonempty_text-text (get_field "target" m) "patch target must be nonempty" t e in
    let (once, place) = patch_at-IsReplaced t (codes c) old new n rest in
    replaced s o f (ap (λ z. count_of z old) q ∙ once)
      (subst (λ z. IsReplaced z (codes c) old new) (sym q) place)
patch_with-IsEdit m c insert_after old new o h =
    let (t, e, rest) =
      >>=-eq-ok (nonempty_text (get_field "target" m) "patch target must be nonempty")
        (λ t. patch_at t (t ++ codes c) old) h in
    let (s, f, q, n) =
      nonempty_text-text (get_field "target" m) "patch target must be nonempty" t e in
    let (once, place) = patch_at-IsReplaced t (t ++ codes c) old new n rest in
    inserted s o f (ap (λ z. count_of z old) q ∙ once)
      (subst (λ z. IsReplaced z (z ++ codes c) old new) (sym q) place)

-- The operations of an update that is accepted change the page one after another, each as its own
-- fields say: `append` puts its content at the end, `replace` puts its content in the place of its
-- target and `insert_after` puts its content behind its target, where the target occurs exactly once
-- in the page as it then is and the rest of the page stays. No content is empty.
pub apply_patch_operations-Edits :
    (operations : Items) (old new : Page)
    → apply_patch_operations operations old ≡ ok new
    → Edits operations old new
unfolding apply_patch_operations patch_step
apply_patch_operations-Edits no_items old new h =
    subst (Edits no_items old) (ok-injective h) (done old)
apply_patch_operations-Edits (item raw rest) old new h =
    let (next, e, more) = >>=-eq-ok (patch_step raw old) (apply_patch_operations rest) h in
    let (m, d, h1) = >>=-eq-ok (mapping (some raw) "update operation") _ e in
    let (a, w, h2) = >>=-eq-ok (patch_action (get_field "op" m)) _ h1 in
    let (c, x, h3) =
      >>=-eq-ok (nonempty_text (get_field "content" m) "patch content must be nonempty") _ h2 in
    let (s, f, q, n) =
      nonempty_text-text (get_field "content" m) "patch content must be nonempty" c x in
    let done_so =
      patch_with-IsEdit m s a old next (patch_action-word (get_field "op" m) a w)
        (subst (λ z. patch_with a (get_field "target" m) z old ≡ ok next) (sym q) h3) in
    subst (λ r. Edits (item r rest) old new) (sym (mapping-object raw "update operation" m d))
      (edit m s f (λ z. n (sym q ∙ z)) done_so (apply_patch_operations-Edits rest next new more))
