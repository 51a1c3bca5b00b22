-- ===== src/Impact/Laws.antt =====
-- The history that `append_impact` of src/asme/impact.py keeps.
use agentic_skills_lifecycle.Prelude.{
  ◌≡◌, ◌⊎◌, inl, inr, refl, sym, ap, subst, String, eq_iff, eq_refl, none, some, List, [], ◌∷◌,
  ◌++◌, ok, arith, Option-cases, Bool-cases, ◌∙◌,
}
use agentic_skills_lifecycle.Impact.{
  ImpactEntry, same_impact, same_impact_iff, find_entry, append_impact,
}

-- No two entries of a history have the same identity.
abbrev pub IsHistory : List ImpactEntry → Type 0
IsHistory [] = Unit {0}
IsHistory (e ∷ es) = (find_entry e.entry_id es ≡ none) × IsHistory es

find_entry-append :
    (id : String) (es : List ImpactEntry) (x : ImpactEntry)
    → find_entry id es ≡ none
    → find_entry id (es ++ x ∷ []) ≡ find_entry id (x ∷ [])
unfolding find_entry
find_entry-append id [] x h = refl
find_entry-append id (e ∷ es) x h = ground (arith, find_entry-append id es x)

find_entry-here : (x : ImpactEntry) → find_entry x.entry_id (x ∷ []) ≡ some x
unfolding find_entry
find_entry-here x = ground (arith, eq_refl x.entry_id)

IsHistory-append :
    (es : List ImpactEntry) (x : ImpactEntry)
    → IsHistory es
    → find_entry x.entry_id es ≡ none
    → IsHistory (es ++ x ∷ [])
unfolding find_entry
IsHistory-append [] x h n = (refl, tt)
IsHistory-append (e ∷ es) x (h, hs) n =
    let apart = find_entry-append e.entry_id es x h in
    (
      ground (arith, eq_iff e.entry_id x.entry_id, eq_iff x.entry_id e.entry_id),
      IsHistory-append es x hs (ground arith),
    )

-- What a history is after an append: it still has no two entries of one identity, it is the old one
-- or the old one with the entry at its end, and the entry is found in it by its identity.
pub record IsAppended (old : List ImpactEntry) (x : ImpactEntry) (new : List ImpactEntry)
    : Type 0 where
  pub distinct : IsHistory new
  pub kept : (new ≡ old) ⊎ (new ≡ old ++ x ∷ [])
  pub there : find_entry x.entry_id new ≡ some x
  pub again : append_impact new x ≡ ok new

append_impact-there :
    (new : List ImpactEntry) (x : ImpactEntry)
    → find_entry x.entry_id new ≡ some x
    → append_impact new x ≡ ok new
unfolding append_impact
append_impact-there new x h = ground (arith, (same_impact_iff x x).1 refl)

-- An append to a history with distinct identities that returns leaves the history as it was or with
-- the entry at its end, keeps the identities distinct, has the entry under its identity, and, made
-- again, changes nothing.
pub append_impact-IsAppended :
    (old : List ImpactEntry) (x : ImpactEntry) (new : List ImpactEntry)
    → IsHistory old
    → append_impact old x ≡ ok new
    → IsAppended old x new
unfolding append_impact
append_impact-IsAppended old x new h a = elim (Option-cases (find_entry x.entry_id old)) [
  | inl n ↦
      let e = the_end old x new a n in
      let found = find_entry-append x.entry_id old x n in
      let there =
        subst (λ z. find_entry x.entry_id z ≡ some x) (sym e) (found ∙ find_entry-here x) in
      record {
        distinct = subst IsHistory (sym e) (IsHistory-append old x h n);
        kept = inr e;
        there = there;
        again = append_impact-there new x there;
      }
  | inr (existing, n) ↦
      let (e, s) = the_same old x new existing a n in
      let there = subst (λ z. find_entry x.entry_id z ≡ some x) (sym e) (n ∙ ap (λ z. some z) s) in
      record {
        distinct = subst IsHistory (sym e) h;
        kept = inl e;
        there = there;
        again = append_impact-there new x there;
      }
]
  where
    the_end :
        (old : List ImpactEntry) (x : ImpactEntry) (new : List ImpactEntry)
        → append_impact old x ≡ ok new
        → find_entry x.entry_id old ≡ none
        → new ≡ old ++ x ∷ []
    the_end old x new a n = ground arith

    the_same :
        (old : List ImpactEntry) (x : ImpactEntry) (new : List ImpactEntry) (existing : ImpactEntry)
        → append_impact old x ≡ ok new
        → find_entry x.entry_id old ≡ some existing
        → (new ≡ old) × (existing ≡ x)
    the_same old x new existing a n = elim (Bool-cases (same_impact existing x)) [
      | inl t ↦ (ground arith, (same_impact_iff existing x).0 t)
      | inr f ↦ absurd (ground arith)
    ]
