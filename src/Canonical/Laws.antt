-- ===== src/Canonical/Laws.antt =====
-- What the name checks of src/asme/canonical.py accept.
use agentic_skills_lifecycle.Prelude.{
  ℕ, ◌≡◌, refl, ◌↔◌, ◌⊎◌, ◌∙◌, inl, inr, String, Bool, true, false, not, ◌&&◌, ◌||◌, List, [], ◌∷◌,
  ◌++◌, codes, codes_eq-eq, codes_eq_refl, any, all, arith, ◌==◌, sym, ap, subst, is_ok,
}
use agentic_skills_lifecycle.Canonical.{
  split_slash, prepend, kept, pure_parts, join_slash, is_safe_path, is_posix, is_empty_or_dot,
  is_dot_dot, is_absolute, written, safe_member_name,
}

-- A segment without a slash.
abbrev is_segment : List ℕ → Bool
is_segment [] = true
is_segment (c ∷ cs) = not (c == b'/') && is_segment cs

abbrev is_cons : List (List ℕ) → Bool
is_cons [] = false
is_cons _ = true

split_slash-is_cons : (cs : List ℕ) → is_cons (split_slash cs) ≡ true
unfolding split_slash prepend
split_slash-is_cons [] = refl
split_slash-is_cons (c ∷ cs) = ground (arith, split_slash-is_cons cs)

all-prepend :
    (c : ℕ) (xs : List (List ℕ))
    → (c == b'/') ≡ false
    → all is_segment xs ≡ true
    → all is_segment (prepend c xs) ≡ true
unfolding prepend
all-prepend c [] n a = ground arith
all-prepend c (x ∷ xs) n a = ground arith

-- The segments have no slash.
split_slash-segments : (cs : List ℕ) → all is_segment (split_slash cs) ≡ true
unfolding split_slash
split_slash-segments [] = refl
split_slash-segments (c ∷ cs) =
    ground (arith, split_slash-segments cs, all-prepend c (split_slash cs))

join_slash-prepend : (c : ℕ) (xs : List (List ℕ)) → join_slash (prepend c xs) ≡ c ∷ join_slash xs
unfolding join_slash prepend
join_slash-prepend c [] = refl
join_slash-prepend c (x ∷ []) = refl
join_slash-prepend c (x ∷ y ∷ xs) = refl

join_slash-nil :
    (xs : List (List ℕ)) → is_cons xs ≡ true → join_slash ([] ∷ xs) ≡ b'/' ∷ join_slash xs
unfolding join_slash
join_slash-nil [] h = cc
join_slash-nil (x ∷ xs) h = refl

-- Joining the segments gives the text back.
join_slash-split_slash : (cs : List ℕ) → join_slash (split_slash cs) ≡ cs
unfolding split_slash
join_slash-split_slash [] = unfold join_slash in refl
join_slash-split_slash (c ∷ cs) = ground (
  arith,
  join_slash-split_slash cs,
  join_slash-prepend c (split_slash cs),
  join_slash-nil (split_slash cs) (split_slash-is_cons cs),
)

split_slash_segment : (x : List ℕ) → is_segment x ≡ true → split_slash x ≡ x ∷ []
unfolding split_slash prepend
split_slash_segment [] a = refl
split_slash_segment (c ∷ x) a = ground (arith, split_slash_segment x)

split_slash_append :
    (x cs : List ℕ) → is_segment x ≡ true → split_slash (x ++ b'/' ∷ cs) ≡ x ∷ split_slash cs
unfolding split_slash prepend
split_slash_append [] cs a = refl
split_slash_append (c ∷ x) cs a = ground (arith, split_slash_append x cs)

-- Splitting a join gives the segments back.
split_slash-join_slash :
    (xs : List (List ℕ))
    → is_cons xs ≡ true
    → all is_segment xs ≡ true
    → split_slash (join_slash xs) ≡ xs
unfolding join_slash
split_slash-join_slash [] h a = cc
split_slash-join_slash (x ∷ []) h a = split_slash_segment x (ground arith)
split_slash-join_slash (x ∷ y ∷ xs) h a =
    split_slash_append x (join_slash (y ∷ xs)) (ground arith)
    ∙ ap (λ zs. x ∷ zs) (split_slash-join_slash (y ∷ xs) refl (ground arith))

kept-segments : (xs : List (List ℕ)) → all is_segment xs ≡ true → all is_segment (kept xs) ≡ true
unfolding kept
kept-segments [] a = refl
kept-segments (x ∷ xs) a = ground (arith, kept-segments xs)

-- Every segment that is kept is neither empty nor a dot.
kept_clean : (xs : List (List ℕ)) → all (λ p. not (is_empty_or_dot p)) (kept xs) ≡ true
unfolding kept
kept_clean [] = refl
kept_clean (x ∷ xs) = ground (arith, kept_clean xs)

kept-all : (xs : List (List ℕ)) → all (λ p. not (is_empty_or_dot p)) xs ≡ true → kept xs ≡ xs
unfolding kept
kept-all [] a = refl
kept-all (x ∷ xs) a = ground (arith, kept-all xs)

-- A segment that names an entry of its directory: not empty, and neither `.` nor `..`.
abbrev pub is_proper : List ℕ → Bool
is_proper p = not (is_empty_or_dot p) && not (is_dot_dot p)

all_proper :
    (xs : List (List ℕ))
    → all (λ p. not (is_empty_or_dot p)) xs ≡ true
    → any (λ p. is_empty_or_dot p || is_dot_dot p) xs ≡ false
    → all is_proper xs ≡ true
all_proper [] a n = refl
all_proper (x ∷ xs) a n = ground (arith, all_proper xs)

proper_all :
    (xs : List (List ℕ))
    → all is_proper xs ≡ true
    → (all (λ p. not (is_empty_or_dot p)) xs ≡ true)
      × (any (λ p. is_empty_or_dot p || is_dot_dot p) xs ≡ false)
proper_all [] a = (refl, refl)
proper_all (x ∷ xs) a = ground (arith, proper_all xs)

-- Either the text is a single dot, or every segment is proper.
abbrev pub NamesMember : List ℕ → Type 0
NamesMember cs = (cs ≡ b'.' ∷ []) ⊎ (all is_proper (split_slash cs) ≡ true)

safe_of_kept :
    (cs : List ℕ) (ks : List (List ℕ))
    → kept (split_slash cs) ≡ ks
    → written ks ≡ cs
    → any (λ p. is_empty_or_dot p || is_dot_dot p) ks ≡ false
    → NamesMember cs
safe_of_kept cs [] k w n = inl (sym w)
safe_of_kept cs (y ∷ ys) k w n =
    let segments : all is_segment (y ∷ ys) ≡ true =
      subst (λ xs. all is_segment xs ≡ true) k
        (kept-segments (split_slash cs) (split_slash-segments cs)) in
    let same : split_slash cs ≡ y ∷ ys =
      ap split_slash (sym w) ∙ split_slash-join_slash (y ∷ ys) refl segments in
    inr (
      rw same (
        all_proper (y ∷ ys)
          (subst (λ xs. all (λ p. not (is_empty_or_dot p)) xs ≡ true) k
            (kept_clean (split_slash cs)))
          n))

safe_path-NamesMember : (cs : List ℕ) → is_safe_path cs ≡ true → NamesMember cs
unfolding is_safe_path pure_parts
safe_path-NamesMember cs h =
    safe_of_kept cs (kept (split_slash cs)) refl
      (codes_eq-eq (written (kept (split_slash cs))) cs (ground arith)) (ground arith)

absolute_improper : (cs : List ℕ) → is_absolute cs ≡ true → all is_proper (split_slash cs) ≡ false
unfolding split_slash
absolute_improper [] h = cc
absolute_improper (c ∷ cs) h = ground arith

written_cons : (xs : List (List ℕ)) → is_cons xs ≡ true → written xs ≡ join_slash xs
written_cons [] h = cc
written_cons (x ∷ xs) h = refl

NamesMember-safe_path : (cs : List ℕ) → NamesMember cs → is_safe_path cs ≡ true
unfolding is_safe_path pure_parts
NamesMember-safe_path cs (inl e) = rw e (unfold split_slash kept in refl)
NamesMember-safe_path cs (inr p) =
    let clean = proper_all (split_slash cs) p in
    rw (kept-all (split_slash cs) clean.0) (
      rw (written_cons (split_slash cs) (split_slash-is_cons cs), join_slash-split_slash cs)
        (ground (arith, codes_eq_refl cs, absolute_improper cs)))

-- A member name is accepted exactly when it is a text with no backslash that is a single dot or
-- has, between its slashes, only segments that are neither empty nor `.` nor `..`.
pub safe_member_name_iff :
    (value : String)
    → (is_ok (safe_member_name value) ≡ true)
      ↔ ((is_posix (codes value) ≡ true) × NamesMember (codes value))
unfolding safe_member_name
safe_member_name_iff value = (
  λ h. ground (arith, safe_path-NamesMember (codes value)),
  λ h. ground (arith, NamesMember-safe_path (codes value)),
)
