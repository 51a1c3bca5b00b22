-- ===== src/Canonical.antt =====
-- The checks of names in src/asme/canonical.py: `require_identifier`, and `safe_member_name` over
-- `PurePosixPath` as the Python documentation describes it. Texts are walked by code points.
pub mod Laws
use agentic_skills_lifecycle.Prelude.{
  ℕ, String, str_append, Bool, true, false, not, ◌&&◌, ◌||◌, List, [], ◌∷◌, ◌++◌, ok, err, Result,
  codes, codes_eq, length, all, any, leb, ◌==◌, if◌then◌else◌,
}

-- `[a-z0-9]`
unfoldable pub is_alphanumeric : ℕ → Bool
is_alphanumeric c = (leb b'a' c && leb c b'z') || (leb b'0' c && leb c b'9')

-- `[a-z0-9._-]`
unfoldable pub is_identifier_char : ℕ → Bool
unfolding is_alphanumeric
is_identifier_char c = is_alphanumeric c || c == b'.' || c == b'_' || c == b'-'

-- `IDENTIFIER_RE.fullmatch(value)`
unfoldable pub matches_identifier : List ℕ → Bool
unfolding is_alphanumeric is_identifier_char
matches_identifier [] = false
matches_identifier (c ∷ cs) = is_alphanumeric c && leb (length cs) 127 && all is_identifier_char cs

-- `require_identifier(value, field=field)`
unfoldable pub require_identifier : String → String → Result String String
unfolding matches_identifier
require_identifier value field =
    if matches_identifier (codes value)
    then ok value
    else err (str_append field " must match ^[a-z0-9][a-z0-9._-]{0,127}$")

-- The segments of a text between its slashes; a text without one is its own segment.
unfoldable pub prepend : ℕ → List (List ℕ) → List (List ℕ)
prepend c [] = (c ∷ []) ∷ []
prepend c (x ∷ xs) = (c ∷ x) ∷ xs

unfoldable pub split_slash : List ℕ → List (List ℕ)
unfolding prepend
split_slash [] = [] ∷ []
split_slash (c ∷ cs) = if c == b'/' then [] ∷ split_slash cs else prepend c (split_slash cs)

abbrev pub is_empty_or_dot : List ℕ → Bool
is_empty_or_dot [] = true
is_empty_or_dot (c ∷ []) = c == b'.'
is_empty_or_dot _ = false

abbrev pub is_dot_dot : List ℕ → Bool
is_dot_dot (a ∷ b ∷ []) = a == b'.' && b == b'.'
is_dot_dot _ = false

-- The segments that `PurePosixPath` keeps: neither empty nor a single dot.
unfoldable pub kept : List (List ℕ) → List (List ℕ)
kept [] = []
kept (x ∷ xs) = if is_empty_or_dot x then kept xs else x ∷ kept xs

unfoldable pub pure_parts : List ℕ → List (List ℕ)
unfolding split_slash kept
pure_parts cs = kept (split_slash cs)

-- The segments joined by slashes.
unfoldable pub join_slash : List (List ℕ) → List ℕ
join_slash [] = []
join_slash (x ∷ []) = x
join_slash (x ∷ y ∷ xs) = x ++ b'/' ∷ join_slash (y ∷ xs)

-- `str(PurePosixPath(value))` of a relative path: a path with no segment is written as a dot.
abbrev written : List (List ℕ) → List ℕ
written [] = b'.' ∷ []
written (x ∷ xs) = join_slash (x ∷ xs)

abbrev pub is_absolute : List ℕ → Bool
is_absolute [] = false
is_absolute (c ∷ cs) = c == b'/'

abbrev is_nonempty : List ℕ → Bool
is_nonempty [] = false
is_nonempty _ = true

-- The tests after the first of `safe_member_name`, in their order.
unfoldable pub is_safe_path : List ℕ → Bool
unfolding pure_parts join_slash
is_safe_path cs =
    not (is_absolute cs)
    && codes_eq (written (pure_parts cs)) cs
    && not (any (λ p. is_empty_or_dot p || is_dot_dot p) (pure_parts cs))

-- The first test: a text that is not empty and has no backslash.
abbrev pub is_posix : List ℕ → Bool
is_posix cs = is_nonempty cs && not (any (λ c. c == 0x5C) cs)

-- `safe_member_name(value)`; the second message goes on with Python's `repr` of the value.
unfoldable pub safe_member_name : String → Result String String
unfolding is_safe_path
safe_member_name value =
    if not (is_posix (codes value))
    then err "archive member must be a non-empty POSIX path"
    else if is_safe_path (codes value)
    then ok value
    else err "unsafe archive member"
