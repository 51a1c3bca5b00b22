-- ===== src/Prelude/Substrings.antt =====
-- Python's `str` operations on parts of a text, by code points: `split`, `startswith`, `in`, `count`
-- and `replace` with a count of one, `splitlines`.
use Prim.Native.Nat.{ℕ, zero, suc, ◌+◌}
use mathlib.Core.Path.{◌≡◌, refl, ap}
use mathlib.Core.Logic.{◌≢◌, inl, inr}
use mathlib.Core.Bool.{Bool, true, false, ◌&&◌, ◌||◌}
use mathlib.Core.Option.{Option, none, some}
use mathlib.Core.List.{List, [], ◌∷◌, ◌++◌}
use native.Mathlib.Omega.{arith}
use agentic_skills_lifecycle.Prelude.Tests.{
  leb, ◌==◌, if◌then◌else◌, Bool-cases, Option-cases, ==_iff,
}

abbrev grow : ℕ → List (List ℕ) → List (List ℕ)
grow c [] = (c ∷ []) ∷ []
grow c (x ∷ xs) = (c ∷ x) ∷ xs

-- `text.split(separator)` for a separator of one character.
unfoldable pub split_on : ℕ → List ℕ → List (List ℕ)
split_on s [] = [] ∷ []
split_on s (c ∷ cs) = let rest = split_on s cs in if c == s then [] ∷ rest else grow c rest

-- What is left of a text after a prefix.
unfoldable pub strip_prefix : List ℕ → List ℕ → Option (List ℕ)
strip_prefix [] cs = some cs
strip_prefix (p ∷ ps) [] = none
strip_prefix (p ∷ ps) (c ∷ cs) = if p == c then strip_prefix ps cs else none

abbrev pub starts_with : List ℕ → List ℕ → Bool
starts_with ps cs = elim (strip_prefix ps cs) [ none ↦ false | some rest ↦ true ]

abbrev tail_length : List ℕ → ℕ
tail_length [] = 0
tail_length (c ∷ cs) = elim cs [ [] ↦ 0 | d ∷ ds ↦ suc (tail_length cs) ]

-- `text.count(target)` of a target that is not empty. The number is how many characters of an
-- occurrence are still to be skipped.
unfoldable pub count_from : List ℕ → ℕ → List ℕ → ℕ
unfolding strip_prefix
count_from t skip [] = 0
count_from t (suc skip) (c ∷ cs) = count_from t skip cs
count_from t zero (c ∷ cs) = elim (starts_with t (c ∷ cs)) [
  | true ↦ 1 + count_from t (tail_length t) cs
  | false ↦ count_from t 0 cs
]

abbrev pub count_of : List ℕ → List ℕ → ℕ
count_of t cs = count_from t 0 cs

-- `text.replace(target, replacement, 1)`
unfoldable pub replace_first : List ℕ → List ℕ → List ℕ → List ℕ
unfolding strip_prefix
replace_first t r [] = elim t [ [] ↦ r | p ∷ ps ↦ [] ]
replace_first t r (c ∷ cs) = elim (strip_prefix t (c ∷ cs)) [
  | some rest ↦ r ++ rest
  | none ↦ c ∷ replace_first t r cs
]

-- `target in text`
unfoldable pub is_within : List ℕ → List ℕ → Bool
unfolding strip_prefix
is_within t [] = starts_with t []
is_within t (c ∷ cs) = starts_with t (c ∷ cs) || is_within t cs

-- Line boundaries of `str.splitlines`.
unfoldable pub is_line_break : ℕ → Bool
is_line_break c =
    (leb 10 c && leb c 13) || (leb 28 c && leb c 30) || c == 0x85 || c == 0x2028 || c == 0x2029

-- What a character is to `str.splitlines`. The flag says that a carriage return came just before it.
pub data LineStep : Type 0 where
  line_feed line_break character : LineStep

unfoldable pub line_step : Bool → ℕ → LineStep
unfolding is_line_break
line_step returned c =
    if returned && c == 10 then line_feed else if is_line_break c then line_break else character

abbrev last_line : List ℕ → List (List ℕ)
last_line [] = []
last_line (c ∷ cs) = (c ∷ cs) ∷ []

-- The loop of `text.splitlines()`, with the line that is being read.
unfoldable pub lines_from : Bool → List ℕ → List ℕ → List (List ℕ)
unfolding line_step
lines_from returned line [] = last_line line
lines_from returned line (c ∷ cs) = elim (line_step returned c) [
  | line_feed ↦ lines_from false line cs
  | line_break ↦ line ∷ lines_from (c == 13) [] cs
  | character ↦ lines_from false (line ++ c ∷ []) cs
]

abbrev pub split_lines : List ℕ → List (List ℕ)
split_lines cs = lines_from false [] cs

strip_prefix-append : (t cs rest : List ℕ) → strip_prefix t cs ≡ some rest → cs ≡ t ++ rest
unfolding strip_prefix
strip_prefix-append [] cs rest h = ground arith
strip_prefix-append (p ∷ ps) [] rest h = cc
strip_prefix-append (p ∷ ps) (c ∷ cs) rest h = elim (Bool-cases (p == c)) [
  | inl e ↦
      let tail = strip_prefix-append ps cs rest (ground arith) in let same = (==_iff p c).0 e in cc
  | inr n ↦ absurd (ground arith)
]

-- The first occurrence of a target in a text, and what its replacement leaves.
pub record IsReplaced (t r old new : List ℕ) : Type 0 where
  pub before : List ℕ
  pub after : List ℕ
  pub was : old ≡ before ++ t ++ after
  pub is : new ≡ before ++ r ++ after

pub count-IsReplaced :
    (t r cs : List ℕ) → t ≢ [] → (count_of t cs ≡ 0 → ⊥) → IsReplaced t r cs (replace_first t r cs)
unfolding count_from replace_first
count-IsReplaced t r [] n h = absurd (h refl)
count-IsReplaced t r (c ∷ cs) n h = elim (Option-cases (strip_prefix t (c ∷ cs))) [
  | inr (rest, e) ↦ record {
    before = [];
    after = rest;
    was = strip_prefix-append t (c ∷ cs) rest e;
    is = ground arith;
  }
  | inl e ↦
      let there = count-IsReplaced t r cs n (λ z. h (ground arith)) in
      record {
        before = c ∷ there.before;
        after = there.after;
        was = ap (λ z. c ∷ z) there.was;
        is = ground (arith, there.is);
      }
]
