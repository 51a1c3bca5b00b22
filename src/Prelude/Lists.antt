-- ===== src/Prelude/Lists.antt =====
-- Lists measured by native numbers, and lists of strings as Python's sets and sorted tuples.
use Prim.Native.String.{String}
use Prim.Native.Nat.{ℕ, zero, suc, ◌+◌, ◌≤◌}
use text.Mathlib.Text.{◌==◌ as str_eq}
use mathlib.Core.Path.{◌≡◌, refl}
use mathlib.Core.Logic.{inl, inr}
use mathlib.Core.Bool.{Bool, true, false, not, ◌&&◌, ◌||◌}
use mathlib.Core.List.{List, [], ◌∷◌, ◌++◌}
use native.Mathlib.Omega.{arith}
use agentic_skills_lifecycle.Prelude.Tests.{if◌then◌else◌, Bool-cases}
use agentic_skills_lifecycle.Prelude.Text.{str_leb}

module _ {ℓ} {A : Type ℓ} where
  abbrev pub length : List A → ℕ
  length [] = 0
  length (_ ∷ xs) = suc (length xs)

  -- `any(test(x) for x in xs)`
  abbrev pub any : (A → Bool) → List A → Bool
  any p [] = false
  any p (x ∷ xs) = p x || any p xs

  -- `all(test(x) for x in xs)`
  abbrev pub all : (A → Bool) → List A → Bool
  all p [] = true
  all p (x ∷ xs) = p x && all p xs

  -- `[x for x in xs if test(x)]`
  abbrev pub select : (A → Bool) → List A → List A
  select p [] = []
  select p (x ∷ xs) = if p x then x ∷ select p xs else select p xs

  -- `xs[:n]`
  unfoldable pub take : ℕ → List A → List A
  take n [] = []
  take zero (x ∷ xs) = []
  take (suc n) (x ∷ xs) = x ∷ take n xs

  -- `xs[n:]`
  unfoldable pub drop : ℕ → List A → List A
  drop n [] = []
  drop zero (x ∷ xs) = x ∷ xs
  drop (suc n) (x ∷ xs) = drop n xs

  pub length-take : (n : ℕ) (xs : List A) → length (take n xs) ≤ n
  unfolding take
  length-take n [] = omega arith
  length-take zero (x ∷ xs) = omega arith
  length-take (suc n) (x ∷ xs) = omega (arith, length-take n xs)

  pub all-take : (p : A → Bool) (n : ℕ) (xs : List A) → all p xs ≡ true → all p (take n xs) ≡ true
  unfolding take
  all-take p n [] h = refl
  all-take p zero (x ∷ xs) h = refl
  all-take p (suc n) (x ∷ xs) h = ground (arith, all-take p n xs)

  pub all-append : (p : A → Bool) (xs ys : List A) → all p (xs ++ ys) ≡ (all p xs && all p ys)
  all-append p [] ys = refl
  all-append p (x ∷ xs) ys = ground (arith, all-append p xs ys)

  pub length-append : (xs ys : List A) → length (xs ++ ys) ≡ length xs + length ys
  length-append [] ys = omega arith
  length-append (x ∷ xs) ys = omega (arith, length-append xs ys)

  pub any-append : (p : A → Bool) (xs ys : List A) → any p (xs ++ ys) ≡ (any p xs || any p ys)
  any-append p [] ys = refl
  any-append p (x ∷ xs) ys = ground (arith, any-append p xs ys)

  pub length-select : (p : A → Bool) (xs : List A) → length (select p xs) ≤ length xs
  length-select p [] = omega arith
  length-select p (x ∷ xs) = ground (arith, length-select p xs)

  -- A selection is empty exactly when no item passes the test.
  pub select-none : (p : A → Bool) (xs : List A) → any p xs ≡ false → select p xs ≡ []
  select-none p [] h = refl
  select-none p (x ∷ xs) h = ground (arith, select-none p xs)

  pub select-some :
      (p : A → Bool) (xs : List A)
      → any p xs ≡ true
      → (y : A) × (ys : List A) × (select p xs ≡ y ∷ ys)
  select-some p [] h = cc
  select-some p (x ∷ xs) h = elim (Bool-cases (p x)) [
    | inl t ↦ (x, select p xs, ground arith)
    | inr f ↦ let (y, ys, e) = select-some p xs (ground arith) in (y, ys, ground arith)
  ]

-- `s in xs`
abbrev pub str_mem : String → List String → Bool
str_mem s [] = false
str_mem s (x ∷ xs) = str_eq x s || str_mem s xs

-- `len(xs) == len(set(xs))`
abbrev pub is_unique : List String → Bool
is_unique [] = true
is_unique (x ∷ xs) = not (str_mem x xs) && is_unique xs

-- `sorted(xs)`, by insertion.
unfoldable pub str_insert : String → List String → List String
str_insert s [] = s ∷ []
str_insert s (x ∷ xs) = if str_leb s x then s ∷ x ∷ xs else x ∷ str_insert s xs

unfoldable pub str_sort : List String → List String
unfolding str_insert
str_sort [] = []
str_sort (x ∷ xs) = str_insert x (str_sort xs)

-- A list without its repetitions.
unfoldable pub str_distinct : List String → List String
str_distinct [] = []
str_distinct (x ∷ xs) = let rest = str_distinct xs in if str_mem x rest then rest else x ∷ rest

pub str_mem-append :
    (s : String) (xs ys : List String) → str_mem s (xs ++ ys) ≡ (str_mem s xs || str_mem s ys)
str_mem-append s [] ys = refl
str_mem-append s (x ∷ xs) ys = ground (arith, str_mem-append s xs ys)

pub str_mem-insert :
    (s t : String) (xs : List String) → str_mem s (str_insert t xs) ≡ (str_eq t s || str_mem s xs)
unfolding str_insert
str_mem-insert s t [] = refl
str_mem-insert s t (x ∷ xs) = ground (arith, str_mem-insert s t xs)

-- Sorting keeps the members.
pub str_mem-sort : (s : String) (xs : List String) → str_mem s (str_sort xs) ≡ str_mem s xs
unfolding str_sort
str_mem-sort s [] = refl
str_mem-sort s (x ∷ xs) = ground (arith, str_mem-insert s x (str_sort xs), str_mem-sort s xs)
