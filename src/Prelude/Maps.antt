-- ===== src/Prelude/Maps.antt =====
-- A Python mapping with text keys, as an association list in the order of its keys.
use Prim.Native.String.{String}
use text.Mathlib.Text.{◌==◌ as str_eq}
use text.Mathlib.TextEquality.{eq_iff}
use text.Mathlib.TextPositions.{eq_refl}
use mathlib.Core.Path.{◌≡◌, refl, subst}
use mathlib.Core.Logic.{◌↔◌, inl, inr}
use mathlib.Core.Bool.{Bool, true, false, ◌&&◌, ◌||◌}
use mathlib.Core.Option.{Option, none, some}
use mathlib.Core.List.{List, [], ◌∷◌}
use native.Mathlib.Omega.{arith}
use agentic_skills_lifecycle.Prelude.Tests.{if◌then◌else◌, is_some, Bool-cases}
use agentic_skills_lifecycle.Prelude.Lists.{str_mem, is_unique}
use agentic_skills_lifecycle.Prelude.Text.{str_leb, str_leb_refl}

abbrev pub Dict {ℓ} : Type ℓ → Type ℓ
Dict V = List (String × V)

module _ {ℓ} {V : Type ℓ} where
  -- `values.get(key)`
  unfoldable pub lookup : String → Dict V → Option V
  lookup k [] = none
  lookup k ((j, v) ∷ m) = if str_eq j k then some v else lookup k m

  -- `key in values`
  unfoldable pub has_key : String → Dict V → Bool
  unfolding lookup
  has_key k m = is_some (lookup k m)

  -- `values[key] = value`
  unfoldable pub put_key : String → V → Dict V → Dict V
  put_key k v [] = (k, v) ∷ []
  put_key k v ((j, w) ∷ m) = if str_eq j k then (j, v) ∷ m else (j, w) ∷ put_key k v m

  abbrev pub keys : Dict V → List String
  keys [] = []
  keys ((j, v) ∷ m) = j ∷ keys m

  pub lookup-put_key :
      (k j : String) (v : V) (m : Dict V)
      → lookup j (put_key k v m) ≡ (if str_eq k j then some v else lookup j m)
  unfolding lookup put_key
  lookup-put_key k j v [] = refl
  lookup-put_key k j v ((i, w) ∷ m) =
      ground (arith, eq_iff k j, eq_iff i k, eq_iff i j, lookup-put_key k j v m)

-- `sorted(values.items())` of a mapping.
module _ {ℓ} {V : Type ℓ} where
  unfoldable pub insert_key : String → V → Dict V → Dict V
  insert_key k v [] = (k, v) ∷ []
  insert_key k v ((j, w) ∷ m) =
      if str_leb k j then (k, v) ∷ (j, w) ∷ m else (j, w) ∷ insert_key k v m

  unfoldable pub sort_keys : Dict V → Dict V
  unfolding insert_key
  sort_keys [] = []
  sort_keys ((k, v) ∷ m) = insert_key k v (sort_keys m)

  lookup-insert_key :
      (k j : String) (v : V) (m : Dict V)
      → lookup j (insert_key k v m) ≡ (if str_eq k j then some v else lookup j m)
  unfolding lookup insert_key
  lookup-insert_key k j v [] = refl
  lookup-insert_key k j v ((i, w) ∷ m) =
      ground (arith, eq_iff k j, eq_iff i k, eq_iff i j, str_leb_refl k, lookup-insert_key k j v m)

  pub lookup-sort_keys : (j : String) (m : Dict V) → lookup j (sort_keys m) ≡ lookup j m
  unfolding lookup sort_keys
  lookup-sort_keys j [] = refl
  lookup-sort_keys j ((k, v) ∷ m) =
      ground (arith, lookup-insert_key k j v (sort_keys m), lookup-sort_keys j m)

  str_mem-insert_key :
      (s k : String) (v : V) (m : Dict V)
      → str_mem s (keys (insert_key k v m)) ≡ (str_eq k s || str_mem s (keys m))
  unfolding insert_key
  str_mem-insert_key s k v [] = refl
  str_mem-insert_key s k v ((j, w) ∷ m) = ground (arith, str_mem-insert_key s k v m)

  is_unique-insert_key :
      (k : String) (v : V) (m : Dict V)
      → str_mem k (keys m) ≡ false
      → is_unique (keys m) ≡ true
      → is_unique (keys (insert_key k v m)) ≡ true
  unfolding insert_key
  is_unique-insert_key k v [] n u = refl
  is_unique-insert_key k v ((j, w) ∷ m) n u =
      ground (arith, eq_iff k j, eq_iff j k, str_mem-insert_key j k v m, is_unique-insert_key k v m)

  str_mem-sort_keys :
      (s : String) (m : Dict V) → str_mem s (keys (sort_keys m)) ≡ str_mem s (keys m)
  unfolding sort_keys
  str_mem-sort_keys s [] = refl
  str_mem-sort_keys s ((k, v) ∷ m) =
      ground (arith, str_mem-insert_key s k v (sort_keys m), str_mem-sort_keys s m)

  pub is_unique-sort_keys :
      (m : Dict V) → is_unique (keys m) ≡ true → is_unique (keys (sort_keys m)) ≡ true
  unfolding sort_keys
  is_unique-sort_keys [] u = refl
  is_unique-sort_keys ((k, v) ∷ m) u =
      ground (
        arith,
        is_unique-insert_key k v (sort_keys m),
        is_unique-sort_keys m,
        str_mem-sort_keys k m,
      )

  str_mem-put_key :
      (s k : String) (v : V) (m : Dict V)
      → str_mem s (keys (put_key k v m)) ≡ (str_eq k s || str_mem s (keys m))
  unfolding put_key
  str_mem-put_key s k v [] = refl
  str_mem-put_key s k v ((j, w) ∷ m) =
      ground (arith, eq_iff j k, eq_iff k s, eq_iff j s, str_mem-put_key s k v m)

  pub is_unique-put_key :
      (k : String) (v : V) (m : Dict V)
      → is_unique (keys m) ≡ true
      → is_unique (keys (put_key k v m)) ≡ true
  unfolding put_key
  is_unique-put_key k v [] u = refl
  is_unique-put_key k v ((j, w) ∷ m) u =
      ground (arith, eq_iff j k, eq_iff k j, str_mem-put_key j k v m, is_unique-put_key k v m)

  -- A key that is not there.
  pub lookup-absent : (k : String) (m : Dict V) → str_mem k (keys m) ≡ false → lookup k m ≡ none
  unfolding lookup
  lookup-absent k [] n = refl
  lookup-absent k ((j, w) ∷ m) n = ground (arith, lookup-absent k m)

-- `set(left) <= set(right)`
abbrev pub is_subset : List String → List String → Bool
is_subset [] ys = true
is_subset (x ∷ xs) ys = str_mem x ys && is_subset xs ys

pub is_subset_iff :
    (xs ys : List String)
    → (is_subset xs ys ≡ true) ↔ ((s : String) → str_mem s xs ≡ true → str_mem s ys ≡ true)
is_subset_iff [] ys = (λ h s m. cc, λ h. refl)
is_subset_iff (x ∷ xs) ys = (
  λ h s m. elim (Bool-cases (str_eq x s)) [
    | inl e ↦ subst (λ z. str_mem z ys ≡ true) ((eq_iff x s).0 e) (ground arith)
    | inr n ↦ (is_subset_iff xs ys).0 (ground arith) s (ground arith)
  ],
  λ h.
      let head = h x (ground (arith, eq_refl x)) in
      let tail = (is_subset_iff xs ys).1 (λ s m. h s (ground arith)) in ground arith,
)
