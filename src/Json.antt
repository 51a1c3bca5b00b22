-- ===== src/Json.antt =====
-- JSON values as `json.loads` gives them, and Python's `==` on them: a Boolean is the number 0 or 1,
-- an integer and a float are equal when they are the same number, and an object has no order.
use agentic_skills_lifecycle.Prelude.{
  ℕ, ◌+◌, ◌-◌, ◌*◌, ◌/◌, ◌%◌, ◌^◌, String, str_eq, Bool, true, false, ◌&&◌, Option, none, some,
  List, [], ◌∷◌, leb, ◌==◌, if◌then◌else◌,
}
use agentic_skills_lifecycle.Float.{Float, neg, nonneg, float_eqb}

-- `negative n` is the integer -(n+1). `Items` and `Fields` are the lists inside an array and an object.
mutual
  pub data Json : Type 0 where
    null : Json
    boolean : Bool → Json
    natural : ℕ → Json
    negative : ℕ → Json
    number : Float → Json
    text : String → Json
    array : Items → Json
    object : Fields → Json

  pub data Items : Type 0 where
    no_items : Items
    item : Json → Items → Items

  pub data Fields : Type 0 where
    no_fields : Fields
    field : String → Json → Fields → Fields

-- The integer that the bits of a number without a sign stand for, if they stand for one.
unfoldable pub float_whole : ℕ → Option ℕ
float_whole b =
    let exponent = b / 2 ^ 52 in
    let significand = 2 ^ 52 + b % 2 ^ 52 in
    if b == 0
    then some 0
    else if leb 2047 exponent
    then none
    else if leb 1075 exponent
    then some (significand * 2 ^ (exponent - 1075))
    else if leb 1023 exponent && significand % 2 ^ (1075 - exponent) == 0
    then some (significand / 2 ^ (1075 - exponent))
    else none

unfoldable pub is_whole : ℕ → Option ℕ → Bool
is_whole n none = false
is_whole n (some m) = n == m

-- `number == n` for a natural number.
unfoldable pub is_natural : ℕ → Json → Bool
unfolding float_whole is_whole
is_natural n (boolean b) = n == (if b then 1 else 0)
is_natural n (natural m) = n == m
is_natural n (number (nonneg b)) = is_whole n (float_whole b)
is_natural n _ = false

-- `number == -(n + 1)`
unfoldable pub is_negative : ℕ → Json → Bool
unfolding float_whole is_whole
is_negative n (negative m) = n == m
is_negative n (number (neg b)) = is_whole (n + 1) (float_whole b)
is_negative n _ = false

unfoldable pub is_float : Float → Json → Bool
unfolding is_natural is_negative
is_float f (number g) = float_eqb f g
is_float f (boolean b) = is_natural (if b then 1 else 0) (number f)
is_float f (natural n) = is_natural n (number f)
is_float f (negative n) = is_negative n (number f)
is_float f _ = false

abbrev pub is_text : String → Json → Bool
is_text s (text t) = str_eq s t
is_text s _ = false

abbrev pub is_null : Json → Bool
is_null null = true
is_null _ = false

-- `values.get(key)` of an object.
unfoldable pub get_field : String → Fields → Option Json
get_field k no_fields = none
get_field k (field j v m) = if str_eq j k then some v else get_field k m

abbrev pub field_keys : Fields → List String
field_keys no_fields = []
field_keys (field j v m) = j ∷ field_keys m

abbrev pub size : Fields → ℕ
size no_fields = 0
size (field j v m) = 1 + size m

-- `left == right`
unfoldable mutual
  unfolding is_natural is_negative is_float get_field

  pub json_eq : Json → Json → Bool
  json_eq null w = is_null w
  json_eq (boolean b) w = is_natural (if b then 1 else 0) w
  json_eq (natural n) w = is_natural n w
  json_eq (negative n) w = is_negative n w
  json_eq (number f) w = is_float f w
  json_eq (text s) w = is_text s w
  json_eq (array xs) (array ys) = items_eq xs ys
  json_eq (array xs) _ = false
  json_eq (object m) (object n) = size m == size n && fields_eq m n
  json_eq (object m) _ = false

  pub items_eq : Items → Items → Bool
  items_eq no_items no_items = true
  items_eq (item x xs) (item y ys) = json_eq x y && items_eq xs ys
  items_eq _ _ = false

  -- The keys of the left have the same values in the right.
  pub fields_eq : Fields → Fields → Bool
  fields_eq no_fields n = true
  fields_eq (field k v m) n =
      (elim (get_field k n) [ none ↦ false | some w ↦ json_eq v w ]) && fields_eq m n
