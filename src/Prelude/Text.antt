-- ===== src/Prelude/Text.antt =====
-- Python's `str`. A text that is only compared is a native `String`; where the source walks its
-- characters, `codes` gives the code points. `str.strip`, `bytes.fromhex` and the order of
-- strings are those of the Python documentation.
use Prim.Native.Char.{code}
use Prim.Native.String.{String}
use text.Mathlib.Text.{◌==◌ as str_eq}
use text.Mathlib.TextEquality.{eq_iff}
use Prim.Native.Nat.{ℕ, suc}
use mathlib.Core.Path.{◌≡◌, refl}
use mathlib.Core.Bool.{Bool, true, false, not, ◌&&◌, ◌||◌}
use mathlib.Core.Option.{Option, none, some}
use mathlib.Core.List.{List, [], ◌∷◌}
use native.Mathlib.Omega.{arith}
use mathlib.Core.Logic.{inl, inr}
use agentic_skills_lifecycle.Prelude.Tests.{ltb, leb, ◌==◌, Bool-cases}

abbrev pub codes : String → List ℕ
codes String.[] = []
codes (String.◌∷◌ c s) = code c ∷ codes s

-- `str.isspace` of one code point.
unfoldable pub is_space : ℕ → Bool
is_space c =
    (leb 9 c && leb c 13)
    || (leb 28 c && leb c 32)
    || c == 0x85
    || c == 0xA0
    || c == 0x1680
    || (leb 0x2000 c && leb c 0x200A)
    || c == 0x2028
    || c == 0x2029
    || c == 0x202F
    || c == 0x205F
    || c == 0x3000

-- `not text.strip()`
unfoldable pub is_blank_codes : List ℕ → Bool
unfolding is_space
is_blank_codes [] = true
is_blank_codes (c ∷ cs) = is_space c && is_blank_codes cs

unfoldable pub is_blank : String → Bool
unfolding is_blank_codes
is_blank s = is_blank_codes (codes s)

-- One hexadecimal digit of either case.
unfoldable pub is_hex : ℕ → Bool
is_hex c = (leb b'0' c && leb c b'9') || (leb b'a' c && leb c b'f') || (leb b'A' c && leb c b'F')

-- ASCII white space, which `bytes.fromhex` skips between two bytes.
unfoldable pub is_ascii_space : ℕ → Bool
is_ascii_space c = (leb 9 c && leb c 13) || c == 32

-- Whether `bytes.fromhex` accepts the text. The flag says that one digit of a byte was read.
unfoldable pub from_hex : Bool → List ℕ → Bool
unfolding is_hex is_ascii_space
from_hex half [] = not half
from_hex true (c ∷ cs) = is_hex c && from_hex false cs
from_hex false (c ∷ cs) = (is_hex c || is_ascii_space c) && from_hex (is_hex c) cs

unfoldable pub length_codes : List ℕ → ℕ
length_codes [] = 0
length_codes (_ ∷ cs) = suc (length_codes cs)

-- `len(text)`
unfoldable pub str_len : String → ℕ
unfolding length_codes
str_len s = length_codes (codes s)

-- `left <= right` on strings: the order of their code points.
unfoldable pub codes_leb : List ℕ → List ℕ → Bool
codes_leb [] bs = true
codes_leb (a ∷ as') [] = false
codes_leb (a ∷ as') (b ∷ bs) = ltb a b || (a == b && codes_leb as' bs)

unfoldable pub str_leb : String → String → Bool
unfolding codes_leb
str_leb a b = codes_leb (codes a) (codes b)

codes_leb_refl : (as' : List ℕ) → codes_leb as' as' ≡ true
unfolding codes_leb
codes_leb_refl [] = refl
codes_leb_refl (a ∷ as') = ground (arith, codes_leb_refl as')

pub str_leb_refl : (s : String) → str_leb s s ≡ true
unfolding str_leb
str_leb_refl s = codes_leb_refl (codes s)

-- `option == text`
abbrev pub opt_is : Option String → String → Bool
opt_is none s = false
opt_is (some t) s = str_eq t s

-- `not option` is `not (present option)`: `None` and the empty text are false.
abbrev pub present : Option String → Bool
present none = false
present (some t) = not (str_eq t "")

pub opt_is-eq : (o : Option String) (s : String) → opt_is o s ≡ true → o ≡ some s
opt_is-eq none s h = cc
opt_is-eq (some t) s h = ground (arith, eq_iff t s)

-- An option does not hold two different texts.
pub opt_is-apart :
    (o : Option String) (a b : String) → str_eq a b ≡ false → opt_is o a ≡ true → opt_is o b ≡ false
opt_is-apart none a b n h = cc
opt_is-apart (some t) a b n h = ground (arith, eq_iff t a, eq_iff t b, eq_iff a b)

pub String-discrete : Discrete String
String-discrete a b = elim (Bool-cases (str_eq a b)) [
  | inl e ↦ yes ((eq_iff a b).0 e)
  | inr n ↦ no (λ p. cc (n, (eq_iff a b).1 p))
]

-- `left == right` on code points.
abbrev pub codes_eq : List ℕ → List ℕ → Bool
codes_eq [] [] = true
codes_eq (a ∷ as') (b ∷ bs) = a == b && codes_eq as' bs
codes_eq _ _ = false

pub codes_eq-eq : (as' bs : List ℕ) → codes_eq as' bs ≡ true → as' ≡ bs
codes_eq-eq [] [] h = refl
codes_eq-eq [] (b ∷ bs) h = cc
codes_eq-eq (a ∷ as') [] h = cc
codes_eq-eq (a ∷ as') (b ∷ bs) h = ground (arith, codes_eq-eq as' bs)

pub codes_eq_refl : (as' : List ℕ) → codes_eq as' as' ≡ true
codes_eq_refl [] = refl
codes_eq_refl (a ∷ as') = ground (arith, codes_eq_refl as')
