-- ===== src/Prelude/Utf8.antt =====
-- `str.encode("utf-8")` of a text without surrogates, and `int.to_bytes(8, "big")`.
use Prim.Native.Nat.{ℕ, zero, suc, ◌+◌, ◌*◌, ◌/◌, ◌%◌}
use mathlib.Core.Bool.{Bool, true, false, not, ◌&&◌}
use mathlib.Core.Option.{Option, none, some}
use mathlib.Core.List.{List, [], ◌∷◌, ◌++◌}
use agentic_skills_lifecycle.Prelude.Tests.{leb, if◌then◌else◌}

abbrev pub Bytes : Type 0
Bytes = List ℕ

-- A continuation byte with the given six bits.
abbrev tail_byte : ℕ → ℕ
tail_byte n = 0x80 + n % 64

unfoldable pub encode_char : ℕ → Bytes
encode_char c =
    if leb c 0x7F
    then c ∷ []
    else if leb c 0x7FF
    then (0xC0 + c / 64) ∷ tail_byte c ∷ []
    else if leb c 0xFFFF
    then (0xE0 + c / 4096) ∷ tail_byte (c / 64) ∷ tail_byte c ∷ []
    else (0xF0 + c / 262144) ∷ tail_byte (c / 4096) ∷ tail_byte (c / 64) ∷ tail_byte c ∷ []

unfoldable pub encode : List ℕ → Bytes
unfolding encode_char
encode [] = []
encode (c ∷ cs) = encode_char c ++ encode cs

-- The last `count` bytes of a number, the most significant first.
unfoldable pub big_endian : ℕ → ℕ → Bytes
big_endian zero n = []
big_endian (suc count) n = big_endian count (n / 256) ++ n % 256 ∷ []

-- What a byte is at the start of a character.
pub data Lead : Type 0 where
  single no_lead : Lead
  leads : ℕ → ℕ → ℕ → Lead

abbrev lead_of : ℕ → Lead
lead_of b =
    if leb b 0x7F
    then single
    else if leb b 0xC1
    then no_lead
    else if leb b 0xDF
    then leads 1 (b % 32) 0x80
    else if leb b 0xEF
    then leads 2 (b % 16) 0x800
    else if leb b 0xF4
    then leads 3 (b % 8) 0x10000
    else no_lead

-- A code point that is no surrogate, and not written with too many bytes.
abbrev is_scalar : ℕ → ℕ → Bool
is_scalar least n = leb least n && leb n 0x10FFFF && not (leb 0xD800 n && leb n 0xDFFF)

abbrev grown : ℕ → Option (List ℕ) → Option (List ℕ)
grown c none = none
grown c (some cs) = some (c ∷ cs)

-- The loop of `bytes.decode("utf-8")`: how many bytes of a character are still to come, its bits so
-- far, and the least code point that its length may write.
unfoldable pub decode_from : ℕ → ℕ → ℕ → Bytes → Option (List ℕ)
decode_from zero bits least [] = some []
decode_from (suc more) bits least [] = none
decode_from zero bits least (b ∷ bs) = elim (lead_of b) [
  | single ↦ grown b (decode_from 0 0 0 bs)
  | leads more first low ↦ decode_from more first low bs
  | no_lead ↦ none
]
decode_from (suc more) bits least (b ∷ bs) =
    let value = bits * 64 + b % 64 in
    elim (leb 0x80 b && leb b 0xBF) [
      | false ↦ none
      | true ↦ elim more [
        | suc n ↦ decode_from (suc n) value least bs
        | zero ↦ elim (is_scalar least value) [
          | true ↦ grown value (decode_from 0 0 0 bs)
          | false ↦ none
        ]
      ]
    ]

-- `bytes.decode("utf-8")`; `none` is the `UnicodeDecodeError`.
unfoldable pub decode : Bytes → Option (List ℕ)
unfolding decode_from
decode bs = decode_from 0 0 0 bs
