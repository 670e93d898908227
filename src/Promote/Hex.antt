-- ===== src/Promote/Hex.antt =====
-- src/promote/identity.rs, `encode_hex` and `decode_hex`. A byte is a number below 256.
pub mod RoundTrip
use Prim.Native.Char.{Char, code, len_utf8}
use Prim.Native.String as Str
use Prim.Native.String.{String}
use navin_engine.Prelude.{
  ℕ, zero, suc, ◌+◌, ◌-◌, ◌*◌, ◌/◌, ◌%◌, Bool, true, false, ◌&&◌, Option, none, some, List, [], ◌∷◌,
  ◌==◌, leb, if◌then◌else◌,
}

-- A digit of `{:x}`.
abbrev pub hex_char : ℕ → Char
hex_char zero = "0"
hex_char (suc zero) = "1"
hex_char (suc (suc zero)) = "2"
hex_char (suc (suc (suc zero))) = "3"
hex_char (suc (suc (suc (suc zero)))) = "4"
hex_char (suc (suc (suc (suc (suc zero))))) = "5"
hex_char (suc (suc (suc (suc (suc (suc zero)))))) = "6"
hex_char (suc (suc (suc (suc (suc (suc (suc zero))))))) = "7"
hex_char (suc (suc (suc (suc (suc (suc (suc (suc zero)))))))) = "8"
hex_char (suc (suc (suc (suc (suc (suc (suc (suc (suc zero))))))))) = "9"
hex_char (suc (suc (suc (suc (suc (suc (suc (suc (suc (suc zero)))))))))) = "a"
hex_char (suc (suc (suc (suc (suc (suc (suc (suc (suc (suc (suc zero))))))))))) = "b"
hex_char (suc (suc (suc (suc (suc (suc (suc (suc (suc (suc (suc (suc zero)))))))))))) = "c"
hex_char (suc (suc (suc (suc (suc (suc (suc (suc (suc (suc (suc (suc (suc zero))))))))))))) = "d"
hex_char (suc (suc (suc (suc (suc (suc (suc (suc (suc (suc (suc (suc (suc (suc zero)))))))))))))) =
    "e"
hex_char _ = "f"

-- `{byte:02x}` of each byte.
unfoldable pub encode_hex : List ℕ → String
encode_hex [] = Str.[]
encode_hex (b ∷ bs) = Str.◌∷◌ (hex_char (b / 16)) (Str.◌∷◌ (hex_char (b % 16)) (encode_hex bs))

-- `char::to_digit(16)`
abbrev pub hex_value : Char → Option ℕ
hex_value ch =
    let c = code ch in
    if leb 48 c && leb c 57
    then some (c - 48)
    else if leb 97 c && leb c 102
    then some (c - 87)
    else if leb 65 c && leb c 70
    then some (c - 55)
    else none

-- How a decoding ends: `text[i..i + 2]` panics where a bound is inside a character.
pub data Decoded : Type 0 where
  bytes : List ℕ → Decoded
  invalid : Decoded
  panicked : Decoded

abbrev pub two_digits : Option ℕ → Option ℕ → Option ℕ
two_digits (some a) (some b) = some (a * 16 + b)
two_digits (some a) none = none
two_digits none _ = none

-- `u8::from_str_radix(_, 16)` on two characters: a plus sign may stand before the one digit.
abbrev pub from_str_radix : Char → Char → Option ℕ
from_str_radix c d = if code c == b'+' then hex_value d else two_digits (hex_value c) (hex_value d)

abbrev prepend : ℕ → Decoded → Decoded
prepend b (bytes bs) = bytes (b ∷ bs)
prepend b invalid = invalid
prepend b panicked = panicked

abbrev collect : Option ℕ → Decoded → Decoded
collect none rest = invalid
collect (some b) rest = prepend b rest

-- The slices of two bytes each, of a text of an even number of bytes; the first bad one ends it.
unfoldable pub decode_pairs : String → Decoded
decode_pairs Str.[] = bytes []
decode_pairs (Str.◌∷◌ c Str.[]) = if len_utf8 c == 2 then invalid else panicked
decode_pairs (Str.◌∷◌ c (Str.◌∷◌ d s)) =
    let rest = decode_pairs s in
    if len_utf8 c == 1
    then (if len_utf8 d == 1 then collect (from_str_radix c d) rest else panicked)
    else if len_utf8 c == 2
    then invalid
    else panicked

unfoldable pub decode_hex : String → Decoded
unfolding decode_pairs
decode_hex text = if Str.len text % 2 == 0 then decode_pairs text else invalid
