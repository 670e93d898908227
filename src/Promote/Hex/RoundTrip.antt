-- ===== src/Promote/Hex/RoundTrip.antt =====
-- Decoding what was encoded, and the texts at which decoding panics.
use Prim.Native.Char.{Char, code, len_utf8}
use Prim.Native.String as Str
use Prim.Native.String.{String}
use Prim.Native.String.len
use navin_engine.Prelude.{
  ℕ, zero, suc, false, true, ◌*◌, ◌/◌, ◌%◌, ◌<◌, ◌≡◌, refl, some, List, [], ◌∷◌, length, All, arith,
  ◌==◌, ◌≢◌,
}
use navin_engine.Promote.Hex.{
  hex_char, encode_hex, hex_value, bytes, panicked, decode_pairs, decode_hex,
}

abbrev pub IsByte : ℕ → Type 0
IsByte b = b < 256

-- What the digits of a number below 16 are: one byte of text, no sign, and the value.
abbrev IsDigit : ℕ → Char → Type 0
IsDigit n c = (len_utf8 c ≡ 1) × ((code c == b'+') ≡ false) × (hex_value c ≡ some n)

hex_char-IsDigit : (n : ℕ) → n < 16 → IsDigit n (hex_char n)
hex_char-IsDigit zero h = (refl, refl, refl)
hex_char-IsDigit (suc zero) h = (refl, refl, refl)
hex_char-IsDigit (suc (suc zero)) h = (refl, refl, refl)
hex_char-IsDigit (suc (suc (suc zero))) h = (refl, refl, refl)
hex_char-IsDigit (suc (suc (suc (suc zero)))) h = (refl, refl, refl)
hex_char-IsDigit (suc (suc (suc (suc (suc zero))))) h = (refl, refl, refl)
hex_char-IsDigit (suc (suc (suc (suc (suc (suc zero)))))) h = (refl, refl, refl)
hex_char-IsDigit (suc (suc (suc (suc (suc (suc (suc zero))))))) h = (refl, refl, refl)
hex_char-IsDigit (suc (suc (suc (suc (suc (suc (suc (suc zero)))))))) h = (refl, refl, refl)
hex_char-IsDigit (suc (suc (suc (suc (suc (suc (suc (suc (suc zero))))))))) h = (refl, refl, refl)
hex_char-IsDigit (suc (suc (suc (suc (suc (suc (suc (suc (suc (suc zero)))))))))) h =
    (refl, refl, refl)
hex_char-IsDigit (suc (suc (suc (suc (suc (suc (suc (suc (suc (suc (suc zero))))))))))) h =
    (refl, refl, refl)
hex_char-IsDigit (suc (suc (suc (suc (suc (suc (suc (suc (suc (suc (suc (suc zero)))))))))))) h =
    (refl, refl, refl)
hex_char-IsDigit (suc (suc (suc (suc (suc (suc (suc (suc (suc (suc (suc (suc (suc zero)))))))))))))
      h =
    (refl, refl, refl)
hex_char-IsDigit
      (suc (suc (suc (suc (suc (suc (suc (suc (suc (suc (suc (suc (suc (suc zero)))))))))))))) h =
    (refl, refl, refl)
hex_char-IsDigit
      (suc (suc (suc (suc (suc (suc (suc (suc (suc (suc (suc (suc (suc (suc (suc zero)))))))))))))))
      h =
    (refl, refl, refl)
hex_char-IsDigit
      (suc
        (suc (suc (suc (suc (suc (suc (suc (suc (suc (suc (suc (suc (suc (suc (suc n))))))))))))))))
      h =
    absurd (omega arith)

len-encode_hex : (bs : List ℕ) → All IsByte bs → Str.len (encode_hex bs) ≡ 2 * length bs
unfolding encode_hex
len-encode_hex [] a = refl
len-encode_hex (b ∷ bs) a =
    let hi = hex_char-IsDigit (b / 16) (omega (arith, a.0)) in
    let lo = hex_char-IsDigit (b % 16) (omega arith) in
    rw (len.cons (hex_char (b / 16)) _, len.cons (hex_char (b % 16)) _)
      (omega (arith, hi.0, lo.0, len-encode_hex bs a.1))

decode_pairs-encode_hex : (bs : List ℕ) → All IsByte bs → decode_pairs (encode_hex bs) ≡ bytes bs
unfolding encode_hex decode_pairs
decode_pairs-encode_hex [] a = refl
decode_pairs-encode_hex (b ∷ bs) a =
    let hi = hex_char-IsDigit (b / 16) (omega (arith, a.0)) in
    let lo = hex_char-IsDigit (b % 16) (omega arith) in
    ground (arith, hi.0, hi.1, hi.2, lo.0, lo.2, decode_pairs-encode_hex bs a.1)

-- Decoding the hex text of any bytes gives those bytes back.
pub decode_hex-encode_hex : (bs : List ℕ) → All IsByte bs → decode_hex (encode_hex bs) ≡ bytes bs
unfolding decode_hex
decode_hex-encode_hex bs a =
    let even : (Str.len (encode_hex bs) % 2 == 0) ≡ true = ground (arith, len-encode_hex bs a) in
    rw even (decode_pairs-encode_hex bs a)

-- A text of an even number of bytes whose second character is not ASCII, behind an ASCII one,
-- makes the decoder panic.
pub decode_hex_panics :
    (c d : Char) (s : String)
    → len_utf8 c ≡ 1
    → len_utf8 d ≢ 1
    → Str.len (Str.◌∷◌ c (Str.◌∷◌ d s)) % 2 ≡ 0
    → decode_hex (Str.◌∷◌ c (Str.◌∷◌ d s)) ≡ panicked
unfolding decode_hex decode_pairs
decode_hex_panics c d s hc hd even = ground arith
