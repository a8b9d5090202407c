-- ===== src/Auth/Totp.antt =====
-- backend/src/auth/mfa.util.ts: secrets in base 32 and time-based one-time codes. A bit is 0 or 1,
-- a byte is a number, a character its code.
use Prim.Native.Nat.{◌%◌}
use proactive.Base.{
  ℕ, zero, suc, ◌+◌, ◌-◌, ◌*◌, ◌/◌, Bool, false, not, ◌&&◌, ◌||◌, List, [], ◌∷◌, ◌++◌, Text, text,
  text_eq, is_space, leb, ltb, if◌then◌else◌, keep, any,
}
use proactive.Auth.Runtime.{Runtime}

-- `BASE32_ALPHABET[value]`, and the value of a character that stands in the alphabet.
abbrev pub alphabet_char : ℕ → ℕ
alphabet_char value = if ltb value 26 then 65 + value else 24 + value

abbrev pub alphabet_index : ℕ → ℕ
alphabet_index c = if leb 65 c then c - 65 else c - 24

abbrev pub is_alphabet : ℕ → Bool
is_alphabet c = (leb 65 c && leb c 90) || (leb 50 c && leb c 55)

-- The trailing `=` of a secret are among the characters that are dropped.
unfoldable pub normalize_base32 : Runtime → Text → Text
normalize_base32 rt secret = keep is_alphabet (rt.to_upper_case secret)

-- `value.toString(2).padStart(width, '0')` for a value below `2 ^ width`, with widths 8 and 5.
abbrev pub bits8 : ℕ → List ℕ
bits8 v =
    v / 128 % 2
    ∷ v / 64 % 2
    ∷ v / 32 % 2
    ∷ v / 16 % 2
    ∷ v / 8 % 2
    ∷ v / 4 % 2
    ∷ v / 2 % 2
    ∷ v % 2
    ∷ []

abbrev pub bits5 : ℕ → List ℕ
bits5 v = v / 16 % 2 ∷ v / 8 % 2 ∷ v / 4 % 2 ∷ v / 2 % 2 ∷ v % 2 ∷ []

abbrev pub parse5 : ℕ → ℕ → ℕ → ℕ → ℕ → ℕ
parse5 a b c d e = a * 16 + b * 8 + c * 4 + d * 2 + e

abbrev pub parse8 : ℕ → ℕ → ℕ → ℕ → ℕ → ℕ → ℕ → ℕ → ℕ
parse8 a b c d e f g h = parse5 a b c d e * 8 + f * 4 + g * 2 + h

unfoldable pub bits_of_bytes : List ℕ → List ℕ
bits_of_bytes [] = []
bits_of_bytes (v ∷ vs) = bits8 v ++ bits_of_bytes vs

-- The loop over chunks of five bits, the last of which is filled up with zeros.
unfoldable pub encode_bits : List ℕ → Text
encode_bits [] = []
encode_bits (a ∷ []) = alphabet_char (parse5 a 0 0 0 0) ∷ []
encode_bits (a ∷ b ∷ []) = alphabet_char (parse5 a b 0 0 0) ∷ []
encode_bits (a ∷ b ∷ c ∷ []) = alphabet_char (parse5 a b c 0 0) ∷ []
encode_bits (a ∷ b ∷ c ∷ d ∷ []) = alphabet_char (parse5 a b c d 0) ∷ []
encode_bits (a ∷ b ∷ c ∷ d ∷ e ∷ bits) = alphabet_char (parse5 a b c d e) ∷ encode_bits bits

-- The loop over whole chunks of eight bits; what is left over is dropped.
unfoldable pub bytes_of_bits : List ℕ → List ℕ
bytes_of_bits (a ∷ b ∷ c ∷ d ∷ e ∷ f ∷ g ∷ h ∷ bits) = parse8 a b c d e f g h ∷ bytes_of_bits bits
bytes_of_bits _ = []

unfoldable pub bits_of_text : Text → List ℕ
bits_of_text [] = []
bits_of_text (c ∷ s) = bits5 (alphabet_index c) ++ bits_of_text s

-- `generateBase32Secret`, on the bytes that it has drawn.
unfoldable pub generate_base32_secret : List ℕ → Text
unfolding bits_of_bytes encode_bits
generate_base32_secret bytes = encode_bits (bits_of_bytes bytes)

unfoldable pub decode_base32 : Runtime → Text → List ℕ
unfolding normalize_base32 bits_of_text bytes_of_bits
decode_base32 rt secret = bytes_of_bits (bits_of_text (normalize_base32 rt secret))

-- `hash[i]`, where an index out of range counts as 0 under a mask.
abbrev pub byte_at : List ℕ → ℕ → ℕ
byte_at [] i = 0
byte_at (b ∷ bs) zero = b
byte_at (b ∷ bs) (suc i) = byte_at bs i

abbrev pub last_byte : List ℕ → ℕ
last_byte [] = 0
last_byte (b ∷ []) = b
last_byte (b ∷ c ∷ bs) = last_byte (c ∷ bs)

-- `writeBigUInt64BE`
abbrev pub uint64_be : ℕ → List ℕ
uint64_be n =
    n / 0x100000000000000 % 256
    ∷ n / 0x1000000000000 % 256
    ∷ n / 0x10000000000 % 256
    ∷ n / 0x100000000 % 256
    ∷ n / 0x1000000 % 256
    ∷ n / 0x10000 % 256
    ∷ n / 0x100 % 256
    ∷ n % 256
    ∷ []

unfoldable pub binary_code : List ℕ → ℕ
binary_code hash =
    byte_at hash offset % 128 * 0x1000000
    + byte_at hash (offset + 1) % 256 * 0x10000
    + byte_at hash (offset + 2) % 256 * 0x100
    + byte_at hash (offset + 3) % 256
  where
    offset : ℕ
    offset = last_byte hash % 16

-- `String(n % 10 ** 6).padStart(6, '0')`
abbrev pub six_digits : ℕ → Text
six_digits n =
    (48 + n / 100_000 % 10)
    ∷ (48 + n / 10_000 % 10)
    ∷ (48 + n / 1_000 % 10)
    ∷ (48 + n / 100 % 10)
    ∷ (48 + n / 10 % 10)
    ∷ (48 + n % 10)
    ∷ []

-- With the default step of 30 seconds and 6 digits, which every call of the program has.
unfoldable pub generate_totp : Runtime → Text → ℕ → Text
unfolding decode_base32 binary_code
generate_totp rt secret now =
    six_digits (binary_code (rt.hmac_sha1 (decode_base32 rt secret) (uint64_be (now / 30_000))))

abbrev pub is_digit : ℕ → Bool
is_digit c = leb 48 c && leb c 57

-- `/^\d{6}$/`
abbrev pub is_code : Text → Bool
is_code (a ∷ b ∷ c ∷ d ∷ e ∷ f ∷ []) =
    is_digit a && is_digit b && is_digit c && is_digit d && is_digit e && is_digit f
is_code _ = false

-- With the default window of one step on either side. The clock stands after the first 30 seconds
-- of 1970, so its subtraction stops nowhere.
unfoldable pub verify_totp : Runtime → ℕ → Text → Text → Bool
unfolding generate_totp
verify_totp rt now secret token =
    is_code code
    && any (λ t. text_eq (generate_totp rt secret t) code)
        ((now - 30_000) ∷ now ∷ (now + 30_000) ∷ [])
  where
    code : Text
    code = keep (λ c. not (is_space c)) token

unfoldable pub build_otp_auth_uri : Runtime → Text → Text → Text
build_otp_auth_uri rt account_name secret =
    text "otpauth://totp/"
    ++ encode rt.mfa_issuer
    ++ text ":"
    ++ encode account_name
    ++ text "?secret="
    ++ encode secret
    ++ text "&issuer="
    ++ encode rt.mfa_issuer
    ++ text "&algorithm=SHA1&digits=6&period=30"
  where
    encode : Text → Text
    encode = rt.encode_uri_component
