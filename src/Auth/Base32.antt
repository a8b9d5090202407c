-- ===== src/Auth/Base32.antt =====
-- A secret in base 32 is read back as the bytes that it was made of.
use Prim.Native.Nat.{◌%◌}
use proactive.Base.{
  ℕ, ◌/◌, ◌<◌, ◌≡◌, refl, ap, ◌∙◌, true, List, [], ◌∷◌, ◌++◌, Text, arith, keep, All,
}
use proactive.Auth.Runtime.{Runtime}
use proactive.Auth.Totp.{
  alphabet_char, alphabet_index, is_alphabet, normalize_base32, bits5, bits8, parse5, parse8,
  bits_of_bytes, encode_bits, bytes_of_bits, bits_of_text, generate_base32_secret, decode_base32,
}

abbrev IsBit : ℕ → Type 0
IsBit b = b < 2

alphabet_index-char : (v : ℕ) → v < 32 → alphabet_index (alphabet_char v) ≡ v
alphabet_index-char v h = ground arith

char-is_alphabet : (v : ℕ) → v < 32 → is_alphabet (alphabet_char v) ≡ true
char-is_alphabet v h = ground arith

bits5-parse5 :
    (a b c d e : ℕ)
    → IsBit a
    → IsBit b
    → IsBit c
    → IsBit d
    → IsBit e
    → bits5 (alphabet_index (alphabet_char (parse5 a b c d e))) ≡ a ∷ b ∷ c ∷ d ∷ e ∷ []
bits5-parse5 a b c d e ha hb hc hd he =
    rw (alphabet_index-char (parse5 a b c d e) (omega arith)) (ground arith)

parse8-bits8 :
    (v : ℕ)
    → v < 256
    → parse8
        (v / 128 % 2)
        (v / 64 % 2)
        (v / 32 % 2)
        (v / 16 % 2)
        (v / 8 % 2)
        (v / 4 % 2)
        (v / 2 % 2)
        (v % 2)
      ≡ v
parse8-bits8 v h = omega arith

AreBits : List ℕ → Type 0
AreBits = All (λ b. b < 2)

bit : (w : ℕ) → w % 2 < 2
bit w = omega arith

AreBits-bits8 : (v : ℕ) (bits : List ℕ) → AreBits bits → AreBits (bits8 v ++ bits)
unfolding AreBits
AreBits-bits8 v bits h = (bit _, (bit _, (bit _, (bit _, (bit _, (bit _, (bit _, (bit _, h))))))))

-- One character carries five bits.
chunk :
    (a b c d e : ℕ)
    → IsBit a
    → IsBit b
    → IsBit c
    → IsBit d
    → IsBit e
    → (bits5 (alphabet_index (alphabet_char (parse5 a b c d e))) ≡ a ∷ b ∷ c ∷ d ∷ e ∷ [])
      × (is_alphabet (alphabet_char (parse5 a b c d e)) ≡ true)
chunk a b c d e ha hb hc hd he =
    (bits5-parse5 a b c d e ha hb hc hd he, char-is_alphabet (parse5 a b c d e) (omega arith))

-- The bits of an encoding are those that were encoded and, after them, too few for a byte.
abbrev IsPadded : List ℕ → Text → Type 0
IsPadded bits code =
    (pad : List ℕ) × (bits_of_text code ≡ bits ++ pad)
    × (bytes_of_bits pad ≡ [])
    × (keep is_alphabet code ≡ code)

encode-IsPadded : (bits : List ℕ) → AreBits bits → IsPadded bits (encode_bits bits)
unfolding AreBits encode_bits bits_of_text bytes_of_bits
encode-IsPadded [] h = ([], refl, refl, refl)
encode-IsPadded (a ∷ []) h =
    let (p, q) = chunk a 0 0 0 0 h.0 (omega arith) (omega arith) (omega arith) (omega arith) in
    (0 ∷ 0 ∷ 0 ∷ 0 ∷ [], p, refl, rw q refl)
encode-IsPadded (a ∷ b ∷ []) h =
    let (p, q) = chunk a b 0 0 0 h.0 h.1.0 (omega arith) (omega arith) (omega arith) in
    (0 ∷ 0 ∷ 0 ∷ [], p, refl, rw q refl)
encode-IsPadded (a ∷ b ∷ c ∷ []) h =
    let (p, q) = chunk a b c 0 0 h.0 h.1.0 h.1.1.0 (omega arith) (omega arith) in
    (0 ∷ 0 ∷ [], p, refl, rw q refl)
encode-IsPadded (a ∷ b ∷ c ∷ d ∷ []) h =
    let (p, q) = chunk a b c d 0 h.0 h.1.0 h.1.1.0 h.1.1.1.0 (omega arith) in
    (0 ∷ [], p, refl, rw q refl)
encode-IsPadded (a ∷ b ∷ c ∷ d ∷ e ∷ bits) h =
    let (p, q) = chunk a b c d e h.0 h.1.0 h.1.1.0 h.1.1.1.0 h.1.1.1.1.0 in
    let (pad, r, n, k) = encode-IsPadded bits h.1.1.1.1.1 in
    (
      pad,
      ap (λ xs. xs ++ bits_of_text (encode_bits bits)) p ∙ ap (λ xs. a ∷ b ∷ c ∷ d ∷ e ∷ xs) r,
      n,
      rw (q, k) refl,
    )

decode-bits :
    (bytes pad : List ℕ)
    → All (λ v. v < 256) bytes
    → bytes_of_bits pad ≡ []
    → bytes_of_bits (bits_of_bytes bytes ++ pad) ≡ bytes
unfolding bytes_of_bits bits_of_bytes
decode-bits [] pad h p = p
decode-bits (v ∷ vs) pad h p = rw (parse8-bits8 v h.0, decode-bits vs pad h.1 p) refl

bytes-AreBits : (bytes : List ℕ) → AreBits (bits_of_bytes bytes)
unfolding bits_of_bytes AreBits
bytes-AreBits [] = tt
bytes-AreBits (v ∷ vs) = AreBits-bits8 v (bits_of_bytes vs) (bytes-AreBits vs)

-- A secret made of bytes is decoded to them, where the upper case of a text of capitals and digits is
-- the text itself.
pub decode-generate :
    (rt : Runtime) (bytes : List ℕ)
    → All (λ v. v < 256) bytes
    → ((s : Text) → keep is_alphabet s ≡ s → rt.to_upper_case s ≡ s)
    → decode_base32 rt (generate_base32_secret bytes) ≡ bytes
unfolding decode_base32 generate_base32_secret normalize_base32
decode-generate rt bytes h upper =
    let (pad, r, n, k) = encode-IsPadded (bits_of_bytes bytes) (bytes-AreBits bytes) in
    rw (upper (encode_bits (bits_of_bytes bytes)) k, k, r) (decode-bits bytes pad h n)
