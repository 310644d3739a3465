-- ===== src/Python/Unicode/RoundTrip.antt =====
-- What the encoder writes the decoder reads.
use mumu_autotask.Prelude.{
  ℕ, ◌+◌, ◌/◌, ◌%◌, ◌≤◌, ◌<◌, ◌≡◌, ◌≢◌, refl, false, Option, none, some, List, [], ◌∷◌, ◌++◌, ok,
  >>=-eq-ok, arith, All, All-append,
}
use mumu_autotask.Python.Value.{Text}
use mumu_autotask.Python.Unicode.{
  is_surrogate, encode_char, encode, idle, decode_byte, decode_from, decode,
}

-- What is decoded behind a character.
abbrev behind : ℕ → Option Text → Option Text
behind c none = none
behind c (some s) = some (c ∷ s)

abbrev pub IsScalar : ℕ → Type 0
IsScalar c = (is_surrogate c ≡ false) × (c ≤ 0x10FFFF)

decode-one :
    (c : ℕ) (rest : List ℕ)
    → c < 0x80
    → decode_from idle (c ∷ rest) ≡ behind c (decode_from idle rest)
unfolding decode_from decode_byte
decode-one c rest h = ground arith

decode-two :
    (c : ℕ) (rest : List ℕ)
    → 0x80 ≤ c
    → c < 0x800
    → decode_from idle ((0xC0 + c / 64) ∷ (0x80 + c % 64) ∷ rest) ≡ behind c (decode_from idle rest)
unfolding decode_from decode_byte
decode-two c rest h k = ground arith

decode-three :
    (c : ℕ) (rest : List ℕ)
    → 0x800 ≤ c
    → c < 0x10000
    → is_surrogate c ≡ false
    → decode_from idle ((0xE0 + c / 4096) ∷ (0x80 + c / 64 % 64) ∷ (0x80 + c % 64) ∷ rest)
      ≡ behind c (decode_from idle rest)
unfolding decode_from decode_byte
decode-three c rest h k s = ground arith

decode-four :
    (c : ℕ) (rest : List ℕ)
    → 0x10000 ≤ c
    → c ≤ 0x10FFFF
    → decode_from idle (
        (0xF0 + c / 262144)
        ∷ (0x80 + c / 4096 % 64)
        ∷ (0x80 + c / 64 % 64)
        ∷ (0x80 + c % 64)
        ∷ rest)
      ≡ behind c (decode_from idle rest)
unfolding decode_from decode_byte
decode-four c rest h k = ground arith

decode-encode_char :
    (c : ℕ) (rest : List ℕ)
    → IsScalar c
    → decode_from idle (encode_char c ++ rest) ≡ behind c (decode_from idle rest)
unfolding encode_char
decode-encode_char c rest h =
    ground (arith, decode-one c rest, decode-two c rest, decode-three c rest, decode-four c rest)

pub encode-cons :
    (c : ℕ) (s : Text) (bytes : List ℕ)
    → encode (c ∷ s) ≡ ok bytes
    → (rest : List ℕ) × (encode s ≡ ok rest) × IsScalar c × (bytes ≡ encode_char c ++ rest)
unfolding encode
encode-cons c s bytes h =
    let (rest, e, k) = >>=-eq-ok (encode s) _ h in (rest, e, ground arith, ground arith)

-- A text that can be encoded is read back from its bytes.
pub decode-encode : (s : Text) (bytes : List ℕ) → encode s ≡ ok bytes → decode bytes ≡ some s
unfolding decode
decode-encode [] bytes h = unfold encode decode_from in ground arith
decode-encode (c ∷ s) bytes h =
    let (rest, e, scalar, split) = encode-cons c s bytes h in
    rw (split, decode-encode_char c rest scalar, decode-encode s rest e)

encode_char-bytes : (c : ℕ) → c ≤ 0x10FFFF → All (λ b. b < 256) (encode_char c)
unfolding encode_char
encode_char-bytes c h = ground arith

-- The encoder writes bytes.
pub encode-bytes : (s : Text) (bytes : List ℕ) → encode s ≡ ok bytes → All (λ b. b < 256) bytes
encode-bytes [] bytes h = unfold encode in ground arith
encode-bytes (c ∷ s) bytes h =
    let (rest, e, scalar, split) = encode-cons c s bytes h in
    rw split (
      All-append (λ b. b < 256) (encode_char c) rest (encode_char-bytes c scalar.1)
        (encode-bytes s rest e))

encode_char-ne-nil : (c : ℕ) (rest : List ℕ) → encode_char c ++ rest ≢ []
unfolding encode_char
encode_char-ne-nil c rest h = ground arith

pub encode-ne-nil : (s : Text) (bytes : List ℕ) → s ≢ [] → encode s ≡ ok bytes → bytes ≢ []
encode-ne-nil [] bytes n h = absurd (n refl)
encode-ne-nil (c ∷ s) bytes n h =
    let (rest, e, scalar, split) = encode-cons c s bytes h in rw split (encode_char-ne-nil c rest)
