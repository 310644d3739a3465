-- ===== src/Python/Unicode.antt =====
-- Python's strict UTF-8 codec, and the whitespace and lower case of `strip` and `lower`.
pub mod RoundTrip
pub mod Inverse
use mumu_autotask.Prelude.{
  ℕ, zero, suc, ◌+◌, ◌-◌, ◌*◌, ◌/◌, ◌%◌, Bool, true, false, ◌&&◌, ◌||◌, Option, none, some, List,
  [], ◌∷◌, ◌++◌, ltb, leb, ◌==◌, if◌then◌else◌, Result, ok, err, unicode_error, ◌>>=◌,
}
use mumu_autotask.Python.Value.{Text}

-- A code point that a `str` may hold but UTF-8 cannot.
abbrev pub is_surrogate : ℕ → Bool
is_surrogate c = leb 0xD800 c && leb c 0xDFFF

unfoldable pub encode_char : ℕ → List ℕ
encode_char c =
    if ltb c 0x80
    then c ∷ []
    else if ltb c 0x800
    then (0xC0 + c / 64) ∷ (0x80 + c % 64) ∷ []
    else if ltb c 0x10000
    then (0xE0 + c / 4096) ∷ (0x80 + c / 64 % 64) ∷ (0x80 + c % 64) ∷ []
    else (0xF0 + c / 262144) ∷ (0x80 + c / 4096 % 64) ∷ (0x80 + c / 64 % 64) ∷ (0x80 + c % 64) ∷ []

-- `text.encode("utf-8")`. A `str` has no code point above 0x10FFFF.
unfoldable pub encode : Text → Result (List ℕ)
encode [] = ok []
encode (c ∷ s) = do
  rest ← encode s
  if is_surrogate c || ltb 0x10FFFF c then err unicode_error else ok (encode_char c ++ rest)

-- What the decoder waits for: how many continuation bytes, the bits so far, and the range that the
-- next byte must lie in.
pub record Pending : Type 0 where
  pub count : ℕ
  pub bits : ℕ
  pub low : ℕ
  pub high : ℕ

abbrev pub idle : Pending
idle = record { count = 0; bits = 0; low = 0x80; high = 0xBF }

abbrev pub await : ℕ → ℕ → ℕ → ℕ → Option (Pending × Text)
await count bits low high = some (record { count = count; bits = bits; low = low; high = high }, [])

-- The first byte of a character.
unfoldable pub first_byte : ℕ → Option (Pending × Text)
first_byte b =
    if ltb b 0x80
    then some (idle, b ∷ [])
    else if ltb b 0xC2
    then none
    else if ltb b 0xE0
    then await 1 (b - 0xC0) 0x80 0xBF
    else if ltb b 0xF0
    then await 2 (b - 0xE0) (if b == 0xE0 then 0xA0 else 0x80) (if b == 0xED then 0x9F else 0xBF)
    else if ltb b 0xF5
    then await 3 (b - 0xF0) (if b == 0xF0 then 0x90 else 0x80) (if b == 0xF4 then 0x8F else 0xBF)
    else none

-- A further byte of a character; `more` counts the bytes that still follow it.
unfoldable pub next_byte : ℕ → Pending → ℕ → Option (Pending × Text)
next_byte more p b =
    let bits = p.bits * 64 + (b - 0x80) in
    if leb p.low b && leb b p.high
    then if more == 0 then some (idle, bits ∷ []) else await more bits 0x80 0xBF
    else none

unfoldable pub decode_byte : ℕ → Pending → ℕ → Option (Pending × Text)
unfolding first_byte next_byte
decode_byte zero p b = first_byte b
decode_byte (suc more) p b = next_byte more p b

unfoldable pub decode_from : Pending → List ℕ → Option Text
decode_from p [] = if p.count == 0 then some [] else none
decode_from p (b ∷ bytes) = elim (decode_byte p.count p b) [
  | none ↦ none
  | some (q, out) ↦ elim (decode_from q bytes) [ none ↦ none | some s ↦ some (out ++ s) ]
]

-- `bytes.decode("utf-8")`; `none` is a `UnicodeDecodeError`.
unfoldable pub decode : List ℕ → Option Text
unfolding decode_from decode_byte
decode = decode_from idle

-- `str.isspace`, for the characters that `strip` removes.
unfoldable pub is_space : ℕ → Bool
is_space c =
    (leb 0x09 c && leb c 0x0D)
    || (leb 0x1C c && leb c 0x20)
    || c == 0x85
    || c == 0xA0
    || c == 0x1680
    || (leb 0x2000 c && leb c 0x200A)
    || c == 0x2028
    || c == 0x2029
    || c == 0x202F
    || c == 0x205F
    || c == 0x3000

unfoldable pub strip_left : Text → Text
strip_left [] = []
strip_left (c ∷ s) = let rest = strip_left s in if is_space c then rest else c ∷ s

unfoldable pub strip_right : Text → Text
strip_right [] = []
strip_right (c ∷ s) = elim (strip_right s) [
  | [] ↦ if is_space c then [] else c ∷ []
  | d ∷ t ↦ c ∷ d ∷ t
]

-- `text.strip()`
unfoldable pub strip : Text → Text
unfolding is_space strip_left strip_right
strip s = strip_right (strip_left s)

-- The characters whose lower case has an ASCII character: the capital letters, the Kelvin sign, and
-- the dotted capital I, which becomes two characters. The lower case of any other character has none
-- and is left as it is.
unfoldable pub lower_char : ℕ → Text
lower_char c =
    if leb b'A' c && leb c b'Z'
    then (c + 32) ∷ []
    else if c == 0x212A
    then b'k' ∷ []
    else if c == 0x130
    then b'i' ∷ 0x307 ∷ []
    else c ∷ []

-- `text.lower()`, where the result is only compared with texts of ASCII letters and of letters that
-- have no case.
unfoldable pub lower : Text → Text
unfolding lower_char
lower [] = []
lower (c ∷ s) = lower_char c ++ lower s
