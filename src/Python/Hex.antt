-- ===== src/Python/Hex.antt =====
-- `bytes.hex()` and `bytes.fromhex(text)`.
use mumu_autotask.Prelude.{
  ℕ, ◌+◌, ◌-◌, ◌*◌, ◌/◌, ◌%◌, ◌<◌, ◌≡◌, ◌≢◌, refl, Bool, true, false, ◌&&◌, ◌||◌, List, [], ◌∷◌,
  ltb, leb, if◌then◌else◌, arith, All,
}
use mumu_autotask.Python.Value.{Text}
use mumu_autotask.Python.Text.{Lacks}

unfoldable pub hex_digit : ℕ → ℕ
hex_digit d = if ltb d 10 then b'0' + d else b'a' + (d - 10)

-- `bytes.hex()`
unfoldable pub hex : List ℕ → Text
unfolding hex_digit
hex [] = []
hex (b ∷ bytes) = hex_digit (b / 16) ∷ hex_digit (b % 16) ∷ hex bytes

unfoldable pub is_hex_digit : ℕ → Bool
is_hex_digit c = (leb b'0' c && leb c b'9') || (leb b'a' c && leb c b'f')

unfoldable pub is_hex_pairs : Text → Bool
unfolding is_hex_digit
is_hex_pairs [] = true
is_hex_pairs (a ∷ []) = false
is_hex_pairs (a ∷ b ∷ s) = is_hex_digit a && is_hex_digit b && is_hex_pairs s

-- `re.compile(r"(?:[0-9a-f]{2})+\Z").fullmatch(text) is not None`
unfoldable pub is_hex : Text → Bool
unfolding is_hex_pairs
is_hex [] = false
is_hex (a ∷ s) = is_hex_pairs (a ∷ s)

unfoldable pub digit_of_hex : ℕ → ℕ
digit_of_hex c = if leb c b'9' then c - b'0' else (c - b'a') + 10

-- `bytes.fromhex(text)`, of pairs of lower-case digits; a last digit alone does not occur.
unfoldable pub from_hex : Text → List ℕ
unfolding digit_of_hex
from_hex [] = []
from_hex (a ∷ []) = []
from_hex (a ∷ b ∷ s) = (digit_of_hex a * 16 + digit_of_hex b) ∷ from_hex s

pub from_hex-hex : (bytes : List ℕ) → All (λ b. b < 256) bytes → from_hex (hex bytes) ≡ bytes
unfolding from_hex hex
from_hex-hex [] h = refl
from_hex-hex (b ∷ bytes) (hb, hs) =
    let e : digit_of_hex (hex_digit (b / 16)) * 16 + digit_of_hex (hex_digit (b % 16)) ≡ b =
      ground arith in
    rw (e, from_hex-hex bytes hs)

is_hex_pairs-hex : (bytes : List ℕ) → All (λ b. b < 256) bytes → is_hex_pairs (hex bytes) ≡ true
unfolding is_hex_pairs hex
is_hex_pairs-hex [] h = refl
is_hex_pairs-hex (b ∷ bytes) (hb, hs) = ground (arith, is_hex_pairs-hex bytes hs)

pub is_hex-hex :
    (bytes : List ℕ) → All (λ b. b < 256) bytes → bytes ≢ [] → is_hex (hex bytes) ≡ true
is_hex-hex [] h n = absurd (n refl)
is_hex-hex (b ∷ bytes) h n = unfold is_hex hex in is_hex_pairs-hex (b ∷ bytes) h

pub hex-Lacks : (c : ℕ) (bytes : List ℕ) → c < b'0' → Lacks c (hex bytes)
unfolding hex
hex-Lacks c [] h = tt
hex-Lacks c (b ∷ bytes) h = (ground arith, (ground arith, hex-Lacks c bytes h))

hex-pairs : (s : Text) → is_hex_pairs s ≡ true → hex (from_hex s) ≡ s
unfolding hex from_hex is_hex_pairs
hex-pairs [] h = refl
hex-pairs (a ∷ []) h = cc h
hex-pairs (a ∷ b ∷ s) h =
    let v = digit_of_hex a * 16 + digit_of_hex b in
    let e₁ : hex_digit (v / 16) ≡ a = ground arith in
    let e₂ : hex_digit (v % 16) ≡ b = ground arith in rw (e₁, e₂, hex-pairs s (ground arith))

-- Lower-case pairs of digits are the print of the bytes that they spell.
pub hex-from_hex : (s : Text) → is_hex s ≡ true → hex (from_hex s) ≡ s
unfolding is_hex
hex-from_hex [] h = cc h
hex-from_hex (a ∷ s) h = hex-pairs (a ∷ s) h
