-- ===== src/Python/Decimal.antt =====
-- `str(n)` and `int(text)` for decimal integers.
pub mod Canonical
use mathlib.Core.List.{foldl, foldl-append}
use mumu_autotask.Prelude.{
  ℕ, zero, suc, ◌+◌, ◌-◌, ◌*◌, ◌/◌, ◌%◌, ◌≤◌, ◌<◌, ◌≡◌, ◌≢◌, refl, sym, ap, ◌∙◌, Bool, true, false,
  not, ◌&&◌, ◌||◌, List, [], ◌∷◌, ◌++◌, arith, ltb, leb, ◌==◌, if◌then◌else◌, Bool-cases, inl, inr,
  Result, ok, err, digits_error, length, length-append, append_assoc, All, All-append,
}
use mumu_autotask.Python.Value.{Text}
use mumu_autotask.Python.Text.{lit}

abbrev pub digit : ℕ → ℕ
digit d = b'0' + d

-- The digits of `n`; one unit of fuel is used for each digit.
digits_of : ℕ → ℕ → Text
digits_of zero n = []
digits_of (suc f) n =
    let rest = digits_of f (n / 10) in
    if ltb n 10 then digit n ∷ [] else rest ++ (digit (n % 10) ∷ [])

-- `str(n)`; `n` has fewer than `n + 1` digits, so that the fuel is enough.
unfoldable pub str_of : ℕ → Text
unfolding digits_of
str_of n = digits_of (suc n) n

digits_of_fuel : (f g n : ℕ) → n < f → n < g → digits_of f n ≡ digits_of g n
unfolding digits_of
digits_of_fuel zero g n h k = absurd (omega arith)
digits_of_fuel (suc f) zero n h k = absurd (omega arith)
digits_of_fuel (suc f) (suc g) n h k = ground (arith, digits_of_fuel f g (n / 10))

pub str_of_small : (n : ℕ) → n < 10 → str_of n ≡ digit n ∷ []
unfolding str_of
str_of_small n h = ground arith

pub str_of-snoc : (m d : ℕ) → 0 < m → d < 10 → str_of (m * 10 + d) ≡ str_of m ++ (digit d ∷ [])
unfolding str_of
str_of-snoc m d hm hd =
    let q : (m * 10 + d) / 10 ≡ m = omega arith in
    let r : (m * 10 + d) % 10 ≡ d = omega arith in
    ground (arith, digits_of_fuel (m * 10 + d) (suc m) m, q, r)

unfoldable pub is_digit : ℕ → Bool
is_digit c = leb b'0' c && leb c b'9'

unfoldable pub all_digits : Text → Bool
all_digits [] = true
all_digits (c ∷ s) = is_digit c && all_digits s

-- `re.compile(r"0|[1-9][0-9]*\Z").fullmatch(text) is not None`
unfoldable pub is_canonical : Text → Bool
unfolding is_digit all_digits
is_canonical [] = false
is_canonical (c ∷ []) = is_digit c
is_canonical (c ∷ d ∷ s) = leb b'1' c && leb c b'9' && all_digits (d ∷ s)

-- The number that digits spell behind `n`.
unfoldable pub value_from : ℕ → Text → ℕ
value_from n [] = n
value_from n (c ∷ s) = value_from (n * 10 + (c - b'0')) s

-- `int(text)` of decimal digits; Python refuses more than 4300 of them.
abbrev pub max_str_digits : ℕ
max_str_digits = 4300

unfoldable pub int_of : Text → Result ℕ
unfolding value_from
int_of s = if ltb max_str_digits (length s) then err digits_error else ok (value_from 0 s)

length-digits_of : (f n : ℕ) → length (digits_of f n) ≤ f
unfolding digits_of
length-digits_of zero n = omega arith
length-digits_of (suc f) n =
    ground (
      arith,
      length-digits_of f (n / 10),
      length-append (digits_of f (n / 10)) (digit (n % 10) ∷ []),
    )

-- A number has at most one digit more than its value.
pub length-str_of : (n : ℕ) → length (str_of n) ≤ suc n
unfolding str_of
length-str_of n = length-digits_of (suc n) n
