-- ===== src/Business/Wire/Numbers.antt =====
-- Which texts `_parse_integer` accepts.
use mumu_autotask.Prelude.{ℕ, ◌≤◌, ◌<◌, ◌≡◌, ◌↔◌, ◌⊎◌, Bool, true, length, ok, arith}
use mumu_autotask.Python.Value.{Text}
use mumu_autotask.Python.Decimal.{str_of, int_of, max_str_digits}
use mumu_autotask.Python.Decimal.Canonical.{str_of-value, is_canonical-str_of, value-str_of}
use mumu_autotask.Business.Wire.{parse_integer}

-- The printed number fits Python's limit, and is positive where zero is not allowed.
abbrev pub Readable : Bool → ℕ → Type 0
Readable allow_zero n = (length (str_of n) ≤ max_str_digits) × ((allow_zero ≡ true) ⊎ (0 < n))

pub parse_integer_sound :
    (value : Text) (allow_zero : Bool) (n : ℕ)
    → parse_integer value allow_zero ≡ ok n
    → (value ≡ str_of n) × Readable allow_zero n
unfolding parse_integer int_of
parse_integer_sound value allow_zero n h =
    let e : value ≡ str_of n = ground (arith, str_of-value value) in
    let fits : length value ≤ max_str_digits = ground arith in (e, (rw e at fits, ground arith))

-- A number that is printed, fits the limit and is positive where it must be is read back.
pub parse_integer-str_of :
    (n : ℕ) (allow_zero : Bool) → Readable allow_zero n → parse_integer (str_of n) allow_zero ≡ ok n
unfolding parse_integer int_of
parse_integer-str_of n allow_zero h = ground (arith, is_canonical-str_of n, value-str_of n)

-- `_parse_integer` returns `n` exactly on the text that `str` prints for `n`, if that has at most
-- 4300 digits, and if zero is allowed or `n` is positive.
pub parse_integer_iff :
    (value : Text) (allow_zero : Bool) (n : ℕ)
    → (parse_integer value allow_zero ≡ ok n) ↔ ((value ≡ str_of n) × Readable allow_zero n)
parse_integer_iff value allow_zero n =
    (parse_integer_sound value allow_zero n, λ (e, h). rw e (parse_integer-str_of n allow_zero h))
