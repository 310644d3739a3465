-- ===== src/Python/Decimal/Canonical.antt =====
-- The canonical decimal texts are those that `str` prints.
use mumu_autotask.Prelude.{
  ℕ, zero, suc, ◌+◌, ◌-◌, ◌*◌, ◌/◌, ◌%◌, ◌<◌, ◌≡◌, ◌≢◌, refl, sym, ap, true, [], ◌∷◌, ◌++◌, arith,
  ltb, Bool-cases, inl, inr, append_assoc, append-nil,
}
use mumu_autotask.Python.Value.{Text}
use mumu_autotask.Python.Text.{Lacks}
use mumu_autotask.Python.Decimal.{
  digit, str_of, str_of_small, str_of-snoc, is_digit, all_digits, is_canonical, value_from,
}

str_of-value_from :
    (s : Text) (m : ℕ) → 0 < m → all_digits s ≡ true → str_of (value_from m s) ≡ str_of m ++ s
unfolding all_digits is_digit value_from
str_of-value_from [] m h k = sym (append-nil (str_of m))
str_of-value_from (c ∷ s) m h k = ground (
  arith,
  str_of-value_from s (m * 10 + (c - b'0')),
  str_of-snoc m (c - b'0') h,
  append_assoc (str_of m) (c ∷ []) s,
)

-- A canonical text is what `str` prints for the number that it spells.
pub str_of-value : (s : Text) → is_canonical s ≡ true → str_of (value_from 0 s) ≡ s
unfolding is_canonical value_from
str_of-value [] h = cc
str_of-value (c ∷ []) h = ground (arith, str_of_small (c - b'0'))
str_of-value (c ∷ d ∷ s) h =
    ground (arith, str_of_small (c - b'0'), str_of-value_from (d ∷ s) (c - b'0'))

value_from-snoc :
    (s : Text) (m c : ℕ) → value_from m (s ++ (c ∷ [])) ≡ value_from m s * 10 + (c - b'0')
unfolding value_from
value_from-snoc [] m c = refl
value_from-snoc (x ∷ s) m c = value_from-snoc s (m * 10 + (x - b'0')) c

all_digits-snoc :
    (s : Text) (d : ℕ) → d < 10 → all_digits s ≡ true → all_digits (s ++ (digit d ∷ [])) ≡ true
unfolding all_digits is_digit
all_digits-snoc [] d h k = ground arith
all_digits-snoc (c ∷ s) d h k = ground (arith, all_digits-snoc s d h)

is_canonical-snoc :
    (s : Text) (d : ℕ)
    → d < 10
    → 0 < value_from 0 s
    → is_canonical s ≡ true
    → is_canonical (s ++ (digit d ∷ [])) ≡ true
unfolding is_canonical value_from
is_canonical-snoc [] d h v k = cc
is_canonical-snoc (c ∷ []) d h v k = ground arith
is_canonical-snoc (c ∷ e ∷ s) d h v k = ground (arith, all_digits-snoc (e ∷ s) d h)

record Prints (n : ℕ) : Type 0 where
  canonical : is_canonical (str_of n) ≡ true
  value : value_from 0 (str_of n) ≡ n

Prints-small : (n : ℕ) → n < 10 → Prints n
Prints-small n h = record {
  canonical = rw (str_of_small n h) (unfold is_canonical in ground arith);
  value = rw (str_of_small n h) (unfold value_from in omega arith);
}

Prints-snoc : (m d : ℕ) → 0 < m → d < 10 → Prints m → Prints (m * 10 + d)
Prints-snoc m d hm hd p = record {
  canonical =
      rw (str_of-snoc m d hm hd)
        (is_canonical-snoc (str_of m) d hd (omega (arith, p.value)) p.canonical);
  value = rw (str_of-snoc m d hm hd, value_from-snoc (str_of m) 0 (digit d), p.value) (omega arith);
}

Prints-fuel : (f n : ℕ) → n < f → Prints n
Prints-fuel zero n h = absurd (omega arith)
Prints-fuel (suc f) n h = elim (Bool-cases (ltb n 10)) [
  | inl small ↦ Prints-small n (ground arith)
  | inr large ↦
      let e : n / 10 * 10 + n % 10 ≡ n = omega arith in
      rw e at (
        Prints-snoc (n / 10) (n % 10) (ground arith) (omega arith)
          (Prints-fuel f (n / 10) (ground arith)))
]

pub is_canonical-str_of : (n : ℕ) → is_canonical (str_of n) ≡ true
is_canonical-str_of n = (Prints-fuel (suc n) n (omega arith)).canonical

pub value-str_of : (n : ℕ) → value_from 0 (str_of n) ≡ n
value-str_of n = (Prints-fuel (suc n) n (omega arith)).value

all_digits-Lacks : (b : ℕ) (s : Text) → b < b'0' → all_digits s ≡ true → Lacks b s
unfolding all_digits is_digit
all_digits-Lacks b [] h k = tt
all_digits-Lacks b (c ∷ s) h k = (ground arith, all_digits-Lacks b s h (ground arith))

canonical-digits : (s : Text) → is_canonical s ≡ true → all_digits s ≡ true
unfolding is_canonical
canonical-digits [] h = cc
canonical-digits (c ∷ []) h = ground arith
canonical-digits (c ∷ d ∷ s) h = ground arith

-- A printed number holds no character below the digits, such as a tab or a line break.
pub str_of-Lacks : (b n : ℕ) → b < b'0' → Lacks b (str_of n)
str_of-Lacks b n h = all_digits-Lacks b (str_of n) h (canonical-digits _ (is_canonical-str_of n))

pub str_of-ne-nil : (n : ℕ) → str_of n ≢ []
unfolding is_canonical
str_of-ne-nil n e = cc (is_canonical-str_of n, ap is_canonical e)
