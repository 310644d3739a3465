-- ===== src/Prelude/Results.antt =====
-- Errors as values. A raised `BusinessError` or `HuntBatchError` keeps the source text of its
-- message; what an f-string would fill in stays unfilled.
use Prim.Native.String.{String}
use Prim.Native.Nat.{suc}
use mathlib.Core.Path.{◌≡◌, refl, ap, ◌∙◌}
use mathlib.Core.Logic.{◌⊎◌, inl, inr}
use mathlib.Core.Bool.{Bool, true, false}
use mathlib.Core.List.{List, [], ◌∷◌, map}
use mumu_autotask.Prelude.Lists.{All, length}

pub data Error : Type 0 where
  -- `BusinessError(message)`
  business : String → Error
  -- `HuntBatchError(message)`
  hunt_batch : String → Error
  -- Python's own `KeyError`
  key_error : Error
  -- Python's own `UnicodeEncodeError`, on a surrogate
  unicode_error : Error
  -- Python's own `ValueError`, of `int` on more than 4300 digits
  digits_error : Error
  -- Python's own `TypeError`, of `int` on `None`, or of a list or mapping in a set
  type_error : Error

pub data Result {ℓ} (A : Type ℓ) : Type ℓ where
  ok : A → Result A
  err : Error → Result A

-- `raise BusinessError(message)`
abbrev pub fail {ℓ} : {A : Type ℓ} → String → Result A
fail message = err (business message)

-- `if condition: raise BusinessError(message)`
abbrev pub raise_if : Bool → String → Result (Unit {0})
raise_if true message = err (business message)
raise_if false message = ok tt

-- `if condition: raise HuntBatchError(message)`
abbrev pub refuse_if : Bool → String → Result (Unit {0})
refuse_if true message = err (hunt_batch message)
refuse_if false message = ok tt

-- The rest of a function runs if nothing was raised before it.
infixl 5 ◌>>=◌ ◌>>◌
abbrev pub ◌>>=◌ {ℓ κ} : {X : Type ℓ} {Y : Type κ} → Result X → (X → Result Y) → Result Y
err raised >>= rest = err raised
ok x >>= rest = rest x

abbrev pub ◌>>◌ {κ} : {Y : Type κ} → Result (Unit {0}) → Result Y → Result Y
check >> rest = check >>= λ _. rest

-- `[f(x) for x in xs]`, where `f` may raise
abbrev pub traverse {ℓ κ} : {A : Type ℓ} {B : Type κ} → (A → Result B) → List A → Result (List B)
traverse f [] = ok []
traverse f (x ∷ xs) = do y ← f x; ys ← traverse f xs; ok (y ∷ ys)

-- What ran before a bind that did not raise.
pub >>=-eq-ok {ℓ κ} :
    {X : Type ℓ} {Y : Type κ} (first : Result X) (rest : X → Result Y) {y : Y}
    → (first >>= rest) ≡ ok y
    → (x : X) × (first ≡ ok x) × (rest x ≡ ok y)
>>=-eq-ok (err raised) rest h = absurd (cc h)
>>=-eq-ok (ok x) rest h = (x, refl, h)

module _ {ℓ κ} {A : Type ℓ} {B : Type κ} (f : A → Result B) where
  pub traverse-cons :
      (x : A) (xs : List A) (ys : List B)
      → traverse f (x ∷ xs) ≡ ok ys
      → (y : B) × (rest : List B) × (f x ≡ ok y) × (traverse f xs ≡ ok rest) × (ys ≡ y ∷ rest)
  traverse-cons x xs ys h =
      let (y, e, h') = >>=-eq-ok (f x) _ h in
      let (rest, e', h'') = >>=-eq-ok (traverse f xs) _ h' in (y, rest, e, e', cc)

  -- One result for each element.
  pub length-traverse : (xs : List A) (ys : List B) → traverse f xs ≡ ok ys → length ys ≡ length xs
  length-traverse [] [] h = refl
  length-traverse [] (y ∷ ys) h = cc h
  length-traverse (x ∷ xs) ys h =
      let (y, rest, _, e, w) = traverse-cons x xs ys h in
      ap length w ∙ ap suc (length-traverse xs rest e)

module _ {ℓ κ μ} {A : Type ℓ} {B : Type κ} (P : B → Type μ) (f : A → Result B) (g : B → A) where
  -- If `f` reads what `g` writes, then `traverse f` reads what `map g` writes.
  pub traverse-map :
      ((b : B) → P b → f (g b) ≡ ok b) → (bs : List B) → All P bs → traverse f (map g bs) ≡ ok bs
  traverse-map h [] _ = refl
  traverse-map h (b ∷ bs) (p, ps) = rw (h b p, traverse-map h bs ps)

  -- If `f` reads nothing else, then neither does `traverse f`.
  pub traverse-eq-ok :
      ((a : A) (b : B) → f a ≡ ok b → (a ≡ g b) × P b)
      → (as' : List A) (bs : List B) → traverse f as' ≡ ok bs
      → (as' ≡ map g bs) × All P bs
  traverse-eq-ok h [] [] e = (refl, tt)
  traverse-eq-ok h [] (b ∷ bs) e = cc e
  traverse-eq-ok h (a ∷ as') [] e = let (_, _, _, _, e') = traverse-cons f a as' [] e in cc e'
  traverse-eq-ok h (a ∷ as') (b ∷ bs) e =
      let (c, cs, read, all, e') = traverse-cons f a as' (b ∷ bs) e in
      let (written, p) = h a b (cc (read, e')) in
      let (rest, ps) = traverse-eq-ok h as' bs (cc (all, e')) in (cc (written, rest), (p, ps))

-- Inversion of a guard that did not raise.
pub raise_if-eq-ok {ℓ} :
    {B : Type ℓ} (b : Bool) (message : String) (k : Result B) {r : B}
    → (raise_if b message >> k) ≡ ok r
    → (b ≡ false) × (k ≡ ok r)
raise_if-eq-ok true message k h = cc h
raise_if-eq-ok false message k h = (refl, h)

-- The same inversions, with the rest of a proof as a function of what was found.
pub >>=-cases {ℓ κ μ} :
    {A : Type ℓ} {B : Type κ} {C : Type μ} (m : Result A) (f : A → Result B) {b : B}
    → (m >>= f) ≡ ok b
    → ((a : A) → m ≡ ok a → f a ≡ ok b → C)
    → C
>>=-cases (ok a) f h k = k a refl h
>>=-cases (err e) f h k = absurd (cc h)

pub raise_if-cases {ℓ κ} :
    {B : Type ℓ} {C : Type κ} (b : Bool) (message : String) (k : Result B) {r : B}
    → (raise_if b message >> k) ≡ ok r
    → (b ≡ false → k ≡ ok r → C)
    → C
raise_if-cases true message k h c = absurd (cc h)
raise_if-cases false message k h c = c refl h

pub refuse_if-cases {ℓ κ} :
    {B : Type ℓ} {C : Type κ} (b : Bool) (message : String) (k : Result B) {r : B}
    → (refuse_if b message >> k) ≡ ok r
    → (b ≡ false → k ≡ ok r → C)
    → C
refuse_if-cases true message k h c = absurd (cc h)
refuse_if-cases false message k h c = c refl h

pub ok-injective {ℓ} : {A : Type ℓ} (a b : A) → ok a ≡ ok b → a ≡ b
ok-injective a b h = cc

pub Result-cases {ℓ} :
    {A : Type ℓ} (r : Result A) → ((a : A) × (r ≡ ok a)) ⊎ ((e : Error) × (r ≡ err e))
Result-cases (ok a) = inl (a, refl)
Result-cases (err e) = inr (e, refl)
