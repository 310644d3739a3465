-- ===== src/Hunt/Receipts/Reads.antt =====
-- What the fields of an accepted answer say.
use mumu_autotask.Prelude.{
  ℕ, zero, suc, ◌<◌, ◌≡◌, ◌⊎◌, refl, sym, ap, ◌∙◌, inl, inr, true, false, List, Option, none, some,
  ◌==◌, ==_iff, length, arith, Bool-cases, String, ok, >>=-cases, refuse_if-cases, ok-injective,
  not-false,
}
use mumu_autotask.Python.Value.{Text, pos, negsuc}
use mumu_autotask.Python.Text.{lit, same→eq}
use mumu_autotask.Hunt.Target.{or_raise, or_raise-ok}
use mumu_autotask.Hunt.Json.{
  Json, null, bool, int, float, str, array, object, Elements, Members, get, to_list, equals, is_str,
  is_true,
}
use mumu_autotask.Hunt.Receipts.{
  positive_kingdom, is_unexpected, validate_payload_kingdom, is_other_role, statuses_of, as_mapping,
}

pub is_str-eq : (j : Json) (t : Text) → is_str j t ≡ true → j ≡ str t
unfolding is_str
is_str-eq (str s) t h = ap str (same→eq s t h)
is_str-eq null t h = cc h
is_str-eq (bool b) t h = cc h
is_str-eq (int n) t h = cc h
is_str-eq (float n) t h = cc h
is_str-eq (array xs) t h = cc h
is_str-eq (object fields) t h = cc h

pub is_true-eq : (j : Json) → is_true j ≡ true → j ≡ bool true
is_true-eq (bool true) h = refl
is_true-eq (bool false) h = cc h
is_true-eq null h = cc h
is_true-eq (int n) h = cc h
is_true-eq (float n) h = cc h
is_true-eq (str s) h = cc h
is_true-eq (array xs) h = cc h
is_true-eq (object fields) h = cc h

-- A kingdom is in the answer, and is the expected one if there is one.
abbrev pub HasKingdom : Members → Option ℕ → Type 0
HasKingdom payload expected =
    (k : ℕ) × (get (lit "kingdom") payload ≡ int (pos k))
    × (0 < k)
    × ((expected ≡ none) ⊎ (expected ≡ some k))

-- The answer names the role, if one is expected.
abbrev pub HasRole : Members → Option Text → Type 0
HasRole payload expected =
    (role : Text) → expected ≡ some role → get (lit "role") payload ≡ str role

pub positive_kingdom-some :
    (j : Json) (k : ℕ) → positive_kingdom j ≡ some k → (j ≡ int (pos k)) × (0 < k)
unfolding positive_kingdom
positive_kingdom-some (int (pos (suc n))) k h = let e : suc n ≡ k = cc h in (cc e, omega (arith, e))
positive_kingdom-some (int (pos zero)) k h = absurd (cc h)
positive_kingdom-some (int (negsuc n)) k h = absurd (cc h)
positive_kingdom-some null k h = absurd (cc h)
positive_kingdom-some (bool b) k h = absurd (cc h)
positive_kingdom-some (float n) k h = absurd (cc h)
positive_kingdom-some (str s) k h = absurd (cc h)
positive_kingdom-some (array xs) k h = absurd (cc h)
positive_kingdom-some (object fields) k h = absurd (cc h)

pub is_unexpected-eq :
    (expected : Option ℕ) (k : ℕ)
    → is_unexpected expected k ≡ false
    → (expected ≡ none) ⊎ (expected ≡ some k)
is_unexpected-eq none k h = inl refl
is_unexpected-eq (some n) k h = let e : k ≡ n = (==_iff k n).0 (not-false h) in inr (cc e)

pub validate_payload_kingdom-HasKingdom :
    (payload : Members) (expected : Option ℕ) (k : ℕ)
    → validate_payload_kingdom payload expected ≡ ok k
    → HasKingdom payload expected
unfolding validate_payload_kingdom
validate_payload_kingdom-HasKingdom payload expected k h =
    >>=-cases (or_raise (positive_kingdom (get (lit "kingdom") payload)) _) _ h λ n found h₁.
      refuse_if-cases (is_unexpected expected n) _ _ h₁ λ agrees _.
        let (e, positive) = positive_kingdom-some _ n (or_raise-ok _ _ n found) in
        (n, e, positive, is_unexpected-eq expected n agrees)

pub is_other_role-HasRole :
    (expected : Option Text) (payload : Members)
    → is_other_role expected payload ≡ false
    → HasRole payload expected
unfolding is_other_role
is_other_role-HasRole none payload h role e = cc e
is_other_role-HasRole (some r) payload h role e =
    let same_role : r ≡ role = cc e in is_str-eq _ r (not-false h) ∙ ap str same_role

pub statuses_of-array :
    (message : String) (ids : List ℕ) (j : Json) (values : List Json)
    → statuses_of message ids j ≡ ok values
    → ((es : Elements) × (j ≡ array es) × (values ≡ to_list es)) × (length values ≡ length ids)
unfolding statuses_of
statuses_of-array message ids (array es) values h =
    elim (Bool-cases (length (to_list es) == length ids)) [
      | inl e ↦
          let same_values = ok-injective (to_list es) values (rw e at h) in
          ((es, refl, sym same_values), ap length (sym same_values) ∙ (==_iff _ _).0 e)
      | inr e ↦ absurd (cc (rw e at h))
    ]
statuses_of-array message ids null values h = absurd (cc h)
statuses_of-array message ids (bool b) values h = absurd (cc h)
statuses_of-array message ids (int n) values h = absurd (cc h)
statuses_of-array message ids (float n) values h = absurd (cc h)
statuses_of-array message ids (str s) values h = absurd (cc h)
statuses_of-array message ids (object fields) values h = absurd (cc h)

pub as_mapping-object :
    (message : String) (j : Json) (status : Members)
    → as_mapping message j ≡ ok status
    → j ≡ object status
unfolding as_mapping
as_mapping-object message (object fields) status h = ap object (ok-injective fields status h)
as_mapping-object message null status h = cc h
as_mapping-object message (bool b) status h = cc h
as_mapping-object message (int n) status h = cc h
as_mapping-object message (float n) status h = cc h
as_mapping-object message (str s) status h = cc h
as_mapping-object message (array xs) status h = cc h

-- A status of the target, in a state.
abbrev pub IsStatus : ℕ → Text → Json → Type 0
IsStatus id state j =
    (status : Members) × (j ≡ object status)
    × (equals (get (lit "runtime_id") status) id ≡ true)
    × (get (lit "state") status ≡ str state)
