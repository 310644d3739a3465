-- ===== src/Python/Collect.antt =====
-- A loop that checks each value, refuses one that it has seen, and appends the others to its result.
use mumu_autotask.Prelude.{
  ◌≡◌, ◌≢◌, ◌↔◌, refl, sym, ap, ◌∙◌, inl, inr, Bool, true, false, ◌||◌, List, [], ◌∷◌, ◌++◌, String,
  Result, ok, ◌>>=◌, ◌>>◌, >>=-eq-ok, raise_if, traverse, traverse-cons, arith, Bool-cases, All,
  append-nil, append_assoc,
}

-- No element stands twice.
abbrev pub Distinct {ℓ} : {A : Type ℓ} → List A → Type ℓ
Distinct {A} [] = Unit
Distinct {A} (x ∷ xs) = All (λ y. x ≢ y) xs × Distinct xs

module _ {ℓ} {A : Type ℓ} (eqb : A → A → Bool) where
  -- `a in xs`
  unfoldable pub member : A → List A → Bool
  member a [] = false
  member a (x ∷ xs) = eqb a x || member a xs

  -- Each element is seen for the first time.
  abbrev pub Fresh : List A → List A → Type 0
  Fresh seen [] = Unit
  Fresh seen (x ∷ xs) = (member x seen ≡ false) × Fresh (x ∷ seen) xs

module _ {ℓ κ} {V : Type ℓ} {A : Type κ} (eqb : A → A → Bool) (check : V → Result A)
    (duplicated : String) where
  unfoldable pub collect : List V → List A → List A → Result (List A)
  collect [] seen result = ok result
  collect (v ∷ vs) seen result = do
    a ← check v
    raise_if (member eqb a seen) duplicated
    collect vs (a ∷ seen) (result ++ (a ∷ []))

  pub collect-ok :
      (vs : List V) (seen result as' : List A)
      → traverse check vs ≡ ok as'
      → Fresh eqb seen as'
      → collect vs seen result ≡ ok (result ++ as')
  unfolding collect
  collect-ok [] seen result as' h f = ground (arith, append-nil result)
  collect-ok (v ∷ vs) seen result [] h f =
      let (a, rest, _, _, e) = traverse-cons check v vs [] h in cc
  collect-ok (v ∷ vs) seen result (a ∷ as') h (new, f) =
      let (b, rest, checked, all, e) = traverse-cons check v vs (a ∷ as') h in
      let is_a : check v ≡ ok a = cc in
      let is_rest : traverse check vs ≡ ok as' = cc in
      rw (
        is_a,
        new,
        collect-ok vs (a ∷ seen) (result ++ (a ∷ [])) as' is_rest f,
        append_assoc result (a ∷ []) as',
      )

  pub collect-eq-ok :
      (vs : List V) (seen result out : List A)
      → collect vs seen result ≡ ok out
      → (as' : List A) × (traverse check vs ≡ ok as') × Fresh eqb seen as' × (out ≡ result ++ as')
  unfolding collect
  collect-eq-ok [] seen result out h = ([], refl, tt, ground (arith, append-nil result))
  collect-eq-ok (v ∷ vs) seen result out h =
      let (a, checked, h') = >>=-eq-ok (check v) _ h in
      let (_, raised, h'') = >>=-eq-ok (raise_if (member eqb a seen) duplicated) _ h' in
      let (rest, all, fresh, e) = collect-eq-ok vs (a ∷ seen) (result ++ (a ∷ [])) out h'' in
      (a ∷ rest, rw (checked, all), (ground arith, fresh), e ∙ append_assoc result (a ∷ []) rest)

-- `Fresh` by a test that decides equality says that no element stands twice, or was seen before.
module _ {ℓ} {A : Type ℓ} (eqb : A → A → Bool) (sound : (a b : A) → eqb a b ≡ true → a ≡ b)
    (complete : (a : A) → eqb a a ≡ true) where
  eqb_ne : (a b : A) → a ≢ b → eqb a b ≡ false
  eqb_ne a b h = elim (Bool-cases (eqb a b)) [ inl e ↦ absurd (h (sound a b e)) | inr e ↦ e ]

  ne_of_eqb : (a b : A) → eqb a b ≡ false → a ≢ b
  ne_of_eqb a b h e = cc (complete a, h, ap (eqb a) e)

  pub not_member-All : (a : A) (xs : List A) → member eqb a xs ≡ false → All (λ y. a ≢ y) xs
  unfolding member
  not_member-All a [] h = tt
  not_member-All a (x ∷ xs) h = (ne_of_eqb a x (ground arith), not_member-All a xs (ground arith))

  pub All-not_member : (a : A) (xs : List A) → All (λ y. a ≢ y) xs → member eqb a xs ≡ false
  unfolding member
  All-not_member a [] h = refl
  All-not_member a (x ∷ xs) (n, h) = rw (eqb_ne a x n, All-not_member a xs h)

  -- The elements are none of those seen.
  abbrev Unseen : List A → List A → Type ℓ
  Unseen seen xs = All (λ x. All (λ y. x ≢ y) seen) xs

  Unseen-cons :
      (x : A) (seen xs : List A) → Unseen (x ∷ seen) xs → All (λ y. x ≢ y) xs × Unseen seen xs
  Unseen-cons x seen [] h = (tt, tt)
  Unseen-cons x seen (y ∷ ys) ((n, u), h) =
      let (all, rest) = Unseen-cons x seen ys h in ((λ e. n (sym e), all), (u, rest))

  cons-Unseen :
      (x : A) (seen xs : List A) → All (λ y. x ≢ y) xs → Unseen seen xs → Unseen (x ∷ seen) xs
  cons-Unseen x seen [] h u = tt
  cons-Unseen x seen (y ∷ ys) (n, h) (u, us) = ((λ e. n (sym e), u), cons-Unseen x seen ys h us)

  Fresh-Unseen : (seen xs : List A) → Fresh eqb seen xs → Distinct xs × Unseen seen xs
  Fresh-Unseen seen [] h = (tt, tt)
  Fresh-Unseen seen (x ∷ xs) (new, h) =
      let (distinct, unseen) = Fresh-Unseen (x ∷ seen) xs h in
      let (all, rest) = Unseen-cons x seen xs unseen in
      ((all, distinct), (not_member-All x seen new, rest))

  Unseen-Fresh : (seen xs : List A) → Distinct xs → Unseen seen xs → Fresh eqb seen xs
  Unseen-Fresh seen [] d u = tt
  Unseen-Fresh seen (x ∷ xs) (all, d) (n, u) =
      (All-not_member x seen n, Unseen-Fresh (x ∷ seen) xs d (cons-Unseen x seen xs all u))

  none_seen : (xs : List A) → Unseen [] xs
  none_seen [] = tt
  none_seen (x ∷ xs) = (tt, none_seen xs)

  pub Fresh-iff : (xs : List A) → Fresh eqb [] xs ↔ Distinct xs
  Fresh-iff xs = (λ f. (Fresh-Unseen [] xs f).0, λ d. Unseen-Fresh [] xs d (none_seen xs))
