-- ===== src/Business/Roles/Whitelist.antt =====
-- Which whitelists `validate_role_whitelist` accepts.
use mumu_autotask.Prelude.{
  ℕ, ◌≤◌, ◌≡◌, ◌≢◌, ◌↔◌, refl, ap, Bool, false, List, [], ◌∷◌, map, length, ok, >>=-eq-ok,
  traverse-map, traverse-eq-ok, arith, All,
}
use mumu_autotask.Python.Value.{Text, Value, str, items}
use mumu_autotask.Python.Text.{any, same, same→eq, same_refl}
use mumu_autotask.Python.Unicode.{encode}
use mumu_autotask.Python.Collect.{collect, collect-ok, collect-eq-ok, Distinct, Fresh-iff}
use mumu_autotask.Business.Roles.{is_control, check_role, validate_role_whitelist}

any-false : (p : ℕ → Bool) (s : Text) → any p s ≡ false → All (λ c. p c ≡ false) s
unfolding any
any-false p [] h = tt
any-false p (c ∷ s) h = (ground arith, any-false p s (ground arith))

false-any : (p : ℕ → Bool) (s : Text) → All (λ c. p c ≡ false) s → any p s ≡ false
unfolding any
false-any p [] h = refl
false-any p (c ∷ s) (hc, hs) = rw (hc, false-any p s hs)

-- Not empty, encoded in at most 64 bytes, and without control characters.
pub record IsRole (role : Text) : Type 0 where
  pub bytes : List ℕ
  pub encoded : encode role ≡ ok bytes
  pub fits : length bytes ≤ 64
  pub not_empty : role ≢ []
  pub printable : All (λ c. (32 ≤ c) × (c ≢ 127)) role

printable-controls :
    (s : Text) → All (λ c. (32 ≤ c) × (c ≢ 127)) s → All (λ c. is_control c ≡ false) s
printable-controls [] h = tt
printable-controls (c ∷ s) (hc, hs) = (ground arith, printable-controls s hs)

controls-printable :
    (s : Text) → All (λ c. is_control c ≡ false) s → All (λ c. (32 ≤ c) × (c ≢ 127)) s
controls-printable [] h = tt
controls-printable (c ∷ s) (hc, hs) = ((ground arith, ground arith), controls-printable s hs)

check_role_sound : (v : Value) (role : Text) → check_role v ≡ ok role → (v ≡ str role) × IsRole role
unfolding check_role
check_role_sound (str []) role h = cc
check_role_sound (str (c ∷ s)) role h =
    let (bytes, encoded, h') = >>=-eq-ok (encode (c ∷ s)) _ h in
    let e : c ∷ s ≡ role = ground arith in
    (
      ap str e,
      rw e at (
          let r : IsRole (c ∷ s) = record {
            bytes = bytes;
            encoded = encoded;
            fits = ground arith;
            not_empty = λ p. cc p;
            printable = controls-printable (c ∷ s) (any-false is_control (c ∷ s) (ground arith));
          } in
          r),
    )
check_role_sound _ role h = cc

check_role-str : (role : Text) → IsRole role → check_role (str role) ≡ ok role
unfolding check_role
check_role-str [] r = absurd (r.not_empty refl)
check_role-str (c ∷ s) r =
    rw (r.encoded, false-any is_control (c ∷ s) (printable-controls (c ∷ s) r.printable))
      (ground (arith, r.fits))

-- What a whitelist is: at most 16 different roles.
pub record IsWhitelist (roles : List Text) : Type 0 where
  pub each : All IsRole roles
  pub distinct : Distinct roles
  pub few : length roles ≤ 16

IsWhitelist-sound :
    (vs : List Value) (roles : List Text)
    → validate_role_whitelist (items vs) ≡ ok roles
    → (vs ≡ map str roles) × IsWhitelist roles
unfolding validate_role_whitelist
IsWhitelist-sound vs roles h =
    let (result, collected, h') = >>=-eq-ok (collect _ check_role _ vs [] []) _ h in
    let (found, checked, fresh, e) = collect-eq-ok same check_role _ vs [] [] result collected in
    let is_found : found ≡ roles = ground arith in
    let (written, each) =
      traverse-eq-ok IsRole check_role str check_role_sound vs roles (rw is_found at checked) in
    (
      written,
      record {
        each = each;
        distinct = rw is_found at ((Fresh-iff same same→eq same_refl found).0 fresh);
        few = ground arith;
      },
    )

whitelist_complete :
    (roles : List Text)
    → IsWhitelist roles
    → validate_role_whitelist (items (map str roles)) ≡ ok roles
unfolding validate_role_whitelist
whitelist_complete roles w =
    rw
      (collect-ok same check_role _ (map str roles) [] [] roles
        (traverse-map IsRole check_role str check_role-str roles w.each)
        ((Fresh-iff same same→eq same_refl roles).1 w.distinct))
      (ground (arith, w.few))

-- `validate_role_whitelist` accepts a sequence exactly if it holds at most 16 different texts, each
-- of them not empty, of at most 64 UTF-8 bytes and without control characters, and returns them in
-- their order.
pub validate_role_whitelist_iff :
    (vs : List Value) (roles : List Text)
    → (validate_role_whitelist (items vs) ≡ ok roles) ↔ ((vs ≡ map str roles) × IsWhitelist roles)
validate_role_whitelist_iff vs roles =
    (IsWhitelist-sound vs roles, λ (e, w). rw e (whitelist_complete roles w))
