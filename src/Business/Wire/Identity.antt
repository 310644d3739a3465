-- ===== src/Business/Wire/Identity.antt =====
-- Which ROLE and KINGDOM fields are accepted.
use mathlib.Core.List.{Memᴰ}
use mathlib.Core.List.Memᴰ.{head, tail}
use mumu_autotask.Prelude.{
  ℕ, ◌≡◌, ◌≢◌, ◌↔◌, ◌⊎◌, inl, inr, refl, sym, ap, true, false, not, ◌&&◌, List, [], ◌∷◌, map,
  Option, none, some, arith, is_empty, String, ok, >>=-eq-ok, raise_if-eq-ok, Bool-cases,
}
use mumu_autotask.Python.Value.{Text, str, items}
use mumu_autotask.Python.Text.{lit, same, same→eq, same_refl, same_fields}
use mumu_autotask.Python.Decimal.{str_of}
use mumu_autotask.Python.Unicode.{encode, decode}
use mumu_autotask.Python.Unicode.RoundTrip.{decode-encode, encode-bytes, encode-ne-nil}
use mumu_autotask.Python.Unicode.Inverse.{encode-decode}
use mumu_autotask.Python.Hex.{hex, is_hex, from_hex, from_hex-hex, is_hex-hex, hex-from_hex}
use mumu_autotask.Python.Collect.{member}
use mumu_autotask.Business.Roles.{validate_role_whitelist}
use mumu_autotask.Business.Roles.Whitelist.{IsWhitelist, validate_role_whitelist_iff}
use mumu_autotask.Business.Wire.{or_fail, has_tag, parse_role, parse_kingdom_line}
use mumu_autotask.Business.Wire.Numbers.{Readable, parse_integer-str_of}

mem-member : (a : Text) (xs : List Text) → Memᴰ a xs → member same a xs ≡ true
unfolding member
mem-member a [] m = elim m [ ]
mem-member a (x ∷ xs) (head e) = rw e (rw (same_refl x))
mem-member a (x ∷ xs) (tail m) = ground (arith, mem-member a xs m)

member-mem : (a : Text) (xs : List Text) → member same a xs ≡ true → Memᴰ a xs
unfolding member
member-mem a [] h = cc h
member-mem a (x ∷ xs) h = elim (Bool-cases (same a x)) [
  | inl e ↦ head (same→eq a x e)
  | inr e ↦ tail (member-mem a xs (ground arith))
]

-- The role is in the whitelist, or the whitelist is empty.
abbrev pub Allowed : List Text → Text → Type 0
Allowed roles role = (roles ≡ []) ⊎ Memᴰ role roles

-- `value` spells the UTF-8 bytes of `role`, which is not empty and allowed.
pub record Names (roles : List Text) (role : Text) (value : Text) : Type 0 where
  pub bytes : List ℕ
  pub encoded : encode role ≡ ok bytes
  pub written : value ≡ hex bytes
  pub not_empty : role ≢ []
  pub allowed : Allowed roles role

nil_not_hex :
    (role : Text) (value : Text)
    → is_hex value ≡ true
    → encode role ≡ ok (from_hex value)
    → role ≢ []
nil_not_hex role value h encoded e =
    let no_bytes : from_hex value ≡ [] = unfold encode in cc (encoded, ap encode e) in
    unfold hex is_hex in cc (ap hex no_bytes, ap is_hex (hex-from_hex value h), h)

pass-Allowed :
    (roles : List Text) (role : Text)
    → (not (is_empty roles) && not (member same role roles)) ≡ false
    → Allowed roles role
pass-Allowed [] role h = inl refl
pass-Allowed (r ∷ roles) role h = inr (member-mem role (r ∷ roles) (ground arith))

Allowed-pass :
    (roles : List Text) (role : Text)
    → Allowed roles role
    → (not (is_empty roles) && not (member same role roles)) ≡ false
Allowed-pass roles role (inl none_given) = rw none_given
Allowed-pass roles role (inr m) = rw (mem-member role roles m) (ground arith)

or_fail-eq-ok {ℓ} :
    {A : Type ℓ} (o : Option A) (message : String) {a : A} → or_fail o message ≡ ok a → o ≡ some a
or_fail-eq-ok none message h = cc h
or_fail-eq-ok (some b) message h = cc h

parse_role_sound :
    (value : Text) (roles : List Text) (role : Text)
    → IsWhitelist roles
    → parse_role value (items (map str roles)) ≡ ok role
    → Names roles role value
unfolding parse_role
parse_role_sound value roles role w h =
    let valid = (validate_role_whitelist_iff (map str roles) roles).1 (refl, w) in
    let (pairs, h₁) = raise_if-eq-ok (not (is_hex value)) _ _ h in
    let (r, decoded, h₂) = >>=-eq-ok (or_fail (decode (from_hex value)) _) _ h₁ in
    let (rs, validated, h₃) = >>=-eq-ok (validate_role_whitelist _) _ h₂ in
    let (pass, h₄) = raise_if-eq-ok (not (is_empty rs) && not (member same r rs)) _ _ h₃ in
    let is_role : r ≡ role = cc h₄ in
    let is_roles : rs ≡ roles = cc (validated, valid) in
    let is_value : is_hex value ≡ true = ground arith in
    let encoded = encode-decode r (from_hex value) (or_fail-eq-ok _ _ decoded) in
    rw is_role at (
      let n : Names roles r value = record {
        bytes = from_hex value;
        encoded = encoded;
        written = sym (hex-from_hex value is_value);
        not_empty = nil_not_hex r value is_value encoded;
        allowed = rw is_roles at (pass-Allowed rs r pass);
      } in
      n)

pub parse_role-hex :
    (value : Text) (roles : List Text) (role : Text)
    → IsWhitelist roles
    → Names roles role value
    → parse_role value (items (map str roles)) ≡ ok role
unfolding parse_role
parse_role-hex value roles role w n =
    let small = encode-bytes role n.bytes n.encoded in
    let pairs = is_hex-hex n.bytes small (encode-ne-nil role n.bytes n.not_empty n.encoded) in
    let valid = (validate_role_whitelist_iff (map str roles) roles).1 (refl, w) in
    rw n.written (
      rw (
        pairs,
        from_hex-hex n.bytes small,
        decode-encode role n.bytes n.encoded,
        valid,
        Allowed-pass roles role n.allowed,
      ))

-- For a valid whitelist, `_parse_role` returns `role` exactly on the lower-case hexadecimal print of
-- the UTF-8 bytes of `role`, if `role` is not empty, and is in the whitelist or the whitelist is
-- empty.
pub parse_role_iff :
    (value : Text) (roles : List Text) (role : Text)
    → IsWhitelist roles
    → (parse_role value (items (map str roles)) ≡ ok role) ↔ Names roles role value
parse_role_iff value roles role w =
    (parse_role_sound value roles role w, parse_role-hex value roles role w)

same_pair : (a b : Text) → same_fields (a ∷ b ∷ []) (a ∷ b ∷ []) ≡ true
unfolding same_fields
same_pair a b = rw (same_refl a, same_refl b)

-- A KINGDOM line with a positive number is read back.
pub parse_kingdom_line-ok :
    (kingdom : ℕ)
    → Readable false kingdom
    → parse_kingdom_line (lit "KINGDOM" ∷ str_of kingdom ∷ []) ≡ ok kingdom
unfolding parse_kingdom_line has_tag
parse_kingdom_line-ok kingdom h =
    rw (same_refl (lit "KINGDOM"), parse_integer-str_of kingdom false h)
