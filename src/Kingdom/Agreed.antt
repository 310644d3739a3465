-- ===== src/Kingdom/Agreed.antt =====
-- What `KingdomGuard.require` guarantees.
use mathlib.Core.Path.{subst}
use mumu_autotask.Prelude.{
  ◌≡◌, ◌⊎◌, inl, inr, refl, sym, ap, true, false, not, List, [], ◌∷◌, Option, none, some, ==_iff,
  arith, Result, ok, >>=-cases, raise_if-cases, ok-injective, not-false, Option-cases,
}
use mumu_autotask.Python.Value.{Text, ℤ, pos, negsuc}
use mumu_autotask.Python.Text.{same, same→eq}
use mumu_autotask.Python.Unicode.{strip}
use mumu_autotask.Kingdom.{
  Element, DeviceProfile, KingdomStatus, playerprefs_key, sdk_server_key, playerprefs_path,
  sdk_prefs_path, default_package, same_integer, named_elements, raw_value, integer_of,
  unique_integer, parse_unique_integer_preference, parse_playerprefs_kingdom, parse_sdk_server_id,
  read_status, is_other_kingdom, require,
}

same_integer→eq : (a b : ℤ) → same_integer a b ≡ true → a ≡ b
unfolding same_integer
same_integer→eq (pos a) (pos b) h = ap pos ((==_iff a b).0 h)
same_integer→eq (negsuc a) (negsuc b) h = ap negsuc ((==_iff a b).0 h)
same_integer→eq (pos a) (negsuc b) h = cc h
same_integer→eq (negsuc a) (pos b) h = cc h

module _ (parse_xml : Text → Option (List Element)) (read_int : Text → Option ℤ) where
  -- The document has exactly one element of the name, and it holds the number.
  pub record Holds (xml_text : Text) (key : Text) (n : ℤ) : Type 0 where
    pub elements : List Element
    pub element : Element
    pub parsed : parse_xml xml_text ≡ some elements
    pub unique : named_elements key elements ≡ element ∷ []
    pub number : read_int (strip (raw_value element)) ≡ some n

  one_integer :
      (found : List Element) (n : ℤ)
      → unique_integer parse_xml read_int found ≡ ok n
      → (element : Element) × (found ≡ element ∷ [])
        × (read_int (strip (raw_value element)) ≡ some n)
  unfolding unique_integer integer_of
  one_integer [] n h = absurd (cc h)
  one_integer (a ∷ b ∷ found) n h = absurd (cc h)
  one_integer (element ∷ []) n h = elim (Option-cases (read_int (strip (raw_value element)))) [
    | inl e ↦ absurd (ground arith)
    | inr (m, e) ↦ (element, refl, ground arith)
  ]

  preference-Holds :
      (xml_text key : Text) (n : ℤ)
      → parse_unique_integer_preference parse_xml read_int xml_text key ≡ ok n
      → Holds xml_text key n
  unfolding parse_unique_integer_preference
  preference-Holds xml_text key n h = elim (Option-cases (parse_xml xml_text)) [
    | inl e ↦ absurd (ground arith)
    | inr (elements, e) ↦
        let (element, unique, number) =
          one_integer (named_elements key elements) n (ground arith) in
        record {
          elements = elements;
          element = element;
          parsed = e;
          unique = unique;
          number = number;
        }
  ]

  module _ (shell : Text → Text → Result Text) where
    -- Both files of the device hold the one kingdom of the status, each in one element.
    pub record IsGuarded (allowed : Option ℤ) (profile : DeviceProfile) (status : KingdomStatus)
        : Type 0 where
      pub permitted : profile.package_name ≡ default_package
      pub path : profile.resolved_playerprefs_path ≡ playerprefs_path
      pub serial : status.serial ≡ profile.serial
      pub playerprefs_xml : Text
      pub sdk_xml : Text
      pub playerprefs_read : shell profile.serial playerprefs_path ≡ ok playerprefs_xml
      pub sdk_read : shell profile.serial sdk_prefs_path ≡ ok sdk_xml
      pub playerprefs : Holds playerprefs_xml playerprefs_key status.playerprefs_kingdom
      pub sdk : Holds sdk_xml sdk_server_key status.sdk_server_id
      pub agreed : status.playerprefs_kingdom ≡ status.sdk_server_id
      pub allowed_kingdom : (allowed ≡ none) ⊎ (allowed ≡ some status.playerprefs_kingdom)

    allowed-same :
        (allowed : Option ℤ) (status : KingdomStatus)
        → is_other_kingdom parse_xml read_int shell allowed status ≡ false
        → (allowed ≡ none) ⊎ (allowed ≡ some status.playerprefs_kingdom)
    unfolding is_other_kingdom
    allowed-same none status h = inl refl
    allowed-same (some n) status h =
        inr (ap some (sym (same_integer→eq status.playerprefs_kingdom n (ground arith))))

    -- What `KingdomGuard.require` accepts is a device of the default package whose PlayerPrefs path is
    -- the canonical one; the two preference files each hold exactly one entry for their key, these name
    -- the same number, which is the status's kingdom and server, and the allowed one if one is set.
    pub require-IsGuarded :
        (allowed : Option ℤ) (profile : DeviceProfile) (status : KingdomStatus)
        → require parse_xml read_int shell allowed profile ≡ ok status
        → IsGuarded allowed profile status
    unfolding require read_status parse_playerprefs_kingdom parse_sdk_server_id
    require-IsGuarded allowed profile status h₀ =
        >>=-cases (read_status parse_xml read_int shell profile) _ h₀ λ found read h₁.
          raise_if-cases (not (same_integer found.playerprefs_kingdom found.sdk_server_id)) _ _ h₁
            λ agreed h₂.
              raise_if-cases (is_other_kingdom parse_xml read_int shell allowed found) _ _ h₂
                λ one h₃.
                  raise_if-cases (not (same profile.package_name default_package)) _ _ read
                    λ permitted r₁.
                      raise_if-cases (not (same profile.resolved_playerprefs_path playerprefs_path))
                        _ _ r₁
                        λ path r₂.
                          >>=-cases (shell profile.serial playerprefs_path) _ r₂
                            λ prefs_xml prefs_read r₃.
                              >>=-cases (shell profile.serial sdk_prefs_path) _ r₃
                                λ sdk_xml sdk_read r₄.
                                  >>=-cases
                                    (parse_unique_integer_preference parse_xml read_int prefs_xml
                                      playerprefs_key)
                                    _ r₄
                                    λ kingdom kingdom_read r₅.
                                      >>=-cases
                                        (parse_unique_integer_preference parse_xml read_int sdk_xml
                                          sdk_server_key)
                                        _ r₅
                                        λ server server_read r₆.
                                          let made = ok-injective _ _ r₆ in
                                          subst (IsGuarded allowed profile) (ok-injective _ _ h₃)
                                            (record {
                                              permitted =
                                                  same→eq profile.package_name default_package
                                                    (not-false permitted);
                                              path =
                                                  same→eq profile.resolved_playerprefs_path
                                                    playerprefs_path (not-false path);
                                              serial =
                                                  sym (ap (λ (s : KingdomStatus). s.serial) made);
                                              playerprefs_xml = prefs_xml;
                                              sdk_xml = sdk_xml;
                                              playerprefs_read = prefs_read;
                                              sdk_read = sdk_read;
                                              playerprefs =
                                                  subst (Holds prefs_xml playerprefs_key)
                                                    (ap
                                                      (λ (s : KingdomStatus). s.playerprefs_kingdom)
                                                      made)
                                                    (preference-Holds prefs_xml playerprefs_key
                                                      kingdom kingdom_read);
                                              sdk =
                                                  subst (Holds sdk_xml sdk_server_key)
                                                    (ap (λ (s : KingdomStatus). s.sdk_server_id)
                                                      made)
                                                    (preference-Holds sdk_xml sdk_server_key server
                                                      server_read);
                                              agreed =
                                                  same_integer→eq found.playerprefs_kingdom
                                                    found.sdk_server_id (not-false agreed);
                                              allowed_kingdom = allowed-same allowed found one;
                                            })
