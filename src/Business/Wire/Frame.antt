-- ===== src/Business/Wire/Frame.antt =====
-- The lines that every answer has, and what they hold.
use mumu_autotask.Prelude.{
  ℕ, ◌≤◌, ◌≡◌, ◌≢◌, refl, ap, ◌∙◌, true, false, not, List, [], ◌∷◌, ◌++◌, length, init, drop, arith,
  String, ok, raise_if-cases, not-false,
}
use mumu_autotask.Python.Value.{Text}
use mumu_autotask.Python.Text.{lit, same→eq, same_refl, same_fields→eq, same_fields_refl, join}
use mumu_autotask.Python.Decimal.{str_of}
use mumu_autotask.Python.Decimal.Canonical.{str_of-Lacks}
use mumu_autotask.Python.Hex.{hex, hex-Lacks}
use mumu_autotask.Business.Wire.{
  Fields, Lines, line, ◌‼◌, last_line, has_tag, is_pair, tab, newline, carriage_return,
  parse_kingdom_line,
}
use mumu_autotask.Business.Wire.Numbers.{Readable, parse_integer_sound}
use mumu_autotask.Business.Wire.Lines.{IsClean, IsLine}

abbrev pub role_line : Text → Fields
role_line value = lit "ROLE" ∷ value ∷ []

abbrev pub kingdom_line : ℕ → Fields
kingdom_line kingdom = lit "KINGDOM" ∷ str_of kingdom ∷ []

pub IsClean-number : (n : ℕ) → IsClean (str_of n)
IsClean-number n = (
  str_of-Lacks tab n (omega arith),
  str_of-Lacks newline n (omega arith),
  str_of-Lacks carriage_return n (omega arith),
)

pub IsClean-hex : (bytes : List ℕ) → IsClean (hex bytes)
IsClean-hex bytes = (
  hex-Lacks tab bytes (omega arith),
  hex-Lacks newline bytes (omega arith),
  hex-Lacks carriage_return bytes (omega arith),
)

-- A line of a clean tag and a clean field.
pub IsLine-pair :
    (tag : Text) (value : Text) → tag ≢ [] → IsClean tag → IsClean value → IsLine (tag ∷ value ∷ [])
unfolding join
IsLine-pair [] value n c d = absurd (n refl)
IsLine-pair (x ∷ tag) value n c d = (λ e. cc e, λ e. cc e, (c, (d, tt)))

pub IsLine-role : (bytes : List ℕ) → IsLine (role_line (hex bytes))
unfolding lit
IsLine-role bytes =
    IsLine-pair (lit "ROLE") (hex bytes) (λ e. cc e) (omega arith) (IsClean-hex bytes)

pub IsLine-kingdom : (kingdom : ℕ) → IsLine (kingdom_line kingdom)
unfolding lit
IsLine-kingdom n =
    IsLine-pair (lit "KINGDOM") (str_of n) (λ e. cc e) (omega arith) (IsClean-number n)

-- A line of a tag and one field.
pub has_tag-pair :
    (fields : Fields) (tag : String)
    → has_tag fields 2 tag ≡ true
    → fields ≡ lit tag ∷ (fields ‼ 1) ∷ []
unfolding has_tag
has_tag-pair [] tag h = ground arith
has_tag-pair (f ∷ []) tag h = ground arith
has_tag-pair (f ∷ g ∷ []) tag h = ground (arith, same→eq f (lit tag))
has_tag-pair (f ∷ g ∷ k ∷ fields) tag h = ground arith

pub pair-has_tag : (tag : String) (value : Text) → has_tag (lit tag ∷ value ∷ []) 2 tag ≡ true
unfolding has_tag
pair-has_tag tag value = rw (same_refl (lit tag))

pub has_tag-triple :
    (fields : Fields) (tag : String)
    → has_tag fields 3 tag ≡ true
    → fields ≡ lit tag ∷ (fields ‼ 1) ∷ (fields ‼ 2) ∷ []
unfolding has_tag
has_tag-triple [] tag h = ground arith
has_tag-triple (f ∷ []) tag h = ground arith
has_tag-triple (f ∷ g ∷ []) tag h = ground arith
has_tag-triple (f ∷ g ∷ k ∷ []) tag h = ground (arith, same→eq f (lit tag))
has_tag-triple (f ∷ g ∷ k ∷ l ∷ fields) tag h = ground arith

pub has_tag-quadruple :
    (fields : Fields) (tag : String)
    → has_tag fields 4 tag ≡ true
    → fields ≡ lit tag ∷ (fields ‼ 1) ∷ (fields ‼ 2) ∷ (fields ‼ 3) ∷ []
unfolding has_tag
has_tag-quadruple [] tag h = ground arith
has_tag-quadruple (f ∷ []) tag h = ground arith
has_tag-quadruple (f ∷ g ∷ []) tag h = ground arith
has_tag-quadruple (f ∷ g ∷ k ∷ []) tag h = ground arith
has_tag-quadruple (f ∷ g ∷ k ∷ l ∷ []) tag h = ground (arith, same→eq f (lit tag))
has_tag-quadruple (f ∷ g ∷ k ∷ l ∷ m ∷ fields) tag h = ground arith

pub is_pair→eq :
    (fields : Fields) (tag : String) (value : Text)
    → is_pair fields tag value ≡ true
    → fields ≡ lit tag ∷ value ∷ []
unfolding is_pair
is_pair→eq fields tag value h = same_fields→eq fields (lit tag ∷ value ∷ []) h

pub is_pair_refl : (tag : String) (value : Text) → is_pair (lit tag ∷ value ∷ []) tag value ≡ true
unfolding is_pair
is_pair_refl tag value = same_fields_refl (lit tag ∷ value ∷ [])

pub parse_kingdom_line_sound :
    (fields : Fields) (kingdom : ℕ)
    → parse_kingdom_line fields ≡ ok kingdom
    → (fields ≡ kingdom_line kingdom) × Readable false kingdom
unfolding parse_kingdom_line
parse_kingdom_line_sound fields kingdom h =
    raise_if-cases (not (has_tag fields 2 "KINGDOM")) _ _ h λ tagged h₁.
      let (e, readable) = parse_integer_sound (fields ‼ 1) false kingdom h₁ in
      (
        has_tag-pair fields "KINGDOM" (not-false tagged) ∙ ap (λ t. lit "KINGDOM" ∷ t ∷ []) e,
        readable,
      )

init-last : (f : Fields) (fs : Lines) → f ∷ fs ≡ init (f ∷ fs) ++ last_line (f ∷ fs) ∷ []
init-last f [] = refl
init-last f (g ∷ fs) = ap (λ t. f ∷ t) (init-last g fs)

-- The first lines, the last line, and what is between.
pub frame_3 :
    (lines : Lines)
    → 4 ≤ length lines
    → lines
      ≡ line lines 0 ∷ line lines 1 ∷ line lines 2 ∷ (init (drop 3 lines) ++ last_line lines ∷ [])
frame_3 [] h = absurd (omega arith)
frame_3 (_ ∷ []) h = absurd (omega arith)
frame_3 (_ ∷ _ ∷ []) h = absurd (omega arith)
frame_3 (_ ∷ _ ∷ _ ∷ []) h = absurd (omega arith)
frame_3 (a ∷ b ∷ c ∷ d ∷ lines) h = ap (λ t. a ∷ b ∷ c ∷ t) (init-last d lines)

pub frame_4 :
    (lines : Lines)
    → 5 ≤ length lines
    → lines
      ≡ line lines 0
        ∷ line lines 1
        ∷ line lines 2
        ∷ line lines 3
        ∷ (init (drop 4 lines) ++ last_line lines ∷ [])
frame_4 [] h = absurd (omega arith)
frame_4 (_ ∷ []) h = absurd (omega arith)
frame_4 (_ ∷ _ ∷ []) h = absurd (omega arith)
frame_4 (_ ∷ _ ∷ _ ∷ []) h = absurd (omega arith)
frame_4 (_ ∷ _ ∷ _ ∷ _ ∷ []) h = absurd (omega arith)
frame_4 (a ∷ b ∷ c ∷ d ∷ e ∷ lines) h = ap (λ t. a ∷ b ∷ c ∷ d ∷ t) (init-last e lines)

pub triple-has_tag : (tag : String) (a b : Text) → has_tag (lit tag ∷ a ∷ b ∷ []) 3 tag ≡ true
unfolding has_tag
triple-has_tag tag a b = rw (same_refl (lit tag))

pub quadruple-has_tag :
    (tag : String) (a b c : Text) → has_tag (lit tag ∷ a ∷ b ∷ c ∷ []) 4 tag ≡ true
unfolding has_tag
quadruple-has_tag tag a b c = rw (same_refl (lit tag))
