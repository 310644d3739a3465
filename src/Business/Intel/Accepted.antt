-- ===== src/Business/Intel/Accepted.antt =====
-- Which answers `parse_intel_output` accepts.
use mumu_autotask.Prelude.{
  ℕ, ◌≤◌, ◌≡◌, ap, true, not, ◌&&◌, ◌||◌, List, [], ◌∷◌, map, Option, none, some, ltb, length, drop,
  init, arith, Result, ok, ◌>>=◌, ◌⊎◌, inl, inr, sym, ok-injective, Bool-cases, >>=-cases,
  raise_if-cases, ◌∙◌, ◌↔◌,
}
use mumu_autotask.Python.Value.{Text, str, items}
use mumu_autotask.Python.Text.{lit}
use mumu_autotask.Python.Decimal.{str_of}
use mumu_autotask.Python.Unicode.{encode}
use mumu_autotask.Business.Roles.Whitelist.{IsWhitelist}
use mumu_autotask.Business.Wire.{
  Lines, line, ◌‼◌, last_line, has_tag, header, parse_role, parse_kingdom_line, parse_integer,
  protocol_lines,
}
use mumu_autotask.Business.Wire.Numbers.{Readable, parse_integer_sound}
use mumu_autotask.Business.Wire.Lines.{render}
use mumu_autotask.Business.Intel.{
  IntelItem, IntelSnapshot, parse_stamina_line, parse_items, parse_intel_output,
}
use mumu_autotask.Business.Intel.Items.{item_fields}
use mumu_autotask.Business.Intel.Sound.{IsListing, end_line}
use mumu_autotask.Business.Wire.Frame.{role_line, kingdom_line}
use mumu_autotask.Business.Intel.Render.{intel_lines, IsSnapshot, IsStamina}
use mathlib.Core.Path.{subst}
use mumu_autotask.Business.Wire.Lines.{protocol_lines_iff}
use mumu_autotask.Business.Wire.Identity.{parse_role_iff}
use mumu_autotask.Business.Wire.Frame.{has_tag-pair, parse_kingdom_line_sound, frame_3, frame_4}
use mumu_autotask.Business.Intel.Sound.{parse_items_iff}
use mumu_autotask.Business.Intel.RoundTrip.{parse_intel_output-render}

abbrev read_stamina : ℕ → Result (Option ℕ × ℕ)
read_stamina n = ok (some n, 4)

given_stamina :
    (lines : Lines) (stamina : Option ℕ) (start : ℕ)
    → has_tag (line lines 3) 2 "STAMINA" ≡ true
    → (parse_integer (line lines 3 ‼ 1) true >>= read_stamina) ≡ ok (stamina, start)
    → (n : ℕ) × (stamina ≡ some n)
      × (start ≡ 4)
      × (line lines 3 ≡ lit "STAMINA" ∷ str_of n ∷ [])
      × Readable true n
given_stamina lines stamina start tagged h =
    >>=-cases (parse_integer (line lines 3 ‼ 1) true) _ h λ n read h₁.
      let pair = ok-injective _ _ h₁ in
      let (written, readable) = parse_integer_sound (line lines 3 ‼ 1) true n read in
      (
        n,
        sym (ap (λ t. t.0) pair),
        sym (ap (λ t. t.1) pair),
        cc (has_tag-pair (line lines 3) "STAMINA" tagged, written),
        readable,
      )

-- What the STAMINA line says, and where the items begin.
stamina_line_sound :
    (lines : Lines) (stamina : Option ℕ) (start : ℕ)
    → 4 ≤ length lines
    → parse_stamina_line lines ≡ ok (stamina, start)
    → ((stamina ≡ none) × (start ≡ 3))
      ⊎ ((n : ℕ) × (stamina ≡ some n)
          × (start ≡ 4)
          × (line lines 3 ≡ lit "STAMINA" ∷ str_of n ∷ [])
          × Readable true n)
unfolding parse_stamina_line
stamina_line_sound lines stamina start long h =
    let given = ltb 3 (length lines) && has_tag (line lines 3) 2 "STAMINA" in
    elim (Bool-cases given) [
      | inr e ↦
          let h' : ok (none, 3) ≡ ok (stamina, start) = rw e at h in
          let pair = ok-injective _ _ h' in inl (sym (ap (λ t. t.0) pair), sym (ap (λ t. t.1) pair))
      | inl e ↦ inr (given_stamina lines stamina start (ground arith) (rw e at h))
    ]

five_lines :
    (lines : Lines) (n count : ℕ)
    → 4 ≤ length lines
    → line lines 3 ≡ lit "STAMINA" ∷ str_of n ∷ []
    → last_line lines ≡ end_line count
    → 5 ≤ length lines
unfolding lit end_line
five_lines (_ ∷ _ ∷ _ ∷ _ ∷ _ ∷ lines) n count h e f = omega arith
five_lines (_ ∷ _ ∷ _ ∷ d ∷ []) n count h e f = absurd (cc (e, f))
five_lines (_ ∷ _ ∷ _ ∷ []) n count h e f = absurd (omega arith)
five_lines (_ ∷ _ ∷ []) n count h e f = absurd (omega arith)
five_lines (_ ∷ []) n count h e f = absurd (omega arith)
five_lines [] n count h e f = absurd (omega arith)

-- The lines of an accepted answer, from what its parts were read as.
intel_lines_sound :
    (lines : Lines) (role value : Text) (kingdom start : ℕ) (stamina : Option ℕ)
    (xs : List IntelItem)
    → 4 ≤ length lines
    → line lines 0 ≡ header "INTEL"
    → line lines 1 ≡ role_line value
    → line lines 2 ≡ kingdom_line kingdom
    → parse_stamina_line lines ≡ ok (stamina, start)
    → parse_items lines (init (drop start lines)) ≡ ok xs
    → (lines
        ≡ intel_lines value
            (record { role = role; kingdom = kingdom; items = xs; current_stamina = stamina }))
      × IsStamina stamina
      × IsListing xs
unfolding intel_lines
intel_lines_sound lines role value kingdom start stamina xs long e₀ e₁ e₂ s i =
    let (ended, between, listing) = (parse_items_iff lines (init (drop start lines)) xs).0 i in
    elim (stamina_line_sound lines stamina start long s) [
      | inl (none_given, at_3) ↦
          let items_3 : init (drop 3 lines) ≡ map item_fields xs = rw at_3 at between in
          (
            rw none_given (frame_3 lines long ∙ cc (e₀, e₁, e₂, ended, items_3)),
            rw none_given tt,
            listing,
          )
      | inr (n, given, at_4, stamina_line, readable) ↦
          let items_4 : init (drop 4 lines) ≡ map item_fields xs = rw at_4 at between in
          let five = five_lines lines n (length xs) long stamina_line ended in
          (
            rw given (frame_4 lines five ∙ cc (e₀, e₁, e₂, stamina_line, ended, items_4)),
            rw given readable,
            listing,
          )
    ]

-- `output` is the print of at most 15000 bytes of the lines for `snapshot`, which is valid.
pub record IsIntelAnswer (roles : List Text) (output : Text) (snapshot : IntelSnapshot)
    : Type 0 where
  pub value : Text
  pub valid : IsSnapshot roles value snapshot
  pub printed : output ≡ render (intel_lines value snapshot)
  pub bytes : List ℕ
  pub encoded : encode output ≡ ok bytes
  pub fits : length bytes ≤ 15000

module _ (output : Text) (roles : List Text) (w : IsWhitelist roles) where
  parse_intel_output_sound :
      (snapshot : IntelSnapshot)
      → parse_intel_output (str output) (items (map str roles)) ≡ ok snapshot
      → IsIntelAnswer roles output snapshot
  unfolding parse_intel_output
  parse_intel_output_sound snapshot h₀ =
      >>=-cases (protocol_lines (str output) "INTEL") _ h₀ λ lines read h₁.
        raise_if-cases (ltb (length lines) 4 || not (has_tag (line lines 1) 2 "ROLE")) _ _ h₁
          λ checked h₂. >>=-cases (parse_role (line lines 1 ‼ 1) _) _ h₂ λ role named h₃.
            >>=-cases (parse_kingdom_line (line lines 2)) _ h₃ λ kingdom numbered h₄.
              >>=-cases (parse_stamina_line lines) _ h₄ λ (stamina, start) stamina_read h₅.
                >>=-cases (parse_items lines (init (drop start lines))) _ h₅ λ xs listed h₆.
                  let long : 4 ≤ length lines = ground arith in
                  let (printed, answer) = (protocol_lines_iff output "INTEL" lines).0 read in
                  let (e₂, positive) = parse_kingdom_line_sound (line lines 2) kingdom numbered in
                  let e₁ = has_tag-pair (line lines 1) "ROLE" (ground arith) in
                  let value = line lines 1 ‼ 1 in
                  let (written, stamina_ok, listing) =
                    intel_lines_sound lines role value kingdom start stamina xs long answer.headed
                      e₁ e₂ stamina_read listed in
                  subst (IsIntelAnswer roles output) (ok-injective _ _ h₆) (record {
                    value = value;
                    valid = record {
                      named = (parse_role_iff value roles role w).0 named;
                      kingdom = positive;
                      stamina = stamina_ok;
                      listing = listing;
                    };
                    printed = printed ∙ ap render written;
                    bytes = answer.bytes;
                    encoded = ap encode printed ∙ answer.encoded;
                    fits = answer.fits;
                  })

  -- For a valid whitelist, `parse_intel_output` returns a snapshot exactly on the text of at most
  -- 15000 bytes that the INTEL script writes for it, if its role is allowed, its kingdom is positive,
  -- and its items are valid, at most 128, of different runtime ids, and in order.
  pub parse_intel_output_iff :
      (snapshot : IntelSnapshot)
      → (parse_intel_output (str output) (items (map str roles)) ≡ ok snapshot)
        ↔ IsIntelAnswer roles output snapshot
  parse_intel_output_iff snapshot = (
    parse_intel_output_sound snapshot,
    λ a.
        let encoded : encode (render (intel_lines a.value snapshot)) ≡ ok a.bytes =
          sym (ap encode a.printed) ∙ a.encoded in
        rw a.printed
          (parse_intel_output-render a.value roles snapshot a.bytes w a.valid encoded a.fits),
  )
