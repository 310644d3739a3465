-- ===== src/Business/Intel/RoundTrip.antt =====
-- What `parse_intel_output` reads from the answer that the INTEL script writes.
use mumu_autotask.Prelude.{
  ℕ, ◌+◌, ◌≤◌, ◌≡◌, refl, true, false, List, [], ◌∷◌, ◌++◌, map, Option, none, some, ltb, length,
  length-append, drop, init, init-snoc, get_last_or-snoc, arith, ok, All, All-append,
}
use mumu_autotask.Python.Value.{Text, str, items}
use mumu_autotask.Python.Text.{lit, same, join}
use mumu_autotask.Python.Decimal.{str_of}
use mumu_autotask.Python.Unicode.{encode}
use mumu_autotask.Business.Roles.Whitelist.{IsWhitelist}
use mumu_autotask.Business.Wire.{Fields, Lines, line, ◌‼◌, last_line, has_tag, header}
use mumu_autotask.Business.Wire.Numbers.{parse_integer-str_of}
use mumu_autotask.Business.Wire.Lines.{render, IsLine, IsAnswer, protocol_lines-render}
use mumu_autotask.Business.Wire.Identity.{parse_role-hex, parse_kingdom_line-ok}
use mumu_autotask.Business.Intel.{
  IntelItem, IntelSnapshot, parse_stamina_line, parse_items, parse_intel_output,
}
use mumu_autotask.Business.Intel.Items.{IsItem, item_fields}
use mumu_autotask.Business.Intel.Sound.{IsListing, end_line, parse_items-ok}
use mumu_autotask.Business.Wire.Frame.{
  pair-has_tag, role_line, kingdom_line, IsClean-number, IsLine-pair, IsLine-role, IsLine-kingdom,
}
use mumu_autotask.Business.Intel.Render.{
  stamina_lines, intel_lines, IsSnapshot, IsStamina, IsLine-item,
}

lines_items : (xs : List IntelItem) → All IsItem xs → All IsLine (map item_fields xs)
lines_items [] _ = tt
lines_items (item ∷ xs) (v, vs) = (IsLine-item item v, lines_items xs vs)

IsLine-header : IsLine (header "INTEL")
unfolding lit join
IsLine-header = (λ e. cc e, λ e. cc e, (omega arith, (omega arith, (omega arith, tt))))

IsLine-end : (count : ℕ) → IsLine (end_line count)
unfolding lit end_line
IsLine-end n = IsLine-pair (lit "END") (str_of n) (λ e. cc e) (omega arith) (IsClean-number n)

lines_stamina : (stamina : Option ℕ) → All IsLine (stamina_lines stamina)
unfolding lit
lines_stamina none = tt
lines_stamina (some n) =
    (IsLine-pair (lit "STAMINA") (str_of n) (λ e. cc e) (omega arith) (IsClean-number n), tt)

intel_lines-IsLine :
    (roles : List Text) (value : Text) (snapshot : IntelSnapshot)
    → IsSnapshot roles value snapshot
    → All IsLine (intel_lines value snapshot)
unfolding intel_lines
intel_lines-IsLine roles value snapshot v = (
  IsLine-header,
  (
    rw v.named.written (IsLine-role v.named.bytes),
    (
      IsLine-kingdom snapshot.kingdom,
      All-append IsLine (stamina_lines snapshot.current_stamina) _
          (lines_stamina snapshot.current_stamina)
          (All-append IsLine (map item_fields snapshot.items) _
            (lines_items snapshot.items v.listing.each) (IsLine-end (length snapshot.items), tt)),
    ),
  ),
)

-- The items and their END line, behind the identity.
abbrev listing_lines : List IntelItem → Lines
listing_lines xs = map item_fields xs ++ (end_line (length xs) ∷ [])

no_stamina : (xs : List IntelItem) → has_tag (line (listing_lines xs) 0) 2 "STAMINA" ≡ false
unfolding has_tag item_fields end_line lit same
no_stamina [] = refl
no_stamina (item ∷ xs) = refl

long_enough : (n : ℕ) (xs : List IntelItem) → 3 ≤ n → ltb (n + length (listing_lines xs)) 4 ≡ false
long_enough n xs h = ground (arith, length-append (map item_fields xs) (end_line (length xs) ∷ []))

last_of_listing :
    (xs : List IntelItem) (d : Fields) → last_line (d ∷ listing_lines xs) ≡ end_line (length xs)
last_of_listing xs d = get_last_or-snoc (map item_fields xs) (end_line (length xs)) d

abbrev stamina_and_listing : Fields → Fields → Fields → Option ℕ → List IntelItem → Lines
stamina_and_listing a b c stamina xs = a ∷ b ∷ c ∷ (stamina_lines stamina ++ listing_lines xs)

-- The lines that are read behind the header, whether or not there is a STAMINA line.
parse_after :
    (a b c : Fields) (stamina : Option ℕ) (xs : List IntelItem)
    → IsListing xs
    → IsStamina stamina
    → (start : ℕ) × (parse_stamina_line (stamina_and_listing a b c stamina xs)
        ≡ ok (stamina, start))
      × (parse_items
            (stamina_and_listing a b c stamina xs)
            (init (drop start (stamina_and_listing a b c stamina xs)))
          ≡ ok xs)
      × (ltb (length (stamina_and_listing a b c stamina xs)) 4 ≡ false)
unfolding parse_stamina_line
parse_after a b c none xs v _ =
    let between = init-snoc (map item_fields xs) (end_line (length xs)) in
    (
      3,
      rw (no_stamina xs) (ground arith),
      rw between (parse_items-ok (stamina_and_listing a b c none xs) xs (last_of_listing xs c) v),
      ground (arith, long_enough 3 xs (omega arith)),
    )
parse_after a b c (some n) xs v s =
    let between = init-snoc (map item_fields xs) (end_line (length xs)) in
    let stamina_line : Fields = lit "STAMINA" ∷ str_of n ∷ [] in
    (
      4,
      rw (pair-has_tag "STAMINA" (str_of n), parse_integer-str_of n true s) (ground arith),
      rw between (
          parse_items-ok (stamina_and_listing a b c (some n) xs) xs
            (last_of_listing xs stamina_line) v),
      ground (arith, long_enough 4 xs (omega arith)),
    )

parse_body :
    (value : Text) (snapshot : IntelSnapshot)
    → IsListing snapshot.items
    → IsStamina snapshot.current_stamina
    → (start : ℕ) × (parse_stamina_line (intel_lines value snapshot)
        ≡ ok (snapshot.current_stamina, start))
      × (parse_items (intel_lines value snapshot) (init (drop start (intel_lines value snapshot)))
          ≡ ok snapshot.items)
      × (ltb (length (intel_lines value snapshot)) 4 ≡ false)
unfolding intel_lines
parse_body value snapshot v s =
    parse_after (header "INTEL") (role_line value) (kingdom_line snapshot.kingdom)
      snapshot.current_stamina snapshot.items v s

-- For a valid whitelist and snapshot, `parse_intel_output` returns the snapshot from the text that
-- the INTEL script writes for it, if that text has at most 15000 bytes.
pub parse_intel_output-render :
    (value : Text) (roles : List Text) (snapshot : IntelSnapshot) (bytes : List ℕ)
    → IsWhitelist roles
    → IsSnapshot roles value snapshot
    → encode (render (intel_lines value snapshot)) ≡ ok bytes
    → length bytes ≤ 15000
    → parse_intel_output (str (render (intel_lines value snapshot))) (items (map str roles))
      ≡ ok snapshot
unfolding parse_intel_output
parse_intel_output-render value roles snapshot bytes w v encoded fits =
    let (start, stamina, listed, long) = parse_body value snapshot v.listing v.stamina in
    let answer : IsAnswer "INTEL" (intel_lines value snapshot) = record {
      headed = unfold intel_lines in refl;
      each = intel_lines-IsLine roles value snapshot v;
      bytes = bytes;
      encoded = encoded;
      fits = fits;
    } in
    let role_ok : has_tag (line (intel_lines value snapshot) 1) 2 "ROLE" ≡ true =
      unfold intel_lines in pair-has_tag "ROLE" value in
    let role_value : line (intel_lines value snapshot) 1 ‼ 1 ≡ value = unfold intel_lines in refl in
    let kingdom : line (intel_lines value snapshot) 2 ≡ kingdom_line snapshot.kingdom =
      unfold intel_lines in refl in
    rw (
      protocol_lines-render "INTEL" (intel_lines value snapshot) answer,
      long,
      role_ok,
      role_value,
      parse_role-hex value roles snapshot.role w v.named,
      kingdom,
      parse_kingdom_line-ok snapshot.kingdom v.kingdom,
      stamina,
      listed,
    )
