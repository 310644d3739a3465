-- ===== src/Business/Wire/Lines.antt =====
-- Which answers `_protocol_lines` takes apart, and into which lines.
use mumu_autotask.Prelude.{
  ℕ, ◌≤◌, ◌≡◌, ◌≢◌, ◌↔◌, refl, sym, ap, Bool, true, false, not, ◌||◌, List, [], ◌∷◌, map, arith,
  ltb, ◌==◌, length, is_empty, get_last_or, String, ok, not-false, raise_if-eq-ok, >>=-eq-ok, All,
  All-imp,
}
use mumu_autotask.Python.Value.{Text, str}
use mumu_autotask.Python.Text.{
  same_fields, same_fields→eq, same_fields_refl, contains, split, join, Lacks, split-join,
  join-split, split-ne-nil,
}
use mumu_autotask.Python.Text.Parts.{
  split-All, join-All, split-Lacks, get_last_or-join, any-Lacks, Lacks-any,
}
use mumu_autotask.Python.Unicode.{encode}
use mumu_autotask.Business.Wire.{
  Fields, Lines, line, tab, newline, carriage_return, any_empty, header, protocol_lines,
}

-- The text that a script returns: its lines joined by line breaks, and their fields by tabs.
unfoldable pub render : Lines → Text
render lines = join newline (map (join tab) lines)

-- No field holds a tab or a line break.
abbrev pub IsClean : Text → Type 0
IsClean s = Lacks tab s × Lacks newline s × Lacks carriage_return s

-- A line with at least one field, and at least one character.
abbrev pub IsLine : Fields → Type 0
IsLine fields = (fields ≢ []) × (join tab fields ≢ []) × All IsClean fields

-- The lines of an answer of at most 15000 bytes that begins with the header of its kind.
pub record IsAnswer (kind : String) (lines : Lines) : Type 0 where
  pub headed : line lines 0 ≡ header kind
  pub each : All IsLine lines
  pub bytes : List ℕ
  pub encoded : encode (render lines) ≡ ok bytes
  pub fits : length bytes ≤ 15000

module _ (s : Text) where
  IsClean-fields : Lacks newline s → Lacks carriage_return s → All IsClean (split tab s)
  IsClean-fields hn hc =
      zip (split tab s) (split-Lacks tab s) (split-All _ tab s hn) (split-All _ tab s hc)
    where
      zip :
          (ps : List Text)
          → All (Lacks tab) ps
          → All (Lacks newline) ps
          → All (Lacks carriage_return) ps
          → All IsClean ps
      zip [] _ _ _ = tt
      zip (p ∷ ps) (a, h) (b, k) (c, l) = ((a, b, c), zip ps h k l)

  IsLine-split : s ≢ [] → Lacks newline s → Lacks carriage_return s → IsLine (split tab s)
  IsLine-split h hn hc = (split-ne-nil tab s, rw (join-split tab s) h, IsClean-fields hn hc)

lines_of_split :
    (ls : List Text)
    → any_empty ls ≡ false
    → All (Lacks newline) ls
    → All (Lacks carriage_return) ls
    → All IsLine (map (split tab) ls)
unfolding any_empty
lines_of_split [] e hn hc = tt
lines_of_split (l ∷ ls) e (n, hn) (c, hc) =
    (IsLine-split l (ground arith) n c, lines_of_split ls (ground arith) hn hc)

join-split-map : (ls : List Text) → map (join tab) (map (split tab) ls) ≡ ls
join-split-map [] = refl
join-split-map (l ∷ ls) = cc (join-split tab l, join-split-map ls)

render-split : (output : Text) → render (map (split tab) (split newline output)) ≡ output
unfolding render
render-split output = rw (join-split-map (split newline output)) (join-split newline output)

or-false : (a b : Bool) → (a || b) ≡ false → a ≡ false
or-false a b h = ground arith

answer_of_split :
    (output : Text) (kind : String) (bytes : List ℕ)
    → encode output ≡ ok bytes
    → ltb 15000 (length bytes) ≡ false
    → contains carriage_return output ≡ false
    → any_empty (split newline output) ≡ false
    → same_fields (line (map (split tab) (split newline output)) 0) (header kind) ≡ true
    → (output ≡ render (map (split tab) (split newline output)))
      × IsAnswer kind (map (split tab) (split newline output))
answer_of_split output kind bytes encoded short no_return no_empty headed =
    let ls = split newline output in
    let whole = render-split output in
    (
      sym whole,
      record {
        headed = same_fields→eq _ _ headed;
        each =
            lines_of_split ls no_empty (split-Lacks newline output)
              (split-All _ newline output (any-Lacks carriage_return output no_return));
        bytes = bytes;
        encoded = rw whole encoded;
        fits = ground arith;
      },
    )

protocol_lines_sound :
    (output : Text) (kind : String) (lines : Lines)
    → protocol_lines (str output) kind ≡ ok lines
    → (output ≡ render lines) × IsAnswer kind lines
unfolding protocol_lines
protocol_lines_sound output kind lines h =
    let (_, h₁) = raise_if-eq-ok (is_empty output) _ _ h in
    let (bytes, encoded, h₂) = >>=-eq-ok (encode output) _ h₁ in
    let (short, h₃) = raise_if-eq-ok (ltb 15000 (length bytes)) _ _ h₂ in
    let (ends, h₄) =
      raise_if-eq-ok (contains carriage_return output || (get_last_or output 0 == newline)) _ _
        h₃ in
    let ls = split newline output in
    let (no_empty, h₅) = raise_if-eq-ok (any_empty ls) _ _ h₄ in
    let fields = map (split tab) ls in
    let (headed, h₆) = raise_if-eq-ok (not (same_fields (line fields 0) (header kind))) _ _ h₅ in
    let is_lines : fields ≡ lines = cc in
    rw is_lines at (
      answer_of_split output kind bytes encoded short (or-false _ _ ends) no_empty
        (not-false headed))

clean_lines : (lines : Lines) → All IsLine lines → map (split tab) (map (join tab) lines) ≡ lines
clean_lines [] h = refl
clean_lines ([] ∷ lines) ((n, _, _), h) = absurd (n refl)
clean_lines ((f ∷ fs) ∷ lines) ((_, _, clean), h) = rw (
  split-join tab f fs (All-imp IsClean (Lacks tab) (λ _ c. c.0) (f ∷ fs) clean),
  clean_lines lines h,
)

lines_lack :
    (lines : Lines)
    → All IsLine lines
    → All (λ l. (l ≢ []) × Lacks newline l) (map (join tab) lines)
lines_lack [] h = tt
lines_lack (fields ∷ lines) ((_, n, clean), h) = (
  (
    n,
    join-All _ tab fields (λ e. ground arith)
        (All-imp IsClean (Lacks newline) (λ _ c. c.1) fields clean),
  ),
  lines_lack lines h,
)

lines_no_return :
    (lines : Lines) → All IsLine lines → All (Lacks carriage_return) (map (join tab) lines)
lines_no_return [] h = tt
lines_no_return (fields ∷ lines) ((_, n, clean), h) = (
  join-All _ tab fields (λ e. ground arith)
      (All-imp IsClean (Lacks carriage_return) (λ _ c. c.2) fields clean),
  lines_no_return lines h,
)

none_empty : (ls : List Text) → All (λ l. (l ≢ []) × Lacks newline l) ls → any_empty ls ≡ false
unfolding any_empty
none_empty [] h = refl
none_empty ([] ∷ ls) ((n, _), h) = absurd (n refl)
none_empty ((c ∷ l) ∷ ls) (_, h) = none_empty ls h

join_empty : (l : Text) (ls : List Text) → l ≢ [] → is_empty (join newline (l ∷ ls)) ≡ false
unfolding join
join_empty [] ls n = absurd (n refl)
join_empty (c ∷ l) [] n = refl
join_empty (c ∷ l) (m ∷ ls) n = refl

-- Every answer is taken apart into its lines.
pub protocol_lines-render :
    (kind : String) (lines : Lines)
    → IsAnswer kind lines
    → protocol_lines (str (render lines)) kind ≡ ok lines
unfolding protocol_lines
protocol_lines-render kind [] a = cc (a.headed)
protocol_lines-render kind (fields ∷ lines) a =
    let ls = map (join tab) (fields ∷ lines) in
    let lack = lines_lack (fields ∷ lines) a.each in
    let parts : split newline (render (fields ∷ lines)) ≡ ls =
      unfold render in
      split-join newline (join tab fields) (map (join tab) lines)
        (All-imp _ (Lacks newline) (λ _ h. h.1) ls lack) in
    let not_empty : is_empty (render (fields ∷ lines)) ≡ false =
      unfold render in join_empty (join tab fields) (map (join tab) lines) (lack.0.0) in
    let no_return : contains carriage_return (render (fields ∷ lines)) ≡ false =
      Lacks-any carriage_return _ (
        unfold render in
        join-All _ newline ls (λ e. ground arith) (lines_no_return (fields ∷ lines) a.each)) in
    let ends : get_last_or (render (fields ∷ lines)) 0 ≢ newline =
      unfold render in get_last_or-join newline (join tab fields) (map (join tab) lines) 0 lack in
    let short : ltb 15000 (length a.bytes) ≡ false = ground (arith, a.fits) in
    let no_break : (get_last_or (render (fields ∷ lines)) 0 == newline) ≡ false = ground arith in
    let clean = clean_lines (fields ∷ lines) a.each in
    let headed : same_fields (line (map (split tab) ls) 0) (header kind) ≡ true =
      cc (ap (λ t. line t 0) clean, a.headed, same_fields_refl (header kind)) in
    rw (not_empty, a.encoded, short, no_return, no_break, parts, none_empty ls lack, headed, clean)

-- `_protocol_lines` returns `lines` exactly on the text that joins them, if they are the lines of an
-- answer of the kind: the first is the header, none is empty, no field holds a tab or a line break,
-- and the text has at most 15000 UTF-8 bytes.
pub protocol_lines_iff :
    (output : Text) (kind : String) (lines : Lines)
    → (protocol_lines (str output) kind ≡ ok lines)
      ↔ ((output ≡ render lines) × IsAnswer kind lines)
protocol_lines_iff output kind lines =
    (protocol_lines_sound output kind lines, λ (e, a). rw e (protocol_lines-render kind lines a))
