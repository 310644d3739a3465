-- ===== src/LuaSafety/Probes.antt =====
-- What `require_safe_lua` lets pass.
use mathlib.Core.Path.{subst}
use mumu_autotask.Prelude.{
  ℕ, ◌≡◌, ◌≢◌, ◌↔◌, ◌⊎◌, refl, sym, ap, ◌∙◌, inl, inr, Bool, true, false, not, ◌&&◌, ◌||◌, [], ◌∷◌,
  ◌++◌, append_assoc, ◌==◌, is_empty, &&-iff, arith, Bool-cases, All-append, ok, raise_if-cases,
}
use mumu_autotask.Python.Value.{Text}
use mumu_autotask.Python.Text.{lit, same, same→eq, member}
use mumu_autotask.Python.Unicode.{is_space, strip, strip_left, strip_right}
use mumu_autotask.LuaSafety.{
  safe_read_only_probes, remove_semicolon, collapse_spaces, normalize_lua, require_safe_lua,
}
use mumu_autotask.LuaSafety.Spelling.{
  IsBlank, IsWord, strip-split, strip-blank, remove_semicolon-split, strip-remove_semicolon,
}
use mumu_autotask.LuaSafety.Words.{collapse_spaces-words, words-collapse_spaces}

-- The expressions that the built-in probes return.
pub data IsExpression : Text → Type 0 where
  version : IsExpression (lit "_VERSION")
  version_text : IsExpression (lit "tostring(_VERSION)")
  loaded_type : IsExpression (lit "type(package.loaded)")

-- A `return` and an expression with blanks between them, perhaps a semicolon, and blanks anywhere
-- around these.
pub record IsProbe (code : Text) : Type 0 where
  pub before : Text
  pub gap : Text
  pub expression : Text
  pub between : Text
  pub semicolon : Text
  pub after : Text
  pub blank_before : IsBlank before
  pub blank_gap : IsBlank gap
  pub some_gap : gap ≢ []
  pub is_expression : IsExpression expression
  pub blank_between : IsBlank between
  pub optional : (semicolon ≡ []) ⊎ (semicolon ≡ lit ";")
  pub blank_after : IsBlank after
  pub spelled :
      code ≡ before ++ (lit "return" ++ (gap ++ (expression ++ (between ++ (semicolon ++ after)))))

abbrev is_word : Text → Bool
is_word [] = true
is_word (c ∷ s) = not (is_space c) && is_word s

is_word-IsWord : (s : Text) → is_word s ≡ true → IsWord s
is_word-IsWord [] h = tt
is_word-IsWord (c ∷ s) h =
    let (e, hs) = (&&-iff (not (is_space c)) (is_word s)).0 h in (ground arith, is_word-IsWord s hs)

return_IsWord : IsWord (lit "return")
unfolding is_space lit
return_IsWord = is_word-IsWord (lit "return") refl

-- An expression is a word that does not end with a semicolon.
IsExpression-IsWord :
    (e : Text)
    → IsExpression e
    → IsWord e
      × ((s : Text) × (d : ℕ) × (e ≡ s ++ d ∷ []) × (is_space d ≡ false) × ((d == 59) ≡ false))
unfolding is_space lit
IsExpression-IsWord e version =
    (is_word-IsWord (lit "_VERSION") refl, (lit "_VERSIO", 78, refl, refl, refl))
IsExpression-IsWord e version_text = (
  is_word-IsWord (lit "tostring(_VERSION)") refl,
  (lit "tostring(_VERSION", 41, refl, refl, refl),
)
IsExpression-IsWord e loaded_type = (
  is_word-IsWord (lit "type(package.loaded)") refl,
  (lit "type(package.loaded", 41, refl, refl, refl),
)

-- The table of the probes holds exactly `return` with one of the expressions.
member-IsExpression :
    (code : Text)
    → member code safe_read_only_probes ≡ true
    → (e : Text) × IsExpression e × (code ≡ lit "return" ++ 32 ∷ e)
unfolding member lit
member-IsExpression code h = elim (Bool-cases (same code (lit "return _VERSION"))) [
  | inl a ↦ (lit "_VERSION", version, same→eq code (lit "return _VERSION") a)
  | inr a ↦ elim (Bool-cases (same code (lit "return tostring(_VERSION)"))) [
    | inl b ↦
        (lit "tostring(_VERSION)", version_text, same→eq code (lit "return tostring(_VERSION)") b)
    | inr b ↦ (
      lit "type(package.loaded)",
      loaded_type,
      same→eq code (lit "return type(package.loaded)") (ground arith),
    )
  ]
]

IsExpression-member :
    (e : Text) → IsExpression e → member (lit "return" ++ 32 ∷ e) safe_read_only_probes ≡ true
unfolding member lit same
IsExpression-member e version = refl
IsExpression-member e version_text = refl
IsExpression-member e loaded_type = refl

regroup :
    (a b c d e f g h : Text)
    → a ++ (((b ++ ((c ++ (d ++ e)) ++ f)) ++ g) ++ h)
      ≡ (a ++ b) ++ (c ++ (d ++ (e ++ (f ++ (g ++ h)))))
regroup a b c d e f g h = simp append_assoc

-- What `normalize_lua` turns into a probe is spelled like one.
normalize_lua-IsProbe :
    (code e : Text) → IsExpression e → normalize_lua code ≡ lit "return" ++ 32 ∷ e → IsProbe code
unfolding normalize_lua
normalize_lua-IsProbe code e is_e h =
    let (l, r, bl, br, outer) = strip-split code in
    let (t, optional, cut) = remove_semicolon-split (strip code) in
    let inner_text = remove_semicolon (strip code) in
    let (l', r', bl', br', inner) = strip-split inner_text in
    let (word, _) = IsExpression-IsWord e is_e in
    let (gap, bg, some_gap, words) =
      collapse_spaces-words (lit "return") e (strip inner_text) return_IsWord word h in
    record {
      before = l ++ l';
      gap = gap;
      expression = e;
      between = r';
      semicolon = t;
      after = r;
      blank_before = All-append (λ c. is_space c ≡ true) l l' bl bl';
      blank_gap = bg;
      some_gap = some_gap;
      is_expression = is_e;
      blank_between = br';
      optional = optional;
      blank_after = br;
      spelled =
          outer
          ∙ ap (λ x. l ++ (x ++ r))
              (cut ∙ ap (λ x. x ++ t) (inner ∙ ap (λ x. l' ++ (x ++ r')) words))
          ∙ regroup l l' (lit "return") gap e r' t r;
    }

-- What is spelled like a probe, `normalize_lua` turns into one.
IsProbe-normalize_lua :
    (code : Text) (p : IsProbe code) → normalize_lua code ≡ lit "return" ++ 32 ∷ p.expression
unfolding normalize_lua lit is_space
IsProbe-normalize_lua code p =
    let (word, (s, d, e, last, other)) = IsExpression-IsWord p.expression p.is_expression in
    let mid = lit "eturn" ++ (p.gap ++ s) in
    let body = lit "return" ++ (p.gap ++ p.expression) in
    let rest = p.between ++ (p.semicolon ++ p.after) in
    let is_body : b'r' ∷ (mid ++ d ∷ []) ≡ body =
      ap (λ x. b'r' ∷ x)
        (append_assoc (lit "eturn") (p.gap ++ s) (d ∷ [])
          ∙ ap (λ x. lit "eturn" ++ x)
              (append_assoc p.gap s (d ∷ []) ∙ ap (λ x. p.gap ++ x) (sym e))) in
    let regrouped : body ++ rest ≡ lit "return" ++ (p.gap ++ (p.expression ++ rest)) =
      append_assoc (lit "return") (p.gap ++ p.expression) rest
      ∙ ap (λ x. lit "return" ++ x) (append_assoc p.gap p.expression rest) in
    let stripped =
      strip-remove_semicolon p.before b'r' mid d p.between p.semicolon p.after p.blank_before
        p.blank_between p.optional p.blank_after refl last other in
    let is_code : code ≡ p.before ++ ((b'r' ∷ (mid ++ d ∷ [])) ++ rest) =
      p.spelled ∙ ap (λ x. p.before ++ x) (sym regrouped ∙ ap (λ x. x ++ rest) (sym is_body)) in
    ap (λ x. collapse_spaces false (strip (remove_semicolon (strip x)))) is_code
    ∙ ap (collapse_spaces false) (stripped ∙ is_body)
    ∙ words-collapse_spaces (lit "return") p.gap p.expression return_IsWord p.blank_gap p.some_gap
        word

is_empty-nil : (s : Text) → is_empty s ≡ true → s ≡ []
is_empty-nil [] h = refl
is_empty-nil (c ∷ s) h = cc h

strip-some : (code : Text) → is_empty (strip code) ≡ false → is_empty code ≡ false
unfolding strip strip_left strip_right
strip-some [] h = h
strip-some (c ∷ s) h = refl

nothing_normal : collapse_spaces false (strip (remove_semicolon [])) ≡ []
unfolding collapse_spaces strip strip_left strip_right remove_semicolon
nothing_normal = refl

-- A text that is blank is not a probe, and one that is not is not empty behind `strip`.
not_blank-strip : (code : Text) → ¬ IsBlank code → is_empty (strip code) ≡ false
not_blank-strip code h = elim (Bool-cases (is_empty (strip code))) [
  | inr e ↦ e
  | inl e ↦
      let (l, r, bl, br, split) = strip-split code in
      let nothing : strip code ≡ [] = is_empty-nil (strip code) e in
      absurd (
        h (
          subst IsBlank (sym (split ∙ ap (λ x. l ++ (x ++ r)) nothing))
            (All-append (λ c. is_space c ≡ true) l r bl br)))
]

IsProbe-not_blank : (code : Text) → IsProbe code → is_empty (strip code) ≡ false
unfolding normalize_lua
IsProbe-not_blank code p = elim (Bool-cases (is_empty (strip code))) [
  | inr e ↦ e
  | inl e ↦ absurd (never (is_empty-nil (strip code) e))
]
  where
    never : strip code ≡ [] → ⊥
    never nothing =
        let gone : normalize_lua code ≡ [] =
          ap (λ x. collapse_spaces false (strip (remove_semicolon x))) nothing ∙ nothing_normal in
        let e : [] ≡ lit "return" ++ 32 ∷ p.expression = sym gone ∙ IsProbe-normalize_lua code p in
        unfold lit in cc e

-- `require_safe_lua` accepts code exactly if it is allowed explicitly and not blank, or if it is spelled
-- like one of the three built-in probes: a `return`, blanks and the probe's expression, perhaps with one
-- semicolon behind these, and blanks anywhere around them.
pub require_safe_lua_iff :
    (code : Text) (allow_unsafe : Bool)
    → (require_safe_lua code allow_unsafe ≡ ok tt)
      ↔ (((¬ IsBlank code) × (allow_unsafe ≡ true)) ⊎ IsProbe code)
unfolding require_safe_lua
require_safe_lua_iff code allow_unsafe = (
  λ h. raise_if-cases (is_empty code || is_empty (strip code)) _ _ h λ visible h₁.
      elim (Bool-cases allow_unsafe) [
        | inl allowed ↦ inl (λ blank. visible_not_blank blank visible, allowed)
        | inr not_allowed ↦
            let known : member (normalize_lua code) safe_read_only_probes ≡ true = ground arith in
            let (e, is_e, same_code) = member-IsExpression (normalize_lua code) known in
            inr (normalize_lua-IsProbe code e is_e same_code)
      ],
  λ c. elim c [
    | inl (visible, allowed) ↦ accepted (not_blank-strip code visible) (inl allowed)
    | inr p ↦
        accepted (IsProbe-not_blank code p) (
          inr
            (rw (IsProbe-normalize_lua code p) (IsExpression-member p.expression p.is_expression)))
  ],
)
  where
    visible_not_blank : IsBlank code → (is_empty code || is_empty (strip code)) ≡ false → ⊥
    visible_not_blank blank visible =
        let gone = ap is_empty (strip-blank code blank) in ground arith

    accepted :
        is_empty (strip code) ≡ false
        → (allow_unsafe ≡ true) ⊎ (member (normalize_lua code) safe_read_only_probes ≡ true)
        → require_safe_lua code allow_unsafe ≡ ok tt
    accepted visible c = let some_code = strip-some code visible in ground arith
