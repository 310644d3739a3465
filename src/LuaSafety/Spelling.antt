-- ===== src/LuaSafety/Spelling.antt =====
-- How `strip`, the cut of a final semicolon and the collapse of blanks take a text apart.
use mumu_autotask.Prelude.{
  ℕ, ◌≡◌, ◌⊎◌, refl, sym, ap, ◌∙◌, inl, inr, true, false, [], ◌∷◌, ◌++◌, append_assoc, append-nil,
  ◌==◌, ==_iff, Bool-cases, All, All-append,
}
use mumu_autotask.Python.Value.{Text}
use mumu_autotask.Python.Text.{lit}
use mumu_autotask.Python.Unicode.{is_space, strip_left, strip_right, strip}
use mumu_autotask.LuaSafety.{remove_semicolon}

-- Blanks only, and no blank
abbrev pub IsBlank : Text → Type 0
IsBlank s = All (λ c. is_space c ≡ true) s

abbrev pub IsWord : Text → Type 0
IsWord s = All (λ c. is_space c ≡ false) s

strip_left-split : (s : Text) → (l : Text) × IsBlank l × (s ≡ l ++ strip_left s)
unfolding strip_left
strip_left-split [] = ([], tt, refl)
strip_left-split (c ∷ s) = elim (Bool-cases (is_space c)) [
  | inl e ↦ let (l, b, split) = strip_left-split s in (c ∷ l, (e, b), rw e (ap (λ t. c ∷ t) split))
  | inr e ↦ ([], tt, rw e refl)
]

List-cases : (s : Text) → (s ≡ []) ⊎ ((d : ℕ) × (t : Text) × (s ≡ d ∷ t))
List-cases [] = inl refl
List-cases (d ∷ t) = inr (d, t, refl)

strip_right-split : (s : Text) → (r : Text) × IsBlank r × (s ≡ strip_right s ++ r)
unfolding strip_right
strip_right-split [] = ([], tt, refl)
strip_right-split (c ∷ s) =
    let (r, b, split) = strip_right-split s in
    elim (List-cases (strip_right s)) [
      | inl none_left ↦
          let is_r : s ≡ r = split ∙ ap (λ t. t ++ r) none_left in
          elim (Bool-cases (is_space c)) [
            | inl e ↦ (c ∷ r, (e, b), rw (none_left, e) (ap (λ t. c ∷ t) is_r))
            | inr e ↦ (r, b, rw (none_left, e) (ap (λ t. c ∷ t) is_r))
          ]
      | inr (d, t, left) ↦
          let is_rest : s ≡ (d ∷ t) ++ r = split ∙ ap (λ u. u ++ r) left in
          (r, b, rw left (ap (λ u. c ∷ u) is_rest))
    ]

-- A text is what `strip` leaves of it between blanks.
pub strip-split :
    (s : Text) → (l : Text) × (r : Text) × IsBlank l × IsBlank r × (s ≡ l ++ (strip s ++ r))
unfolding strip
strip-split s =
    let (l, bl, el) = strip_left-split s in
    let (r, br, er) = strip_right-split (strip_left s) in (l, r, bl, br, el ∙ ap (λ t. l ++ t) er)

strip_left-blank : (l s : Text) → IsBlank l → strip_left (l ++ s) ≡ strip_left s
unfolding strip_left
strip_left-blank [] s b = refl
strip_left-blank (c ∷ l) s (e, b) = rw e (strip_left-blank l s b)

strip_right-blank : (s r : Text) → IsBlank r → strip_right (s ++ r) ≡ strip_right s
unfolding strip_right
strip_right-blank [] [] b = refl
strip_right-blank [] (c ∷ r) (e, b) = rw (strip_right-blank [] r b, e) refl
strip_right-blank (c ∷ s) r b = rw (strip_right-blank s r b) refl

strip_right-last : (s : Text) (c : ℕ) → is_space c ≡ false → strip_right (s ++ c ∷ []) ≡ s ++ c ∷ []
unfolding strip_right
strip_right-last [] c e = rw e refl
strip_right-last (d ∷ []) c e = rw (strip_right, e) refl
strip_right-last (d ∷ f ∷ s) c e = rw (strip_right-last (f ∷ s) c e) refl

-- What stands between blanks and begins and ends without one is what `strip` leaves.
pub strip-between :
    (l : Text) (c : ℕ) (s : Text) (d : ℕ) (r : Text)
    → IsBlank l
    → IsBlank r
    → is_space c ≡ false
    → is_space d ≡ false
    → strip (l ++ ((c ∷ (s ++ d ∷ [])) ++ r)) ≡ c ∷ (s ++ d ∷ [])
unfolding strip strip_left
strip-between l c s d r bl br first last =
    let body = c ∷ (s ++ d ∷ []) in
    let begun : strip_left (body ++ r) ≡ body ++ r = rw first refl in
    rw (strip_left-blank l (body ++ r) bl, begun, strip_right-blank body r br)
      (strip_right-last (c ∷ s) d last)

pub strip-blank : (s : Text) → IsBlank s → strip s ≡ []
unfolding strip strip_left strip_right
strip-blank s b =
    let gone : strip_left s ≡ [] = ap strip_left (sym (append-nil s)) ∙ strip_left-blank s [] b in
    rw gone refl

-- A text is what `removesuffix(";")` leaves of it, with or without a semicolon.
pub remove_semicolon-split :
    (s : Text) → (t : Text) × ((t ≡ []) ⊎ (t ≡ lit ";")) × (s ≡ remove_semicolon s ++ t)
unfolding remove_semicolon lit
remove_semicolon-split [] = ([], inl refl, refl)
remove_semicolon-split (c ∷ []) = elim (Bool-cases (c == 59)) [
  | inl e ↦ (lit ";", inr refl, rw e (ap (λ d. d ∷ []) ((==_iff c 59).0 e)))
  | inr e ↦ ([], inl refl, rw e refl)
]
remove_semicolon-split (c ∷ d ∷ s) =
    let (t, kind, split) = remove_semicolon-split (d ∷ s) in (t, kind, ap (λ u. c ∷ u) split)

pub remove_semicolon-other :
    (s : Text) (c : ℕ) → (c == 59) ≡ false → remove_semicolon (s ++ c ∷ []) ≡ s ++ c ∷ []
unfolding remove_semicolon
remove_semicolon-other [] c e = rw e refl
remove_semicolon-other (d ∷ []) c e = rw e refl
remove_semicolon-other (d ∷ f ∷ s) c e = ap (λ u. d ∷ u) (remove_semicolon-other (f ∷ s) c e)

pub remove_semicolon-last : (s : Text) → remove_semicolon (s ++ lit ";") ≡ s
unfolding remove_semicolon lit
remove_semicolon-last [] = refl
remove_semicolon-last (d ∷ []) = refl
remove_semicolon-last (d ∷ f ∷ s) = ap (λ u. d ∷ u) (remove_semicolon-last (f ∷ s))

-- Blanks around, a final semicolon and the blanks before it are taken off.
pub strip-remove_semicolon :
    (before : Text) (c : ℕ) (s : Text) (d : ℕ) (between semicolon after : Text)
    → IsBlank before
    → IsBlank between
    → (semicolon ≡ []) ⊎ (semicolon ≡ lit ";")
    → IsBlank after
    → is_space c ≡ false
    → is_space d ≡ false
    → (d == 59) ≡ false
    → let body = c ∷ (s ++ d ∷ []) in
      strip (remove_semicolon (strip (before ++ (body ++ (between ++ (semicolon ++ after))))))
      ≡ body
strip-remove_semicolon before c s d between semicolon after bb bt (inl none) ba first last other =
    let body = c ∷ (s ++ d ∷ []) in
    let blank = All-append (λ c. is_space c ≡ true) between after bt ba in
    let outer = strip-between before c s d (between ++ after) bb blank first last in
    ap (λ t. strip (remove_semicolon (strip (before ++ (body ++ (between ++ (t ++ after))))))) none
    ∙ ap (λ t. strip (remove_semicolon t)) outer
    ∙ ap strip (remove_semicolon-other (c ∷ s) d other)
    ∙ ap strip (sym (append-nil body))
    ∙ strip-between [] c s d [] tt tt first last
strip-remove_semicolon before c s d between semicolon after bb bt (inr one) ba first last other =
    let body = c ∷ (s ++ d ∷ []) in
    let rest = (s ++ d ∷ []) ++ between in
    let one_char : semicolon ≡ 59 ∷ [] = unfold lit in one in
    let cut : remove_semicolon ((c ∷ rest) ++ 59 ∷ []) ≡ c ∷ rest =
      unfold lit in remove_semicolon-last (c ∷ rest) in
    let semicolon_visible : is_space 59 ≡ false = unfold is_space in refl in
    let regrouped : body ++ (between ++ (59 ∷ [] ++ after)) ≡ (c ∷ (rest ++ 59 ∷ [])) ++ after =
      simp append_assoc in
    ap (λ t. strip (remove_semicolon (strip (before ++ (body ++ (between ++ (t ++ after)))))))
      one_char
    ∙ ap (λ t. strip (remove_semicolon (strip (before ++ t)))) regrouped
    ∙ ap (λ t. strip (remove_semicolon t))
        (strip-between before c rest 59 after bb ba first semicolon_visible)
    ∙ ap strip cut
    ∙ strip-between [] c s d between tt bt first last
