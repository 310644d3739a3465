-- ===== src/LuaSafety/Words.antt =====
-- How the collapse of blanks reads two words with a gap between them.
use mumu_autotask.Prelude.{
  ℕ, ◌≡◌, ◌≢◌, refl, sym, ap, ◌∙◌, inl, inr, true, false, [], ◌∷◌, ◌++◌, append-nil, Bool-cases,
}
use mumu_autotask.Python.Value.{Text}
use mumu_autotask.Python.Unicode.{is_space}
use mumu_autotask.LuaSafety.{collapse_spaces}
use mumu_autotask.LuaSafety.Spelling.{IsBlank, IsWord}

not_blank : (c : ℕ) → is_space c ≡ false → c ≡ 32 → is_space 32 ≡ false
not_blank c e p = ap is_space (sym p) ∙ e

-- The text begins with the word that its collapse begins with.
read_word :
    (w s q : Text)
    → IsWord w
    → collapse_spaces false s ≡ w ++ q
    → (t : Text) × (s ≡ w ++ t) × (collapse_spaces false t ≡ q)
unfolding collapse_spaces
read_word [] s q h e = (s, refl, e)
read_word (c ∷ w) [] q (h, hs) e = absurd (cc e)
read_word (c ∷ w) (d ∷ s) q (h, hs) e = elim (Bool-cases (is_space d)) [
  | inl b ↦
      let e' : 32 ∷ collapse_spaces true s ≡ c ∷ (w ++ q) = rw b at e in
      let p : c ≡ 32 = cc e' in
      let k : is_space 32 ≡ false = not_blank c h p in absurd (unfold is_space in cc k)
  | inr b ↦
      let e' : d ∷ collapse_spaces false s ≡ c ∷ (w ++ q) = rw b at e in
      let (t, split, rest) = read_word w s q hs (cc e') in
      let p : d ≡ c = cc e' in (t, cc (split, p), rest)
]

-- Behind a blank, more blanks may follow.
read_gap :
    (s q : Text)
    → collapse_spaces true s ≡ q
    → (gap : Text) × (t : Text) × IsBlank gap × (s ≡ gap ++ t) × (collapse_spaces false t ≡ q)
unfolding collapse_spaces
read_gap [] q e = ([], [], tt, refl, e)
read_gap (c ∷ s) q e = elim (Bool-cases (is_space c)) [
  | inl b ↦
      let (gap, t, blank, split, rest) = read_gap s q (rw b at e) in
      (c ∷ gap, t, (b, blank), ap (λ u. c ∷ u) split, rest)
  | inr b ↦ let e' : c ∷ collapse_spaces false s ≡ q = rw b at e in ([], c ∷ s, tt, refl, rw b e')
]

read_break :
    (s q : Text)
    → collapse_spaces false s ≡ 32 ∷ q
    → (gap : Text) × (t : Text) × IsBlank gap
      × (gap ≢ [])
      × (s ≡ gap ++ t)
      × (collapse_spaces false t ≡ q)
unfolding collapse_spaces
read_break [] q e = absurd (cc e)
read_break (c ∷ s) q e = elim (Bool-cases (is_space c)) [
  | inl b ↦
      let e' : 32 ∷ collapse_spaces true s ≡ 32 ∷ q = rw b at e in
      let (gap, t, blank, split, rest) = read_gap s q (cc e') in
      (c ∷ gap, t, (b, blank), (λ p. cc p), ap (λ u. c ∷ u) split, rest)
  | inr b ↦
      let e' : c ∷ collapse_spaces false s ≡ 32 ∷ q = rw b at e in
      let p : c ≡ 32 = cc e' in
      let k : is_space 32 ≡ false = not_blank c b p in absurd (unfold is_space in cc k)
]

nothing_left : (s : Text) → collapse_spaces false s ≡ [] → s ≡ []
unfolding collapse_spaces
nothing_left [] e = refl
nothing_left (c ∷ s) e = elim (Bool-cases (is_space c)) [
  | inl b ↦ absurd (cc (rw b at e))
  | inr b ↦ absurd (cc (rw b at e))
]

-- Two words are collapsed from two words with a gap.
pub collapse_spaces-words :
    (v w s : Text)
    → IsWord v
    → IsWord w
    → collapse_spaces false s ≡ v ++ 32 ∷ w
    → (gap : Text) × IsBlank gap × (gap ≢ []) × (s ≡ v ++ (gap ++ w))
collapse_spaces-words v w s hv hw e =
    let (t, split, rest) = read_word v s (32 ∷ w) hv e in
    let (gap, u, blank, some_gap, split', rest') = read_break t w rest in
    let (z, split'', rest'') = read_word w u [] hw (rest' ∙ sym (append-nil w)) in
    let end : u ≡ w = split'' ∙ ap (λ y. w ++ y) (nothing_left z rest'') ∙ append-nil w in
    (gap, blank, some_gap, split ∙ ap (λ y. v ++ y) (split' ∙ ap (λ y. gap ++ y) end))

collapse_word :
    (w s : Text) → IsWord w → collapse_spaces false (w ++ s) ≡ w ++ collapse_spaces false s
unfolding collapse_spaces
collapse_word [] s h = refl
collapse_word (c ∷ w) s (h, hs) = rw h (ap (λ u. c ∷ u) (collapse_word w s hs))

collapse_gap :
    (gap s : Text) → IsBlank gap → collapse_spaces true (gap ++ s) ≡ collapse_spaces true s
unfolding collapse_spaces
collapse_gap [] s b = refl
collapse_gap (c ∷ gap) s (b, bs) = rw b (collapse_gap gap s bs)

collapse_last : (w : Text) → IsWord w → collapse_spaces true w ≡ w
unfolding collapse_spaces
collapse_last [] h = refl
collapse_last (c ∷ w) (h, hs) = rw h (
    ap (λ u. c ∷ u)
      (ap (collapse_spaces false) (sym (append-nil w)) ∙ collapse_word w [] hs ∙ append-nil w))

-- Two words with a gap are collapsed to two words.
pub words-collapse_spaces :
    (v gap w : Text)
    → IsWord v
    → IsBlank gap
    → gap ≢ []
    → IsWord w
    → collapse_spaces false (v ++ (gap ++ w)) ≡ v ++ 32 ∷ w
unfolding collapse_spaces
words-collapse_spaces v [] w hv b some_gap hw = absurd (some_gap refl)
words-collapse_spaces v (c ∷ gap) w hv (b, bs) some_gap hw =
    collapse_word v (c ∷ (gap ++ w)) hv
    ∙ ap (λ u. v ++ u) (rw b (ap (λ u. 32 ∷ u) (collapse_gap gap w bs ∙ collapse_last w hw)))
