-- ===== src/Hunt/Waves/Cut.antt =====
-- The waves of a queue.
use mumu_autotask.Prelude.{
  ℕ, zero, suc, ◌+◌, ◌≤◌, ◌≡◌, refl, sym, ap, ◌∙◌, inl, inr, Bool, true, ◌&&◌, leb, List, [], ◌∷◌,
  ◌++◌, append-nil, map, ltb, length, length-append, drop, arith, Bool-cases, All, ok,
}
use mumu_autotask.Python.Value.{int, pos}
use mumu_autotask.Business.Select.{keep_if}
use mumu_autotask.Hunt.Target.{HuntBatchTarget, is_monster, check_concurrency}
use mumu_autotask.Hunt.Waves.{
  take, range_from, range, is_battle, monster_waves, attach, build_hunt_waves,
}
use mumu_autotask.Hunt.Waves.Slices.{concat, length-take, take_ne, slices}

abbrev pub monsters : List HuntBatchTarget → List HuntBatchTarget
monsters = keep_if is_monster

abbrev pub battles : List HuntBatchTarget → List HuntBatchTarget
battles = keep_if is_battle

-- All battle targets are in the first wave, and there is one if there are any.
abbrev pub InFirst : List HuntBatchTarget → List (List HuntBatchTarget) → Type 0
InFirst fighters [] = fighters ≡ []
InFirst fighters (wave ∷ waves) = (battles wave ≡ fighters) × All (λ w. battles w ≡ []) waves

-- A wave of monsters only, for so many teams.
abbrev IsMarch : ℕ → List HuntBatchTarget → Type 0
IsMarch teams wave = All (λ t. is_monster t ≡ true) wave × (1 ≤ length wave) × (length wave ≤ teams)

keep_if-All : {A : Type 0} (p : A → Bool) (xs : List A) → All (λ x. p x ≡ true) (keep_if p xs)
unfolding keep_if
keep_if-All p [] = tt
keep_if-All p (x ∷ xs) = elim (Bool-cases (p x)) [
  | inl e ↦ rw e (e, keep_if-All p xs)
  | inr e ↦ rw e (keep_if-All p xs)
]

monsters_eq : (ts : List HuntBatchTarget) → All (λ t. is_monster t ≡ true) ts → monsters ts ≡ ts
unfolding keep_if
monsters_eq [] h = refl
monsters_eq (t ∷ ts) (h, hs) = rw (h, monsters_eq ts hs)

no_battles : (ts : List HuntBatchTarget) → All (λ t. is_monster t ≡ true) ts → battles ts ≡ []
unfolding keep_if is_battle
no_battles [] h = refl
no_battles (t ∷ ts) (h, hs) = rw (h, no_battles ts hs)

monsters-battles : (ts : List HuntBatchTarget) → monsters (battles ts) ≡ []
unfolding keep_if is_battle
monsters-battles [] = refl
monsters-battles (t ∷ ts) = elim (Bool-cases (is_monster t)) [
  | inl e ↦ rw (e, monsters-battles ts)
  | inr e ↦ rw (e, e, monsters-battles ts)
]

battles_idem : (ts : List HuntBatchTarget) → battles (battles ts) ≡ battles ts
unfolding keep_if is_battle
battles_idem [] = refl
battles_idem (t ∷ ts) = elim (Bool-cases (is_monster t)) [
  | inl e ↦ rw (e, battles_idem ts)
  | inr e ↦ rw (e, e, battles_idem ts)
]

keep_if-append :
    {A : Type 0} (p : A → Bool) (xs ys : List A)
    → keep_if p (xs ++ ys) ≡ keep_if p xs ++ keep_if p ys
unfolding keep_if
keep_if-append p [] ys = refl
keep_if-append p (x ∷ xs) ys = elim (Bool-cases (p x)) [
  | inl e ↦ rw (e, keep_if-append p xs ys)
  | inr e ↦ rw (e, keep_if-append p xs ys)
]

module _ {A : Type 0} (P : A → Type 0) where
  All-drop : (n : ℕ) (xs : List A) → All P xs → All P (drop n xs)
  All-drop zero xs h = h
  All-drop (suc n) [] h = tt
  All-drop (suc n) (x ∷ xs) (p, h) = All-drop n xs h

  All-take : (n : ℕ) (xs : List A) → All P xs → All P (take n xs)
  All-take zero xs h = tt
  All-take (suc n) [] h = tt
  All-take (suc n) (x ∷ xs) (p, h) = (p, All-take n xs h)

range_from-IsMarch :
    (fuel i teams : ℕ) (ts : List HuntBatchTarget)
    → 1 ≤ teams
    → All (λ t. is_monster t ≡ true) ts
    → All (IsMarch teams) (map (λ j. take teams (drop j ts)) (range_from fuel i (length ts) teams))
unfolding range_from
range_from-IsMarch zero i teams ts h m = tt
range_from-IsMarch (suc fuel) i teams ts h m = elim (Bool-cases (ltb i (length ts))) [
  | inl e ↦
      let all =
        All-take (λ t. is_monster t ≡ true) teams (drop i ts)
          (All-drop (λ t. is_monster t ≡ true) i ts m) in
      rw e (
        (all, take_ne teams i ts h (ground arith), length-take teams (drop i ts)),
        range_from-IsMarch fuel (i + teams) teams ts h m,
      )
  | inr e ↦ rw e tt
]

-- Waves of monsters only, as one queue and wave by wave.
march-lem :
    (teams : ℕ) (waves : List (List HuntBatchTarget))
    → All (IsMarch teams) waves
    → (concat (map monsters waves) ≡ concat waves)
      × All (λ w. (1 ≤ length w) × (length (monsters w) ≤ teams)) waves
      × All (λ w. battles w ≡ []) waves
march-lem teams [] h = (refl, tt, tt)
march-lem teams (w ∷ waves) ((m, some, few), h) =
    let (one, caps, none) = march-lem teams waves h in
    (rw (monsters_eq w m, one), ((some, rw (monsters_eq w m) few), caps), (no_battles w m, none))

-- The waves of a queue: the monsters in their order, no more of them in a wave than teams, all battle
-- targets in the first wave, and no empty wave.
pub record IsWaves (teams : ℕ) (targets : List HuntBatchTarget)
    (waves : List (List HuntBatchTarget)) : Type 0 where
  pub order : concat (map monsters waves) ≡ monsters targets
  pub caps : All (λ w. (1 ≤ length w) × (length (monsters w) ≤ teams)) waves
  pub first : InFirst (battles targets) waves

attach-IsWaves :
    (teams : ℕ) (targets fighters : List HuntBatchTarget) (waves : List (List HuntBatchTarget))
    → All (IsMarch teams) waves
    → concat waves ≡ monsters targets
    → battles targets ≡ fighters
    → IsWaves teams targets (attach fighters waves)
unfolding attach
attach-IsWaves teams targets [] [] h c f = record { order = c; caps = tt; first = f }
attach-IsWaves teams targets [] (w ∷ waves) h c f =
    let (one, caps, none) = march-lem teams (w ∷ waves) h in
    record { order = one ∙ c; caps = caps; first = (none.0 ∙ sym f, none.1) }
attach-IsWaves teams targets (b ∷ fighters) [] h c f =
    let again : battles (b ∷ fighters) ≡ b ∷ fighters =
      ap battles (sym f) ∙ battles_idem targets ∙ f in
    let no_monster : monsters (b ∷ fighters) ≡ [] =
      ap monsters (sym f) ∙ monsters-battles targets in
    record {
      order = rw no_monster c;
      caps = ((omega arith, rw no_monster (omega arith)), tt);
      first = (again ∙ sym f, tt);
    }
attach-IsWaves teams targets (b ∷ fighters) (w ∷ waves) (h, hs) c f =
    let again : battles (b ∷ fighters) ≡ b ∷ fighters =
      ap battles (sym f) ∙ battles_idem targets ∙ f in
    let no_monster : monsters (b ∷ fighters) ≡ [] =
      ap monsters (sym f) ∙ monsters-battles targets in
    let (m, some, few) = h in
    let (one, caps, none) = march-lem teams waves hs in
    let same_w : monsters (w ++ b ∷ fighters) ≡ w =
      keep_if-append is_monster w (b ∷ fighters)
      ∙ ap (λ ys. monsters w ++ ys) no_monster
      ∙ append-nil (monsters w)
      ∙ monsters_eq w m in
    record {
      order = rw (same_w, one) c;
      caps = ((omega (arith, length-append w (b ∷ fighters), some), rw same_w few), caps);
      first = (
        keep_if-append is_battle w (b ∷ fighters)
            ∙ ap (λ ys. ys ++ battles (b ∷ fighters)) (no_battles w m)
            ∙ again
            ∙ sym f,
        none,
      );
    }

-- With one to four teams every queue of targets is cut into waves: the waves hold its monsters in
-- their order, and no more monsters in a wave than there are teams; all battle targets, in their
-- order, are in the first wave; and no wave is empty.
pub build_hunt_waves-IsWaves :
    (targets : List HuntBatchTarget) (teams : ℕ)
    → 1 ≤ teams
    → teams ≤ 4
    → (waves : List (List HuntBatchTarget)) × (build_hunt_waves targets (int (pos teams))
        ≡ ok waves)
      × IsWaves teams targets waves
unfolding build_hunt_waves check_concurrency monster_waves range
build_hunt_waves-IsWaves targets teams some few =
    let allowed : (leb 1 teams && leb teams 4) ≡ true = ground arith in
    let all = keep_if-All is_monster targets in
    (
      attach (battles targets) (monster_waves (monsters targets) teams),
      rw allowed,
      attach-IsWaves teams targets (battles targets) (monster_waves (monsters targets) teams)
          (range_from-IsMarch (length (monsters targets)) 0 teams (monsters targets) some all)
          (slices (length (monsters targets)) 0 teams (monsters targets) some (omega arith)) refl,
    )
