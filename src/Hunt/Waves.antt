-- ===== src/Hunt/Waves.antt =====
-- gui.py: `build_hunt_waves`, which cuts a queue of targets into waves of dispatches.
pub mod Slices
pub mod Cut
use mumu_autotask.Prelude.{
  ℕ, zero, suc, ◌+◌, Bool, true, false, not, List, [], ◌∷◌, ◌++◌, map, ltb, length, drop, is_empty,
  if◌then◌else◌, Result, ok, ◌>>=◌,
}
use mumu_autotask.Python.Value.{Value}
use mumu_autotask.Business.Select.{keep_if}
use mumu_autotask.Hunt.Target.{HuntBatchTarget, is_monster, check_concurrency}

-- `xs[:n]`
abbrev pub take {ℓ} : {A : Type ℓ} → ℕ → List A → List A
take zero xs = []
take (suc n) [] = []
take (suc n) (x ∷ xs) = x ∷ take n xs

-- `range(start, stop, step)`, of a positive step; one unit of fuel is used for each number.
unfoldable pub range_from : ℕ → ℕ → ℕ → ℕ → List ℕ
range_from zero start stop step = []
range_from (suc fuel) start stop step =
    let rest = range_from fuel (start + step) stop step in
    if ltb start stop then start ∷ rest else []

-- `range(0, stop, step)` has `stop` numbers at most.
unfoldable pub range : ℕ → ℕ → List ℕ
unfolding range_from
range stop step = range_from stop 0 stop step

-- `target.category != "monster"`
unfoldable pub is_battle : HuntBatchTarget → Bool
unfolding is_monster
is_battle target = not (is_monster target)

-- `monster_targets[index : index + concurrency] for index in range(...)`
unfoldable pub monster_waves : List HuntBatchTarget → ℕ → List (List HuntBatchTarget)
unfolding range
monster_waves monsters concurrency =
    map (λ index. take concurrency (drop index monsters)) (range (length monsters) concurrency)

-- The battle targets are attached to the first wave, or are the only one.
unfoldable pub attach :
    List HuntBatchTarget → List (List HuntBatchTarget) → List (List HuntBatchTarget)
attach [] waves = waves
attach (b ∷ battles) [] = (b ∷ battles) ∷ []
attach (b ∷ battles) (wave ∷ waves) = (wave ++ b ∷ battles) ∷ waves

unfoldable pub build_hunt_waves :
    List HuntBatchTarget → Value → Result (List (List HuntBatchTarget))
unfolding is_monster is_battle monster_waves attach
build_hunt_waves targets concurrency = do
  teams ← check_concurrency concurrency
  ok (attach (keep_if is_battle targets) (monster_waves (keep_if is_monster targets) teams))
