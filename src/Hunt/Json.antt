-- ===== src/Hunt/Json.antt =====
-- The answers that `json` reads for the window, as far as the program tells them apart.
use mumu_autotask.Prelude.{ℕ, Bool, true, false, List, [], ◌∷◌, Option, some, ◌==◌, if◌then◌else◌}
use mumu_autotask.Python.Value.{Text, ℤ, pos}
use mumu_autotask.Python.Text.{same}

-- A `float` is known by the `int` that it is equal to, if there is one.
mutual
  pub data Json : Type 0 where
    null : Json
    bool : Bool → Json
    int : ℤ → Json
    float : Option ℤ → Json
    str : Text → Json
    array : Elements → Json
    object : Members → Json

  pub data Elements : Type 0 where
    no_element : Elements
    element : Json → Elements → Elements

  pub data Members : Type 0 where
    no_member : Members
    member : Text → Json → Members → Members

-- `payload.get(key, default)`
unfoldable pub get_or_else : Text → Members → Json → Json
get_or_else key no_member default = default
get_or_else key (member k v rest) default =
    let later = get_or_else key rest default in if same key k then v else later

-- `payload.get(key)`
unfoldable pub get : Text → Members → Json
unfolding get_or_else
get key payload = get_or_else key payload null

unfoldable pub to_list : Elements → List Json
to_list no_element = []
to_list (element j rest) = j ∷ to_list rest

-- `value == n`, of a natural number: `True` is equal to 1, and `False` to 0.
unfoldable pub equals : Json → ℕ → Bool
equals (int (pos m)) n = m == n
equals (float (some (pos m))) n = m == n
equals (bool true) n = n == 1
equals (bool false) n = n == 0
equals j n = false

-- `value == text`
unfoldable pub is_str : Json → Text → Bool
is_str (str s) t = same s t
is_str j t = false

-- `value is True`
abbrev pub is_true : Json → Bool
is_true (bool true) = true
is_true j = false

-- `value == list(ids)`
unfoldable pub equals_list : Json → List ℕ → Bool
unfolding equals
equals_list (array no_element) [] = true
equals_list (array (element j rest)) (n ∷ ns) =
    let others = equals_list (array rest) ns in if equals j n then others else false
equals_list j ns = false
