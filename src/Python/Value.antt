-- ===== src/Python/Value.antt =====
-- Python values, as far as the program tells them apart by `isinstance`. A `str` is the list of its
-- code points.
use mumu_autotask.Prelude.{ℕ, Bool, List}

abbrev pub Text : Type 0
Text = List ℕ

-- `negsuc n` is -(n + 1).
pub data ℤ : Type 0 where
  pos : ℕ → ℤ
  negsuc : ℕ → ℤ

pub data Value : Type 0 where
  none_value : Value
  bool : Bool → Value
  int : ℤ → Value
  str : Text → Value
  other : Value

-- What the program iterates over: a text, a byte string, or a sequence of values.
pub data Sequence : Type 0 where
  text : Text → Sequence
  byte_string : List ℕ → Sequence
  items : List Value → Sequence
