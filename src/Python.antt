-- ===== src/Python.antt =====
-- What the program uses of Python's language and standard library.
pub mod Value
pub mod Text
pub mod Decimal
pub mod Unicode
pub mod Hex
pub mod Sorting
pub mod Collect
