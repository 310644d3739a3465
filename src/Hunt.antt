-- ===== src/Hunt.antt =====
-- gui.py: the batches of intelligence targets that the controller window works through.
pub mod Target
pub mod Slots
pub mod Waves
pub mod Sequence
pub mod Selection
pub mod Json
pub mod Receipts
pub mod Answers
