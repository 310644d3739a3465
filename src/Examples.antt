-- ===== src/Examples.antt =====
-- Runs of the definitions on inputs that can be followed in business.py, and the theorems at
-- concrete inputs.
mod Answers
mod Fields
mod Targets
mod Marches
mod Hunts
mod Batches
mod Receipts
mod Guards
