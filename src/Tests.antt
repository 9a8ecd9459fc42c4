-- ===== src/Tests.antt =====
-- Runs of the model on concrete inputs, and each theorem at an input that meets its hypotheses.
mod Fixtures
mod Merkle
mod Policy
mod Measure
mod Tool
mod Interface
