-- ===== src/Examples.antt =====
-- Concrete runs of the code, and the theorems at concrete inputs.
mod Cues
mod Enrolling
mod Fixtures
mod Fleet
mod Dashboard
mod Pairing
mod Operator
mod Registry
mod Readiness
mod Lighting
mod Proposals
mod Updater
mod Shell
