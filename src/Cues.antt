-- ===== src/Cues.antt =====
-- tools/multitracks-cues/src: the planning, writing and verifying of MIDI cues on a setlist.
pub mod Data
pub mod Ordinals
pub mod Matching
pub mod Service
pub mod Banks
pub mod Planner
pub mod Inspect
pub mod Plan
pub mod Applier
pub mod Verifier
pub mod Proposals
pub mod Writes
pub mod Duplicates
pub mod Outside
pub mod Clear
