-- ===== src/Registry.antt =====
-- control-plane/src/index.ts: the registry of installations behind the remote access service.
pub mod Access
pub mod Action
pub mod Alerts
pub mod Approvals
pub mod Bundles
pub mod Cleanup
pub mod Data
pub mod Device
pub mod Dispatch
pub mod Diagnostics
pub mod Enrollment
pub mod Fleet
pub mod Forms
pub mod Handler
pub mod Limits
pub mod Names
pub mod Panel
pub mod Pending
pub mod Provider
pub mod Provision
pub mod Refusals
pub mod Replies
pub mod Replay
pub mod Revocation
pub mod Rows
pub mod Rules
pub mod Slots
pub mod Sources
pub mod Windows
