-- ===== src/Registry/Slots.antt =====
-- The installations that count as active, against the counter of the statistics.
pub mod Count
pub mod Enrolling
pub mod Fleet
pub mod Invariant
pub mod Revoking
pub mod Pending
pub mod Provisioning
pub mod Requests
pub mod Renewal
pub mod Leak
pub mod Routes
pub mod Serve
pub mod Steady
pub mod Uploads
