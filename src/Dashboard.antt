-- ===== src/Dashboard.antt =====
-- frontend/src/components/dashboard: the layout of the dashboard's widgets.
pub mod Json
pub mod Widgets
pub mod Parse
pub mod Layout
pub mod Storage
pub mod Fits
pub mod Loading
pub mod Loaded
pub mod Packing
pub mod Readiness
pub mod Errors
pub mod Standing
pub mod ActiveError
