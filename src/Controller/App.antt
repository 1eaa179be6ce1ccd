-- ===== src/Controller/App.antt =====
-- The K1sApp reconciler of capability_controller.go.
pub mod Status
pub mod Pass
pub mod Reconcile
