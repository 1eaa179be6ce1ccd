-- ===== src/Controller/ResourceSet.antt =====
-- `K1sResourceSetReconciler` of capability_controller.go.
pub mod Types
pub mod Status
pub mod Manifests
pub mod Pass
pub mod Reconcile
