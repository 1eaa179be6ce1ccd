-- ===== src/Controller/Inference.antt =====
-- The K1sInferenceEndpoint reconciler of capability_controller.go.
pub mod Manifest
pub mod Status
pub mod Pass
pub mod Reconcile
pub mod Life
