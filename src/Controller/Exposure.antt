-- ===== src/Controller/Exposure.antt =====
-- internal/controller/exposure_controller.go: the K1sExposure reconciler.
pub mod Objects
pub mod Status
pub mod Reconcile
