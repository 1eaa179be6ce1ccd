-- ===== src/Controller.antt =====
-- internal/controller: the reconcilers and what they share.
pub mod Helpers
pub mod Platform
pub mod Patch
pub mod Auth
pub mod Kinds
pub mod Manifest
pub mod Managed
pub mod Separate
pub mod Keeps
pub mod Setup
pub mod Proxy
pub mod Names
pub mod Probe
pub mod Builders
pub mod Owned
pub mod Exposure
pub mod Cluster
pub mod Upkeep
pub mod App
pub mod Inference
pub mod ResourceSet
pub mod Frame
