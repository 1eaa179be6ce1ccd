-- ===== src/Api.antt =====
-- api/v1alpha1: the custom resources. `Meta` has what the code uses of the Kubernetes API machinery.
pub mod Meta
pub mod Common
pub mod Cluster
pub mod Exposure
pub mod Mirror
pub mod Capability
pub mod Scheme
