-- ===== src/Tests.antt =====
-- Runs of the theorems at concrete inputs: an in-memory k1s API, one cluster and one resource set.
pub mod Objects
pub mod World
pub mod Apps
pub mod Inference
pub mod Lives
pub mod Passes
pub mod Clusters
pub mod Probes
pub mod Exposures
pub mod Sets
pub mod Policies
pub mod Frames
pub mod Trips
pub mod Managers
pub mod Values
pub mod Leaders
