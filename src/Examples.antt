-- ===== src/Examples.antt =====
-- The theorems at concrete inputs, and runs of the model.
pub mod ParametersAt
pub mod CommAt
pub mod MeshAt
pub mod TasksAt
pub mod OwnershipAt
pub mod SwarmAt
pub mod RegionAt
pub mod BuildAt
pub mod MetadataAt
pub mod PackagesAt
pub mod ContainersAt
