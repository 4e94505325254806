-- ===== src/Containers.antt =====
-- Helpers on containers under src/utils: partition_stl_containers.hpp.
mod Partition
mod Chunks
unfoldable pub use Partition.*
unfoldable pub use Chunks.*
