-- ===== src/Ownership.antt =====
-- Which parts of the shared boundary a block owns: src/mesh/forest/block_ownership.cpp.
pub mod Mask
pub mod Reading
pub mod Determine
pub mod Exclusive
