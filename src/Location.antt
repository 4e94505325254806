-- ===== src/Location.antt =====
-- src/mesh/forest/logical_location.hpp and src/mesh/forest/logical_location.cpp, and the coordinate
-- transformation between trees.
pub mod Defs
pub mod Parent
pub mod Neighbor
