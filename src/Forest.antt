-- ===== src/Forest.antt =====
-- src/mesh/forest/tree.hpp, src/mesh/forest/tree.cpp and
-- src/mesh/forest/logical_coordinate_transformation.cpp: the trees of blocks and their refinement.
pub mod LocMap
pub mod Transformation
pub mod Tree
