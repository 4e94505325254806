-- ===== src/Balance.antt =====
-- src/mesh/mesh-amr_loadbalance.cpp: which blocks go to which rank.
pub mod Assign
pub mod BlockList
