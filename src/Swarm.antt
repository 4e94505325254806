-- ===== src/Swarm.antt =====
-- The particle pool of a swarm: src/interface/swarm.hpp and .cpp.
pub mod Pool
pub mod Sound
pub mod Remove
pub mod Take
pub mod Grow
pub mod Variables
