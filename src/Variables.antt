-- ===== src/Variables.antt =====
-- The variables of a block and where they come from, in src/interface: meshblock_data.hpp and .cpp,
-- sparse_pool.cpp, variable_pack.hpp, state_descriptor.hpp and .cpp and params.hpp.
mod Block
mod Listed
unfoldable pub use Block.*
unfoldable pub use Listed.*
