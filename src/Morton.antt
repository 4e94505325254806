-- ===== src/Morton.antt =====
-- The Morton numbers of src/utils/morton_number.hpp and the bit manipulation of src/utils/bit_hacks.hpp.
pub mod Word
pub mod Interleave
pub mod Number
