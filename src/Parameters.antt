-- ===== src/Parameters.antt =====
-- src/parameter_input.hpp and src/parameter_input.cpp: the input parameters, a singly linked list
-- of blocks, each with a singly linked list of lines.
pub mod Store
pub mod Line
pub mod Stream
pub mod CommandLine
pub mod Values
pub mod ParseDump
pub mod Lookup
pub mod Writable
pub mod Reload
pub mod Sound
pub mod SoundOps
pub mod Syntax
pub mod ReadBack
pub mod Vectors
