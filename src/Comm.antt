-- ===== src/Comm.antt =====
-- src/utils/communication_buffer.hpp: the buffer through which two blocks exchange boundary data.
pub mod Buffer
pub mod Invariant
pub mod Local
