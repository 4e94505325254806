-- ===== src/Metadata.antt =====
-- The metadata of variables: src/interface/metadata.hpp and .cpp. A string is the list of its bytes.
mod Flag
mod Bits
mod Same
mod Construct
mod Valid
mod Defaults
mod Built
mod Admits
mod Reads
mod Again
mod Collection
mod Select
unfoldable pub use Flag.*
unfoldable pub use Bits.*
unfoldable pub use Same.*
unfoldable pub use Construct.*
unfoldable pub use Valid.*
unfoldable pub use Defaults.*
unfoldable pub use Built.*
unfoldable pub use Admits.*
unfoldable pub use Reads.*
unfoldable pub use Again.*
unfoldable pub use Collection.*
unfoldable pub use Select.*
