-- ===== src/Packages.antt =====
-- Packages and the state that they resolve to: src/interface/state_descriptor.hpp and .cpp. A string is the list
-- of its bytes; a map is the list of its entries, in the order in which a loop visits them.
mod Tracker
mod Plan
mod Noted
mod Resolved
mod Offers
mod Consistent
mod Descriptor
mod Values
mod Typed
mod Sparse
mod Names
mod Listing
mod Fluxes
unfoldable pub use Tracker.*
unfoldable pub use Plan.*
unfoldable pub use Noted.*
unfoldable pub use Resolved.*
unfoldable pub use Offers.*
unfoldable pub use Consistent.*
unfoldable pub use Descriptor.*
unfoldable pub use Values.*
unfoldable pub use Typed.*
unfoldable pub use Sparse.*
unfoldable pub use Names.*
unfoldable pub use Listing.*
unfoldable pub use Fluxes.*
