-- ===== src/Itch/Market.antt =====
-- common/market_data/itch/ItchMarketState.h. A handler returns the new state; `none` stands for
-- what the source leaves undefined (the use of an erased level) and for a `removeAt` that does
-- not end.
pub mod State
pub mod Resting
pub mod Handlers
pub mod Spec
pub mod Weights
pub mod Consistent
pub mod Keeps
pub mod Shown
pub mod Entry
pub mod Invariant
pub mod Joining
pub mod Safe
pub mod Outcomes
pub mod Messages
pub mod Replace
pub mod History
pub mod Initial
