-- ===== src/Feed.antt =====
-- feed_handler: the handlers that check sequence numbers, recover what is missing, and hand the
-- messages on; and the recovery of common/market_data.
pub mod Types
pub mod Recovery
pub mod MoldItch
pub mod Loops
pub mod Framing
pub mod Progress
pub mod Sources
pub mod Checks
pub mod Delivery
pub mod Settling
pub mod Live
pub mod Runs
pub mod Starts
pub mod Ending
pub mod Packets
pub mod PacketChecks
pub mod PacketRuns
pub mod PacketEnding
pub mod Market
