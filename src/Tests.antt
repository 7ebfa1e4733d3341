-- ===== src/Tests.antt =====
-- Runs of the components at small inputs, and their theorems applied there.
pub mod Books
pub mod Tables
pub mod Packets
pub mod Market
pub mod Wire
pub mod Feed
pub mod PacketFeeds
pub mod Ring
pub mod Publish
pub mod Archive
