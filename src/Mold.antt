-- ===== src/Mold.antt =====
-- common/market_data/moldudp64: the packets that carry the messages.
pub mod Codec
pub mod Words
pub mod Frames
pub mod Packets
