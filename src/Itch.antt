-- ===== src/Itch.antt =====
-- common/market_data/itch: the ITCH messages, their decoding, and the market state that they drive.
pub mod Messages
pub mod Decoder
pub mod Dispatcher
pub mod Wire
pub mod UdpCodec
pub mod Normalizer
pub mod Market
