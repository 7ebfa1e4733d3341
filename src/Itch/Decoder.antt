-- ===== src/Itch/Decoder.antt =====
-- common/market_data/itch/ItchDecoder.cpp: one decoder for each message.
mod Words
mod Orders
mod Trades
mod Stocks
mod Market
unfoldable pub use Words.{read_u16, read_u32, read_u48, read_u64, chars, decoded}
unfoldable pub use Orders.*
unfoldable pub use Trades.*
unfoldable pub use Stocks.*
unfoldable pub use Market.*
