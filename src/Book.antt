-- ===== src/Book.antt =====
-- common/market_data/book and the types of common/market_data/normalized that it uses:
-- price levels, the two sides of an order book, the best bid and offer, and the table of books.
pub mod Types
pub mod Level
pub mod Levels
pub mod Sides
pub mod Orders
pub mod Effects
pub mod Refine
pub mod Best
pub mod Bbo
pub mod Quote
pub mod Store
