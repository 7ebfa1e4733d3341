-- ===== src/Itch/Wire.antt =====
-- The wire format of the ITCH messages, apart from any decoder: the fields of a message in order,
-- numbers with the most significant byte first and characters as they are.
mod Numbers
pub mod Orders
pub mod Trades
pub mod Stocks
pub mod Market
pub mod Dispatch
pub mod Encode
pub mod Bounds
use low_latency_trading.Base.{ℕ, zero, suc, ◌+◌, ◌*◌, ◌^◌, ◌<◌, ◌≡◌, List, [], ◌∷◌, length}
use low_latency_trading.Mold.Codec.{Bytes, Span}
use low_latency_trading.Itch.Decoder.{chars}
use low_latency_trading.Itch.Messages.{
  ItchMessage, system_event, stock_directory, add_order, order_executed, order_executed_with_price,
  order_cancel, order_delete, order_replace, add_order_with_mpid, trade, cross_trade, broken_trade,
  stock_trading_action, market_participant_position, reg_sho_restriction, mwcb_decline_level,
  mwcb_status, noii, luld_auction_collar,
}

-- A number or characters, with the number of bytes.
pub data Field : Type 0 where
  num : ℕ → ℕ → Field
  text : ℕ → List ℕ → Field

-- The number that `w` bytes hold.
unfoldable pub number : ℕ → Bytes → ℕ → ℕ
number zero d o = 0
number (suc w) d o = number w d o * 256 + d (o + w)

-- The fields stand in the memory from the offset `o` on.
abbrev pub Laid : Bytes → ℕ → List Field → Type 0
Laid d o [] = Unit {0}
Laid d o (num w v ∷ fs) = (number w d o ≡ v) × Laid d (o + w) fs
Laid d o (text w xs ∷ fs) = (chars w d o ≡ xs) × Laid d (o + w) fs

-- A number below the power of 256, and as many characters as the field has bytes.
abbrev pub Fits : List Field → Type 0
Fits [] = Unit {0}
Fits (num w v ∷ fs) = (v < 256 ^ w) × Fits fs
Fits (text w xs ∷ fs) = (length xs ≡ w) × Fits fs

abbrev pub width : List Field → ℕ
width [] = 0
width (num w v ∷ fs) = w + width fs
width (text w xs ∷ fs) = w + width fs

-- The type, and then the message's fields.
unfoldable pub fields : ItchMessage → List Field
fields (system_event x) =
    num 1 b'S'
    ∷ num 2 x.stock_locate
    ∷ num 2 x.tracking_number
    ∷ num 6 x.timestamp
    ∷ num 1 x.event_code
    ∷ []
fields (stock_directory x) =
    num 1 b'R'
    ∷ num 2 x.stock_locate
    ∷ num 2 x.tracking_number
    ∷ num 6 x.timestamp
    ∷ text 8 x.stock
    ∷ num 1 x.market_category
    ∷ num 1 x.financial_status_indicator
    ∷ num 4 x.round_lot_size
    ∷ num 1 x.round_lots_only
    ∷ num 1 x.issue_classification
    ∷ text 2 x.issue_sub_type
    ∷ num 1 x.authenticity
    ∷ num 1 x.short_sale_threshold_indicator
    ∷ num 1 x.ipo_flag
    ∷ num 1 x.luld_reference_price_tier
    ∷ num 1 x.etp_flag
    ∷ num 4 x.etp_leverage_factor
    ∷ num 1 x.inverse_indicator
    ∷ []
fields (add_order x) =
    num 1 b'A'
    ∷ num 2 x.stock_locate
    ∷ num 2 x.tracking_number
    ∷ num 6 x.timestamp
    ∷ num 8 x.order_reference_number
    ∷ num 1 x.buy_sell_indicator
    ∷ num 4 x.shares
    ∷ text 8 x.stock
    ∷ num 4 x.price
    ∷ []
fields (add_order_with_mpid x) =
    num 1 b'F'
    ∷ num 2 x.stock_locate
    ∷ num 2 x.tracking_number
    ∷ num 6 x.timestamp
    ∷ num 8 x.order_reference_number
    ∷ num 1 x.buy_sell_indicator
    ∷ num 4 x.shares
    ∷ text 8 x.stock
    ∷ num 4 x.price
    ∷ text 4 x.attribution
    ∷ []
fields (order_executed x) =
    num 1 b'E'
    ∷ num 2 x.stock_locate
    ∷ num 2 x.tracking_number
    ∷ num 6 x.timestamp
    ∷ num 8 x.order_reference_number
    ∷ num 4 x.executed_shares
    ∷ num 8 x.match_number
    ∷ []
fields (order_executed_with_price x) =
    num 1 b'C'
    ∷ num 2 x.stock_locate
    ∷ num 2 x.tracking_number
    ∷ num 6 x.timestamp
    ∷ num 8 x.order_reference_number
    ∷ num 4 x.executed_shares
    ∷ num 8 x.match_number
    ∷ num 1 x.printable
    ∷ num 4 x.execution_price
    ∷ []
fields (order_cancel x) =
    num 1 b'X'
    ∷ num 2 x.stock_locate
    ∷ num 2 x.tracking_number
    ∷ num 6 x.timestamp
    ∷ num 8 x.order_reference_number
    ∷ num 4 x.cancelled_shares
    ∷ []
fields (order_delete x) =
    num 1 b'D'
    ∷ num 2 x.stock_locate
    ∷ num 2 x.tracking_number
    ∷ num 6 x.timestamp
    ∷ num 8 x.order_reference_number
    ∷ []
fields (order_replace x) =
    num 1 b'U'
    ∷ num 2 x.stock_locate
    ∷ num 2 x.tracking_number
    ∷ num 6 x.timestamp
    ∷ num 8 x.original_order_reference_number
    ∷ num 8 x.new_order_reference_number
    ∷ num 4 x.shares
    ∷ num 4 x.price
    ∷ []
fields (trade x) =
    num 1 b'P'
    ∷ num 2 x.stock_locate
    ∷ num 2 x.tracking_number
    ∷ num 6 x.timestamp
    ∷ num 8 x.order_reference_number
    ∷ num 1 x.buy_sell_indicator
    ∷ num 4 x.shares
    ∷ text 8 x.stock
    ∷ num 4 x.price
    ∷ num 8 x.match_number
    ∷ []
fields (cross_trade x) =
    num 1 b'Q'
    ∷ num 2 x.stock_locate
    ∷ num 2 x.tracking_number
    ∷ num 6 x.timestamp
    ∷ num 8 x.shares
    ∷ text 8 x.stock
    ∷ num 4 x.cross_price
    ∷ num 8 x.match_number
    ∷ num 1 x.cross_type
    ∷ []
fields (broken_trade x) =
    num 1 b'B'
    ∷ num 2 x.stock_locate
    ∷ num 2 x.tracking_number
    ∷ num 6 x.timestamp
    ∷ num 8 x.match_number
    ∷ []
fields (stock_trading_action x) =
    num 1 b'H'
    ∷ num 2 x.stock_locate
    ∷ num 2 x.tracking_number
    ∷ num 6 x.timestamp
    ∷ text 8 x.stock
    ∷ num 1 x.trading_state
    ∷ num 1 x.reserved
    ∷ text 4 x.reason
    ∷ []
fields (market_participant_position x) =
    num 1 b'L'
    ∷ num 2 x.stock_locate
    ∷ num 2 x.tracking_number
    ∷ num 6 x.timestamp
    ∷ text 4 x.mpid
    ∷ text 8 x.stock
    ∷ num 1 x.primary_market_maker
    ∷ num 1 x.market_maker_mode
    ∷ num 1 x.market_participant_state
    ∷ []
fields (reg_sho_restriction x) =
    num 1 b'Y'
    ∷ num 2 x.stock_locate
    ∷ num 2 x.tracking_number
    ∷ num 6 x.timestamp
    ∷ text 8 x.stock
    ∷ num 1 x.reg_sho_action
    ∷ []
fields (mwcb_decline_level x) =
    num 1 b'V'
    ∷ num 2 x.stock_locate
    ∷ num 2 x.tracking_number
    ∷ num 6 x.timestamp
    ∷ num 8 x.level1
    ∷ num 8 x.level2
    ∷ num 8 x.level3
    ∷ []
fields (mwcb_status x) =
    num 1 b'W'
    ∷ num 2 x.stock_locate
    ∷ num 2 x.tracking_number
    ∷ num 6 x.timestamp
    ∷ num 1 x.breached_level
    ∷ []
fields (noii x) =
    num 1 b'I'
    ∷ num 2 x.stock_locate
    ∷ num 2 x.tracking_number
    ∷ num 6 x.timestamp
    ∷ num 8 x.paired_shares
    ∷ num 8 x.imbalance_shares
    ∷ num 1 x.imbalance_direction
    ∷ text 8 x.stock
    ∷ num 4 x.far_price
    ∷ num 4 x.near_price
    ∷ num 4 x.current_reference_price
    ∷ num 1 x.cross_type
    ∷ num 1 x.price_variation_indicator
    ∷ []
fields (luld_auction_collar x) =
    num 1 b'J'
    ∷ num 2 x.stock_locate
    ∷ num 2 x.tracking_number
    ∷ num 6 x.timestamp
    ∷ text 8 x.stock
    ∷ num 4 x.auction_collar_reference_price
    ∷ num 4 x.upper_auction_collar_price
    ∷ num 4 x.lower_auction_collar_price
    ∷ num 4 x.auction_collar_extension
    ∷ []

-- The span holds the message and nothing else.
abbrev pub Accepted : Span → ItchMessage → Type 0
Accepted s m = (s.size ≡ width (fields m)) × Laid s.bytes 0 (fields m)
