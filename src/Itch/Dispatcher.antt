-- ===== src/Itch/Dispatcher.antt =====
-- common/market_data/itch/ItchDispatcher.cpp: the message in a span of bytes, by its first byte.
use low_latency_trading.Base.{Option, none, some, ◌==◌, if◌then◌else◌}
use low_latency_trading.Mold.Codec.{Span}
use low_latency_trading.Itch.Decoder.{
  decode_system_event, decode_stock_directory, decode_add_order, decode_order_executed,
  decode_order_executed_with_price, decode_order_cancel, decode_order_delete, decode_order_replace,
  decode_add_order_with_mpid, decode_trade, decode_cross_trade, decode_broken_trade,
  decode_stock_trading_action, decode_market_participant_position, decode_reg_sho_restriction,
  decode_mwcb_decline_level, decode_mwcb_status, decode_noii, decode_luld_auction_collar,
}
use low_latency_trading.Itch.Messages.{
  ItchMessage, system_event, stock_directory, add_order, order_executed, order_executed_with_price,
  order_cancel, order_delete, order_replace, add_order_with_mpid, trade, cross_trade, broken_trade,
  stock_trading_action, market_participant_position, reg_sho_restriction, mwcb_decline_level,
  mwcb_status, noii, luld_auction_collar,
}

-- The decoder's message in the variant.
unfoldable pub wrapped : {A : Type 0} → Option A → (A → ItchMessage) → Option ItchMessage
wrapped none f = none
wrapped (some m) f = some (f m)

unfoldable pub dispatch : Option Span → Option ItchMessage
unfolding wrapped
dispatch none = none
dispatch (some s) =
    let type = s.bytes 0 in
    if s.size == 0
    then none
    else if type == b'S'
    then wrapped (decode_system_event (some s)) system_event
    else if type == b'R'
    then wrapped (decode_stock_directory (some s)) stock_directory
    else if type == b'A'
    then wrapped (decode_add_order (some s)) add_order
    else if type == b'E'
    then wrapped (decode_order_executed (some s)) order_executed
    else if type == b'C'
    then wrapped (decode_order_executed_with_price (some s)) order_executed_with_price
    else if type == b'X'
    then wrapped (decode_order_cancel (some s)) order_cancel
    else if type == b'D'
    then wrapped (decode_order_delete (some s)) order_delete
    else if type == b'U'
    then wrapped (decode_order_replace (some s)) order_replace
    else if type == b'F'
    then wrapped (decode_add_order_with_mpid (some s)) add_order_with_mpid
    else if type == b'P'
    then wrapped (decode_trade (some s)) trade
    else if type == b'Q'
    then wrapped (decode_cross_trade (some s)) cross_trade
    else if type == b'B'
    then wrapped (decode_broken_trade (some s)) broken_trade
    else if type == b'H'
    then wrapped (decode_stock_trading_action (some s)) stock_trading_action
    else if type == b'L'
    then wrapped (decode_market_participant_position (some s)) market_participant_position
    else if type == b'Y'
    then wrapped (decode_reg_sho_restriction (some s)) reg_sho_restriction
    else if type == b'V'
    then wrapped (decode_mwcb_decline_level (some s)) mwcb_decline_level
    else if type == b'W'
    then wrapped (decode_mwcb_status (some s)) mwcb_status
    else if type == b'I'
    then wrapped (decode_noii (some s)) noii
    else if type == b'J'
    then wrapped (decode_luld_auction_collar (some s)) luld_auction_collar
    else none
