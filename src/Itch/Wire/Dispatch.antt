-- ===== src/Itch/Wire/Dispatch.antt =====
-- itch/ItchDispatcher.cpp accepts exactly the wire format, of all messages.
use mathlib.Core.Path.{subst}
use low_latency_trading.Base.{
  ◌≡◌, ◌↔◌, refl, Bool, true, false, Option, none, some, arith, ◌==◌, if◌then◌else◌,
}
use low_latency_trading.Mold.Codec.{Span}
use low_latency_trading.Itch.Dispatcher.{dispatch, wrapped}
use low_latency_trading.Itch.Messages.{
  ItchMessage, system_event, stock_directory, add_order, order_executed, order_executed_with_price,
  order_cancel, order_delete, order_replace, add_order_with_mpid, trade, cross_trade, broken_trade,
  stock_trading_action, market_participant_position, reg_sho_restriction, mwcb_decline_level,
  mwcb_status, noii, luld_auction_collar,
}
use low_latency_trading.Itch.Wire.{Accepted, fields}
use low_latency_trading.Itch.Wire.Numbers.{number-byte}
use low_latency_trading.Itch.Wire.Orders.{
  decode_add_order-Accepted, decode_add_order_with_mpid-Accepted, decode_order_executed-Accepted,
  decode_order_executed_with_price-Accepted, decode_order_cancel-Accepted,
  decode_order_delete-Accepted, decode_order_replace-Accepted,
}
use low_latency_trading.Itch.Wire.Trades.{
  decode_trade-Accepted, decode_cross_trade-Accepted, decode_broken_trade-Accepted,
  decode_noii-Accepted,
}
use low_latency_trading.Itch.Wire.Stocks.{
  decode_stock_directory-Accepted, decode_stock_trading_action-Accepted,
  decode_market_participant_position-Accepted, decode_reg_sho_restriction-Accepted,
  decode_luld_auction_collar-Accepted,
}
use low_latency_trading.Itch.Wire.Market.{
  decode_system_event-Accepted, decode_mwcb_decline_level-Accepted, decode_mwcb_status-Accepted,
}

-- What a result of one branch or the other gives.
if-some :
    {A : Type 0} {P : Type 0} {m : A} (b : Bool) (x y : Option A)
    → (x ≡ some m → P)
    → (y ≡ some m → P)
    → (if b then x else y) ≡ some m
    → P
if-some true x y p q e = p e
if-some false x y p q e = q e

some-injective : {A : Type 0} {x y : A} → some x ≡ some y → x ≡ y
some-injective e = cc

-- A decoder that accepts only the wire format does so in the variant.
wrapped-Accepted :
    {A : Type 0} (s : Span) (f : A → ItchMessage) (o : Option A)
    → ((x : A) → o ≡ some x → Accepted s (f x))
    → (m : ItchMessage) → wrapped o f ≡ some m
    → Accepted s m
unfolding wrapped
wrapped-Accepted s f none h m e = cc
wrapped-Accepted s f (some x) h m e = subst (Accepted s) (some-injective e) (h x refl)

dispatch_sound : (s : Span) (m : ItchMessage) → dispatch (some s) ≡ some m → Accepted s m
unfolding dispatch
dispatch_sound s m =
    if-some (s.size == 0) none _ (λ e. cc)
      (if-some (s.bytes 0 == b'S') _ _
        (wrapped-Accepted s system_event _ (λ x. (decode_system_event-Accepted s x).0) m)
        (if-some (s.bytes 0 == b'R') _ _
          (wrapped-Accepted s stock_directory _ (λ x. (decode_stock_directory-Accepted s x).0) m)
          (if-some (s.bytes 0 == b'A') _ _
            (wrapped-Accepted s add_order _ (λ x. (decode_add_order-Accepted s x).0) m)
            (if-some (s.bytes 0 == b'E') _ _
              (wrapped-Accepted s order_executed _ (λ x. (decode_order_executed-Accepted s x).0) m)
              (if-some (s.bytes 0 == b'C') _ _
                (wrapped-Accepted s order_executed_with_price _
                  (λ x. (decode_order_executed_with_price-Accepted s x).0) m)
                (if-some (s.bytes 0 == b'X') _ _
                  (wrapped-Accepted s order_cancel _ (λ x. (decode_order_cancel-Accepted s x).0) m)
                  (if-some (s.bytes 0 == b'D') _ _
                    (wrapped-Accepted s order_delete _ (λ x. (decode_order_delete-Accepted s x).0)
                      m)
                    (if-some (s.bytes 0 == b'U') _ _
                      (wrapped-Accepted s order_replace _
                        (λ x. (decode_order_replace-Accepted s x).0) m)
                      (if-some (s.bytes 0 == b'F') _ _
                        (wrapped-Accepted s add_order_with_mpid _
                          (λ x. (decode_add_order_with_mpid-Accepted s x).0) m)
                        (if-some (s.bytes 0 == b'P') _ _
                          (wrapped-Accepted s trade _ (λ x. (decode_trade-Accepted s x).0) m)
                          (if-some (s.bytes 0 == b'Q') _ _
                            (wrapped-Accepted s cross_trade _
                              (λ x. (decode_cross_trade-Accepted s x).0) m)
                            (if-some (s.bytes 0 == b'B') _ _
                              (wrapped-Accepted s broken_trade _
                                (λ x. (decode_broken_trade-Accepted s x).0) m)
                              (if-some (s.bytes 0 == b'H') _ _
                                (wrapped-Accepted s stock_trading_action _
                                  (λ x. (decode_stock_trading_action-Accepted s x).0) m)
                                (if-some (s.bytes 0 == b'L') _ _
                                  (wrapped-Accepted s market_participant_position _
                                    (λ x. (decode_market_participant_position-Accepted s x).0) m)
                                  (if-some (s.bytes 0 == b'Y') _ _
                                    (wrapped-Accepted s reg_sho_restriction _
                                      (λ x. (decode_reg_sho_restriction-Accepted s x).0) m)
                                    (if-some (s.bytes 0 == b'V') _ _
                                      (wrapped-Accepted s mwcb_decline_level _
                                        (λ x. (decode_mwcb_decline_level-Accepted s x).0) m)
                                      (if-some (s.bytes 0 == b'W') _ _
                                        (wrapped-Accepted s mwcb_status _
                                          (λ x. (decode_mwcb_status-Accepted s x).0) m)
                                        (if-some (s.bytes 0 == b'I') _ _
                                          (wrapped-Accepted s noii _
                                            (λ x. (decode_noii-Accepted s x).0) m)
                                          (if-some (s.bytes 0 == b'J') _ _
                                            (wrapped-Accepted s luld_auction_collar _
                                              (λ x. (decode_luld_auction_collar-Accepted s x).0) m)
                                            (λ e. cc))))))))))))))))))))

dispatch_complete : (s : Span) (m : ItchMessage) → Accepted s m → dispatch (some s) ≡ some m
unfolding dispatch wrapped fields
dispatch_complete s (system_event x) (size, laid) =
    ground (arith, number-byte s.bytes 0, (decode_system_event-Accepted s x).1 (size, laid))
dispatch_complete s (stock_directory x) (size, laid) =
    ground (arith, number-byte s.bytes 0, (decode_stock_directory-Accepted s x).1 (size, laid))
dispatch_complete s (add_order x) (size, laid) =
    ground (arith, number-byte s.bytes 0, (decode_add_order-Accepted s x).1 (size, laid))
dispatch_complete s (add_order_with_mpid x) (size, laid) =
    ground (arith, number-byte s.bytes 0, (decode_add_order_with_mpid-Accepted s x).1 (size, laid))
dispatch_complete s (order_executed x) (size, laid) =
    ground (arith, number-byte s.bytes 0, (decode_order_executed-Accepted s x).1 (size, laid))
dispatch_complete s (order_executed_with_price x) (size, laid) =
    ground
      (arith, number-byte s.bytes 0, (decode_order_executed_with_price-Accepted s x).1 (size, laid))
dispatch_complete s (order_cancel x) (size, laid) =
    ground (arith, number-byte s.bytes 0, (decode_order_cancel-Accepted s x).1 (size, laid))
dispatch_complete s (order_delete x) (size, laid) =
    ground (arith, number-byte s.bytes 0, (decode_order_delete-Accepted s x).1 (size, laid))
dispatch_complete s (order_replace x) (size, laid) =
    ground (arith, number-byte s.bytes 0, (decode_order_replace-Accepted s x).1 (size, laid))
dispatch_complete s (trade x) (size, laid) =
    ground (arith, number-byte s.bytes 0, (decode_trade-Accepted s x).1 (size, laid))
dispatch_complete s (cross_trade x) (size, laid) =
    ground (arith, number-byte s.bytes 0, (decode_cross_trade-Accepted s x).1 (size, laid))
dispatch_complete s (broken_trade x) (size, laid) =
    ground (arith, number-byte s.bytes 0, (decode_broken_trade-Accepted s x).1 (size, laid))
dispatch_complete s (stock_trading_action x) (size, laid) =
    ground (arith, number-byte s.bytes 0, (decode_stock_trading_action-Accepted s x).1 (size, laid))
dispatch_complete s (market_participant_position x) (size, laid) =
    ground (
      arith,
      number-byte s.bytes 0,
      (decode_market_participant_position-Accepted s x).1 (size, laid),
    )
dispatch_complete s (reg_sho_restriction x) (size, laid) =
    ground (arith, number-byte s.bytes 0, (decode_reg_sho_restriction-Accepted s x).1 (size, laid))
dispatch_complete s (mwcb_decline_level x) (size, laid) =
    ground (arith, number-byte s.bytes 0, (decode_mwcb_decline_level-Accepted s x).1 (size, laid))
dispatch_complete s (mwcb_status x) (size, laid) =
    ground (arith, number-byte s.bytes 0, (decode_mwcb_status-Accepted s x).1 (size, laid))
dispatch_complete s (noii x) (size, laid) =
    ground (arith, number-byte s.bytes 0, (decode_noii-Accepted s x).1 (size, laid))
dispatch_complete s (luld_auction_collar x) (size, laid) =
    ground (arith, number-byte s.bytes 0, (decode_luld_auction_collar-Accepted s x).1 (size, laid))

-- `dispatch` of a span of memory yields a message exactly when the span has the size of the
-- message's type and holds its type and its fields in order, each number with its most significant
-- byte first.
pub dispatch-Accepted : (s : Span) (m : ItchMessage) → (dispatch (some s) ≡ some m) ↔ Accepted s m
dispatch-Accepted s m = (dispatch_sound s m, dispatch_complete s m)
