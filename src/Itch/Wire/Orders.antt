-- ===== src/Itch/Wire/Orders.antt =====
-- The decoders of itch/ItchDecoder.cpp accept exactly the wire format: the messages about
-- the life of a resting order.
use low_latency_trading.Base.{◌≡◌, ◌↔◌, some, arith}
use low_latency_trading.Mold.Codec.{Span}
use low_latency_trading.Itch.Decoder.{
  decode_add_order, decode_add_order_with_mpid, decode_order_executed,
  decode_order_executed_with_price, decode_order_cancel, decode_order_delete, decode_order_replace,
}
use low_latency_trading.Itch.Messages.{
  AddOrderMessage, AddOrderWithMpidMessage, OrderExecutedMessage, OrderExecutedWithPriceMessage,
  OrderCancelMessage, OrderDeleteMessage, OrderReplaceMessage, add_order, add_order_with_mpid,
  order_executed, order_executed_with_price, order_cancel, order_delete, order_replace,
}
use low_latency_trading.Itch.Wire.{Accepted, fields}
use low_latency_trading.Itch.Wire.Numbers.{
  number-byte, number-u16, number-u32, number-u48, number-u64,
}

pub decode_add_order-Accepted :
    (s : Span) (x : AddOrderMessage)
    → (decode_add_order (some s) ≡ some x) ↔ Accepted s (add_order x)
unfolding decode_add_order fields
decode_add_order-Accepted s x =
    let d = s.bytes in
    (
      λ e. ground (
        arith,
        number-byte d 0,
        number-u16 d 1,
        number-u16 d 3,
        number-u48 d 5,
        number-u64 d 11,
        number-byte d 19,
        number-u32 d 20,
        number-u32 d 32,
      ),
      λ (size, laid). ground (
        arith,
        number-byte d 0,
        number-u16 d 1,
        number-u16 d 3,
        number-u48 d 5,
        number-u64 d 11,
        number-byte d 19,
        number-u32 d 20,
        number-u32 d 32,
      ),
    )

pub decode_add_order_with_mpid-Accepted :
    (s : Span) (x : AddOrderWithMpidMessage)
    → (decode_add_order_with_mpid (some s) ≡ some x) ↔ Accepted s (add_order_with_mpid x)
unfolding decode_add_order_with_mpid fields
decode_add_order_with_mpid-Accepted s x =
    let d = s.bytes in
    (
      λ e. ground (
        arith,
        number-byte d 0,
        number-u16 d 1,
        number-u16 d 3,
        number-u48 d 5,
        number-u64 d 11,
        number-byte d 19,
        number-u32 d 20,
        number-u32 d 32,
      ),
      λ (size, laid). ground (
        arith,
        number-byte d 0,
        number-u16 d 1,
        number-u16 d 3,
        number-u48 d 5,
        number-u64 d 11,
        number-byte d 19,
        number-u32 d 20,
        number-u32 d 32,
      ),
    )

pub decode_order_executed-Accepted :
    (s : Span) (x : OrderExecutedMessage)
    → (decode_order_executed (some s) ≡ some x) ↔ Accepted s (order_executed x)
unfolding decode_order_executed fields
decode_order_executed-Accepted s x =
    let d = s.bytes in
    (
      λ e. ground (
        arith,
        number-byte d 0,
        number-u16 d 1,
        number-u16 d 3,
        number-u48 d 5,
        number-u64 d 11,
        number-u32 d 19,
        number-u64 d 23,
      ),
      λ (size, laid). ground (
        arith,
        number-byte d 0,
        number-u16 d 1,
        number-u16 d 3,
        number-u48 d 5,
        number-u64 d 11,
        number-u32 d 19,
        number-u64 d 23,
      ),
    )

pub decode_order_executed_with_price-Accepted :
    (s : Span) (x : OrderExecutedWithPriceMessage)
    → (decode_order_executed_with_price (some s) ≡ some x)
      ↔ Accepted s (order_executed_with_price x)
unfolding decode_order_executed_with_price fields
decode_order_executed_with_price-Accepted s x =
    let d = s.bytes in
    (
      λ e. ground (
        arith,
        number-byte d 0,
        number-u16 d 1,
        number-u16 d 3,
        number-u48 d 5,
        number-u64 d 11,
        number-u32 d 19,
        number-u64 d 23,
        number-byte d 31,
        number-u32 d 32,
      ),
      λ (size, laid). ground (
        arith,
        number-byte d 0,
        number-u16 d 1,
        number-u16 d 3,
        number-u48 d 5,
        number-u64 d 11,
        number-u32 d 19,
        number-u64 d 23,
        number-byte d 31,
        number-u32 d 32,
      ),
    )

pub decode_order_cancel-Accepted :
    (s : Span) (x : OrderCancelMessage)
    → (decode_order_cancel (some s) ≡ some x) ↔ Accepted s (order_cancel x)
unfolding decode_order_cancel fields
decode_order_cancel-Accepted s x =
    let d = s.bytes in
    (
      λ e. ground (
        arith,
        number-byte d 0,
        number-u16 d 1,
        number-u16 d 3,
        number-u48 d 5,
        number-u64 d 11,
        number-u32 d 19,
      ),
      λ (size, laid). ground (
        arith,
        number-byte d 0,
        number-u16 d 1,
        number-u16 d 3,
        number-u48 d 5,
        number-u64 d 11,
        number-u32 d 19,
      ),
    )

pub decode_order_delete-Accepted :
    (s : Span) (x : OrderDeleteMessage)
    → (decode_order_delete (some s) ≡ some x) ↔ Accepted s (order_delete x)
unfolding decode_order_delete fields
decode_order_delete-Accepted s x =
    let d = s.bytes in
    (
      λ e.
          ground (
            arith,
            number-byte d 0,
            number-u16 d 1,
            number-u16 d 3,
            number-u48 d 5,
            number-u64 d 11,
          ),
      λ (size, laid).
          ground (
            arith,
            number-byte d 0,
            number-u16 d 1,
            number-u16 d 3,
            number-u48 d 5,
            number-u64 d 11,
          ),
    )

pub decode_order_replace-Accepted :
    (s : Span) (x : OrderReplaceMessage)
    → (decode_order_replace (some s) ≡ some x) ↔ Accepted s (order_replace x)
unfolding decode_order_replace fields
decode_order_replace-Accepted s x =
    let d = s.bytes in
    (
      λ e. ground (
        arith,
        number-byte d 0,
        number-u16 d 1,
        number-u16 d 3,
        number-u48 d 5,
        number-u64 d 11,
        number-u64 d 19,
        number-u32 d 27,
        number-u32 d 31,
      ),
      λ (size, laid). ground (
        arith,
        number-byte d 0,
        number-u16 d 1,
        number-u16 d 3,
        number-u48 d 5,
        number-u64 d 11,
        number-u64 d 19,
        number-u32 d 27,
        number-u32 d 31,
      ),
    )
