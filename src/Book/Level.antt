-- ===== src/Book/Level.antt =====
-- common/market_data/book/PriceLevel.h. A method returns its result beside the new level.
use low_latency_trading.Base.{ℕ, ◌+◌, ◌-◌, Bool, true, false, ◌||◌, ltb, ◌==◌, if◌then◌else◌, u64}

pub record PriceLevel : Type 0 where
  pub price : ℕ
  pub quantity : ℕ
  pub order_count : ℕ

-- `PriceLevel{.price = price}`.
abbrev pub fresh_level : ℕ → PriceLevel
fresh_level p = record { price = p; quantity = 0; order_count = 0 }

unfoldable pub add_order : PriceLevel → ℕ → PriceLevel
add_order l added = record l {
  quantity = u64 (l.quantity + added);
  order_count = u64 (l.order_count + 1);
}

-- The subtraction runs only where it does not wrap.
unfoldable pub reduce : PriceLevel → ℕ → Bool × PriceLevel
reduce l reduced =
    if ltb l.quantity reduced
    then (false, l)
    else (true, record l { quantity = l.quantity - reduced })

unfoldable pub remove_order : PriceLevel → ℕ → Bool × PriceLevel
remove_order l remaining =
    if l.order_count == 0 || ltb l.quantity remaining
    then (false, l)
    else (true, record l { quantity = l.quantity - remaining; order_count = l.order_count - 1 })

unfoldable pub is_empty : PriceLevel → Bool
is_empty l = l.order_count == 0
