-- ===== src/Itch/Market/Shown.antt =====
-- What reducing and removing leave of a level that shows orders, for itch/ItchMarketState.h.
use low_latency_trading.Base.{ℕ, ◌-◌, ◌≤◌, ◌≡◌, ◌≢◌, some, arith, ◌==◌, if◌then◌else◌}
use low_latency_trading.Book.Level.{PriceLevel}
use low_latency_trading.Book.Levels.{Ascending, find_level}
use low_latency_trading.Book.Sides.{BookSide}
use low_latency_trading.Book.Sides
use low_latency_trading.Book.Effects.{find_level-reduce, find_level-remove_order}
use low_latency_trading.Itch.Market.Weights.{level_of}

pub reduce_shows :
    (s : BookSide) (p q d c j : ℕ)
    → find_level p s.levels ≡ level_of p d c
    → c ≢ 0
    → q ≤ d
    → find_level j (Sides.reduce s p q).1.levels
      ≡ (if p == j then level_of p (d - q) c else find_level j s.levels)
unfolding level_of
reduce_shows s p q d c j h some' fits =
    let l : PriceLevel = record { price = p; quantity = d; order_count = c } in
    ground (arith, h, some', find_level-reduce s p q l (ground (arith, h, some')) j fits)

pub remove_order_shows :
    (s : BookSide) (p q d c j : ℕ)
    → Ascending s.levels
    → find_level p s.levels ≡ level_of p d c
    → c ≢ 0
    → q ≤ d
    → find_level j (Sides.remove_order s p q).1.levels
      ≡ (if p == j then level_of p (d - q) (c - 1) else find_level j s.levels)
unfolding level_of
remove_order_shows s p q d c j v h some' fits =
    let l : PriceLevel = record { price = p; quantity = d; order_count = c } in
    ground
      (arith, h, some', find_level-remove_order s p q l (ground (arith, h, some')) j fits some' v)

pub level_of-some :
    (p d c : ℕ)
    → c ≢ 0
    → level_of p d c ≡ some (record { price = p; quantity = d; order_count = c })
unfolding level_of
level_of-some p d c h = ground (arith, h)
