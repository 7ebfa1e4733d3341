-- ===== src/Book/Sides.antt =====
-- common/market_data/book/BookSide.h. A level handle is an iterator of the map: it is modelled
-- by its key, and `none` stands for the use of an iterator whose entry has been erased, which
-- is undefined in the source. A method that changes the side returns the new one.
use low_latency_trading.Base.{
  ℕ, Bool, true, false, Option, none, some, [], ◌∷◌, if◌then◌else◌, length,
}
use low_latency_trading.Book.Types.{Side, buy, sell}
use low_latency_trading.Book.Level.{PriceLevel}
use low_latency_trading.Book.Level
use low_latency_trading.Book.Levels.{
  Levels, find_level, try_emplace, assign, erase, first_level, last_level, level_or_fresh,
}

pub record BookSide : Type 0 where
  pub side : Side
  pub levels : Levels

abbrev pub LevelHandle : Type 0
LevelHandle = ℕ

-- `BookSide(side)`.
abbrev pub empty_side : Side → BookSide
empty_side s = record { side = s; levels = [] }

-- `try_emplace`, then `add` through the iterator, which is returned.
unfoldable pub add : BookSide → ℕ → ℕ → LevelHandle × BookSide
unfolding Level.add_order
add s p q =
    let ls = try_emplace p s.levels in
    let l = level_or_fresh p (find_level p ls) in
    (p, record s { levels = assign p (Level.add_order l q) ls })

reduce_found : BookSide → ℕ → Bool × PriceLevel → Bool × BookSide
reduce_found s p (done, l) = (done, record s { levels = assign p l s.levels })

-- `reduce(LevelHandle, Quantity)`.
unfoldable pub reduce_at : BookSide → LevelHandle → ℕ → Option (Bool × BookSide)
unfolding reduce_found Level.reduce
reduce_at s h q = elim (find_level h s.levels) [
  | none ↦ none
  | some l ↦ some (reduce_found s h (Level.reduce l q))
]

-- `reduce(Price, Quantity)`.
unfoldable pub reduce : BookSide → ℕ → ℕ → Bool × BookSide
unfolding reduce_found Level.reduce
reduce s p q = elim (find_level p s.levels) [
  | none ↦ (false, s)
  | some l ↦ reduce_found s p (Level.reduce l q)
]

remove_found : BookSide → ℕ → Bool × PriceLevel → Bool × BookSide
unfolding Level.is_empty
remove_found s p (false, l) = (false, s)
remove_found s p (true, l) =
    (true, record s { levels = if Level.is_empty l then erase p s.levels else assign p l s.levels })

-- `removeOrder(LevelHandle, Quantity)`.
unfoldable pub remove_order_at : BookSide → LevelHandle → ℕ → Option (Bool × BookSide)
unfolding remove_found Level.remove_order
remove_order_at s h q = elim (find_level h s.levels) [
  | none ↦ none
  | some l ↦ some (remove_found s h (Level.remove_order l q))
]

-- `removeOrder(Price, Quantity)`.
unfoldable pub remove_order : BookSide → ℕ → ℕ → Bool × BookSide
unfolding remove_found Level.remove_order
remove_order s p q = elim (find_level p s.levels) [
  | none ↦ (false, s)
  | some l ↦ remove_found s p (Level.remove_order l q)
]

-- `find(Price)`; `none` is the null pointer.
unfoldable pub find : BookSide → ℕ → Option PriceLevel
find s p = find_level p s.levels

unfoldable pub best : BookSide → Option PriceLevel
best s = elim s.side [ buy ↦ last_level s.levels | sell ↦ first_level s.levels ]

unfoldable pub level_count : BookSide → ℕ
level_count s = length s.levels

unfoldable pub is_empty : BookSide → Bool
is_empty s = elim s.levels [ [] ↦ true | _ ∷ _ ↦ false ]
