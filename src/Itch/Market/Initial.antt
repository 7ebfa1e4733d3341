-- ===== src/Itch/Market/Initial.antt =====
-- The constructor of itch/ItchMarketState.h, and what its histories show.
use low_latency_trading.Base.{ℕ, ◌≤◌, ◌≡◌, refl, sym, Bool, none, some, List, arith, length, All}
use low_latency_trading.Book.Types.{Side, buy, sell}
use low_latency_trading.Book.Levels.{Ascending, find_level, first_level, last_level}
use low_latency_trading.Book.Bbo.{bbo, empty_book, no_bbo, quoted, side_of}
use low_latency_trading.Book.Sides.{best}
use low_latency_trading.OrderStore
use low_latency_trading.OrderStore.{capacity, empty_store}
use low_latency_trading.OrderStore.Weigh.{Weight, one, weigh, weigh_below-zero, slot_weight}
use low_latency_trading.OrderStore.Map.{IsValid}
use low_latency_trading.Itch.Messages.{ItchMessage}
use low_latency_trading.Itch.Market.State.{MarketState, initial}
use low_latency_trading.Itch.Market.Spec.{view, after_all}
use low_latency_trading.Itch.Market.Weights.{level_of, qty_at, count_at, unsound}
use low_latency_trading.Itch.Market.Invariant.{Inv}
use low_latency_trading.Itch.Market.Outcomes.{HasShares}
use low_latency_trading.Itch.Market.History.{run, run_lem}

weigh-empty_store : (w : Weight) → weigh w empty_store ≡ 0
unfolding weigh slot_weight
weigh-empty_store w = weigh_below-zero capacity w empty_store.slots (λ i k. refl)

pub empty_store-IsValid : IsValid empty_store
empty_store-IsValid = record {
  table = record {
    path = λ i j h k full before. full;
    unique = λ i j h k full full' same. absurd (ground (arith, full));
  };
  counted = sym (weigh-empty_store one);
  peak = omega arith;
}

empty_shows :
    (i : ℕ) (d : Side) (p : ℕ)
    → find_level p (side_of empty_book d).levels
      ≡ level_of p (weigh (qty_at i d p) empty_store) (weigh (count_at i d p) empty_store)
unfolding find_level level_of
empty_shows i buy p = ground (arith, weigh-empty_store (count_at i buy p))
empty_shows i sell p = ground (arith, weigh-empty_store (count_at i sell p))

empty_sorted : (d : Side) → Ascending (side_of empty_book d).levels
empty_sorted buy = tt
empty_sorted sell = tt

quoted-empty_book : quoted no_bbo ≡ quoted (bbo empty_book)
unfolding quoted bbo best first_level last_level
quoted-empty_book = refl

-- A new state keeps the invariant.
pub initial-Inv : (a b : Bool) → Inv (initial a b)
initial-Inv a b = record {
  consistent = record {
    valid = empty_store-IsValid;
    sided = λ i. (refl, refl);
    sorted = λ i. empty_sorted;
    sound = weigh-empty_store (unsound (initial a b).books.present);
    shows = empty_shows;
  };
  in_step = λ has i. quoted-empty_book;
}

-- From a new state, any history of at most 2 ^ 22 messages whose shares are 32-bit numbers is
-- handled to its end: the stored orders are then those of the abstract history, the books show
-- exactly the stored orders, with a quote callback the last quote sent of every book shows what
-- the book shows, and no counter of a fault inside a book has moved.
pub run-initial :
    (a b : Bool) (xs : List ItchMessage)
    → All HasShares xs
    → length xs ≤ capacity
    → (u : MarketState) × (run (initial a b) xs ≡ some u)
      × Inv u
      × (u.faults ≡ (initial a b).faults)
      × (view u.orders ≡ after_all (λ id. none) xs)
unfolding OrderStore.find OrderStore.find_index OrderStore.probe
run-initial a b xs h fits = run_lem (initial a b) xs (initial-Inv a b) h (omega (arith, fits))
