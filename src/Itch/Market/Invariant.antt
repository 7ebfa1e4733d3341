-- ===== src/Itch/Market/Invariant.antt =====
-- The invariant of itch/ItchMarketState.h, and what publishing a quote does to it.
use mathlib.Core.Path.{subst, subst₂}
use native.Mathlib.Decide.{ℕ_discrete}
use low_latency_trading.Base.{
  ℕ, ◌+◌, ◌≤◌, ◌≡◌, ◌≢◌, sym, ap, ◌∙◌, true, Option, some, List, [], ◌∷◌, arith, ◌==◌,
  if◌then◌else◌,
}
use low_latency_trading.Book.Bbo.{Bbo, bbo, bbo_eq_iff, no_bbo, quoted}
use low_latency_trading.Book.Store.{BookStore}
use low_latency_trading.OrderStore.{OrderStore}
use low_latency_trading.Itch.Market.State.{
  MarketState, MarketEvent, bbo_change, trade, notify_bbo_change,
}
use low_latency_trading.Itch.Market.Spec.{View, view}
use low_latency_trading.Itch.Market.Resting.{publish}
use low_latency_trading.Itch.Market.Consistent.{Consistent}

-- The last quote of a book that a subscriber has been sent.
abbrev pub last_quote : List MarketEvent → ℕ → Bbo
last_quote [] i = no_bbo
last_quote (bbo_change j t b ∷ es) i = if j == i then b else last_quote es i
last_quote (trade j t p q d ∷ es) i = last_quote es i

-- With a callback set, the subscriber's last quote of every book shows what the book shows.
abbrev pub InStep : MarketState → Type 0
InStep m =
    m.has_bbo_handler ≡ true
    → (i : ℕ) → quoted (last_quote m.events i) ≡ quoted (bbo (m.books.books i))

pub record Inv (m : MarketState) : Type 0 where
  pub consistent : Consistent m.books m.orders
  pub in_step : InStep m

-- `m'` comes from `m` by a change of book `i` that has not been published.
pub record Changed (i : ℕ) (m m' : MarketState) : Type 0 where
  pub consistent : Consistent m'.books m'.orders
  pub books : (j : ℕ) → i ≢ j → m'.books.books j ≡ m.books.books j
  pub quotes : (j : ℕ) → last_quote m'.events j ≡ last_quote m.events j
  pub handler : m'.has_bbo_handler ≡ m.has_bbo_handler
  pub faults : m'.faults ≡ m.faults
  pub growth : m'.orders.size ≤ m.orders.size + 1

-- A handler's result, with the view of the order store that it leaves: it is defined, keeps the
-- invariant, finds no fault in a book, stores one more order at most, and has that view.
abbrev pub Handled : MarketState → View → Option MarketState → Type 0
Handled m f r =
    (u : MarketState) × (r ≡ some u)
    × Inv u
    × (u.faults ≡ m.faults)
    × (u.orders.size ≤ m.orders.size + 1)
    × ((id : ℕ) → view u.orders id ≡ f id)

published_here :
    (m : MarketState) (i t : ℕ) (before : Bbo)
    → m.has_bbo_handler ≡ true
    → quoted (last_quote m.events i) ≡ quoted before
    → quoted (last_quote (publish m i t before).events i) ≡ quoted (bbo (m.books.books i))
unfolding publish notify_bbo_change
published_here m i t before has known =
    ground (arith, has, known, bbo_eq_iff before (bbo (m.books.books i)))

published_elsewhere :
    (m : MarketState) (i t j : ℕ) (before : Bbo)
    → i ≢ j
    → last_quote (publish m i t before).events j ≡ last_quote m.events j
unfolding publish notify_bbo_change
published_elsewhere m i t j before ne = ground (arith, ne)

publish_rest :
    (m : MarketState) (i t : ℕ) (before : Bbo)
    → ((publish m i t before).books ≡ m.books)
      × ((publish m i t before).orders ≡ m.orders)
      × ((publish m i t before).faults ≡ m.faults)
      × ((publish m i t before).has_bbo_handler ≡ m.has_bbo_handler)
unfolding publish notify_bbo_change
publish_rest m i t before = ground arith

-- Publishing after the change of one book, with the quote from before it, brings the subscriber
-- up to date.
pub publish-Inv :
    (m m' : MarketState) (i t : ℕ)
    → Inv m
    → Changed i m m'
    → Inv (publish m' i t (bbo (m.books.books i)))
      × ((publish m' i t (bbo (m.books.books i))).faults ≡ m.faults)
      × ((publish m' i t (bbo (m.books.books i))).orders.size ≤ m.orders.size + 1)
      × ((id : ℕ) → view (publish m' i t (bbo (m.books.books i))).orders id ≡ view m'.orders id)
publish-Inv m m' i t v c =
    let before = bbo (m.books.books i) in
    let (books, orders, faults, handler) = publish_rest m' i t before in
    (
      record {
        consistent = subst₂ Consistent (sym books) (sym orders) c.consistent;
        in_step = λ has j.
            let has' : m'.has_bbo_handler ≡ true = sym handler ∙ has in
            let known = v.in_step (sym c.handler ∙ has') in
            let here = ap (λ (s : BookStore). quoted (bbo (s.books j))) (sym books) in
            elim (ℕ_discrete i j) [
              | yes same ↦
                  subst
                    (λ x.
                      quoted (last_quote (publish m' i t before).events x)
                      ≡ quoted (bbo (m'.books.books x)))
                    same (published_here m' i t before has' (ap quoted (c.quotes i) ∙ known i))
                  ∙ here
              | no ne ↦
                  ap quoted (published_elsewhere m' i t j before ne ∙ c.quotes j)
                  ∙ known j
                  ∙ ap (λ b. quoted (bbo b)) (sym (c.books j ne))
                  ∙ here
            ];
      },
      faults ∙ c.faults,
      omega (arith, c.growth, ap (λ (s : OrderStore). s.size) orders),
      λ id. ap (λ (s : OrderStore). view s id) orders,
    )
