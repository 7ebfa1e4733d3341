-- ===== src/Itch/Market/Entry.antt =====
-- A resting order of itch/ItchMarketState.h and the level that shows it: reducing the one with
-- the other, and removing both.
use low_latency_trading.Base.{
  ℕ, ◌-◌, ◌≤◌, ◌<◌, ◌≡◌, ◌≢◌, true, some, arith, ◌==◌, if◌then◌else◌, ◌∙◌,
}
use low_latency_trading.Book.Types.{Side}
use low_latency_trading.Book.Level.{PriceLevel}
use low_latency_trading.Book.Levels.{Ascending, find_level}
use low_latency_trading.Book.Sides.{BookSide}
use low_latency_trading.Book.Sides
use low_latency_trading.Book.Effects.{
  reduce-true, remove_order-true, reduce-Ascending, remove_order-Ascending, reduce_at-reduce,
  remove_order_at-remove_order, side-reduce, side-remove_order,
}
use low_latency_trading.Book.Bbo.{side_of}
use low_latency_trading.Book.Store.{BookStore}
use low_latency_trading.OrderStore.{StoredOrder, OrderStore, capacity, with_quantity}
use low_latency_trading.OrderStore.Weigh.{weigh}
use low_latency_trading.OrderStore.Remove.{Removed}
use low_latency_trading.OrderStore.Update.{Replaced}
use low_latency_trading.Itch.Market.Weights.{
  qty_at, count_at, is_sound, unsound, level_of, sound_entry, weigh-ge,
}
use low_latency_trading.Itch.Market.Keeps.{at_rest, elsewhere}
use low_latency_trading.Itch.Market.Consistent.{Consistent, with_level_side, level-Consistent}
use low_latency_trading.Itch.Market.Shown.{reduce_shows, remove_order_shows, level_of-some}

-- A stored order, its book and the level that shows it.
module _ (b : BookStore) (o : OrderStore) (r : ℕ) (c : Consistent b o) (below : r < capacity)
    (full : (o.slots r).occupied ≡ true) where
  abbrev pub entry : StoredOrder
  entry = (o.slots r).value

  abbrev pub i : ℕ
  i = entry.order.instrument_id

  abbrev pub d : Side
  d = entry.order.side

  abbrev pub p : ℕ
  p = entry.order.price

  abbrev pub q : ℕ
  q = entry.order.quantity

  abbrev pub home : BookSide
  home = side_of (b.books i) d

  pub entry_sound : is_sound b.present entry ≡ true
  entry_sound = sound_entry b.present o r c.sound below full

  -- The level shows at least the order.
  pub entry_shown : (q ≤ weigh (qty_at i d p) o) × (weigh (count_at i d p) o ≢ 0)
  entry_shown = (
    omega (arith, at_rest entry, weigh-ge (qty_at i d p) o r below full),
    omega (arith, at_rest entry, weigh-ge (count_at i d p) o r below full),
  )

  -- The order leaves the store, and its level gives up its quantity and one order.
  leave-Consistent :
      (u : OrderStore) (s : BookSide)
      → Removed o entry u
      → s.side ≡ home.side
      → Ascending s.levels
      → ((j : ℕ)
          → find_level j s.levels ≡ (
              if p == j
              then level_of p (weigh (qty_at i d p) o - q) (weigh (count_at i d p) o - 1)
              else find_level j home.levels))
      → Consistent (with_level_side b i d s) u
  leave-Consistent u s removed same ascends here =
      level-Consistent b o u i d p s c removed.valid
        (omega (arith, c.sound, removed.weighs (unsound b.present))) same ascends
        (λ j. ground (
          arith,
          here j,
          at_rest entry,
          removed.weighs (qty_at i d p),
          removed.weighs (count_at i d p),
        ))
        (λ j e t h.
          let away = elsewhere entry j e t h in
          (
            omega (arith, away, removed.weighs (qty_at j e t)),
            omega (arith, away, removed.weighs (count_at j e t)),
          ))

  entry_level :
      find_level p home.levels
      ≡ some (record {
        price = p;
        quantity = weigh (qty_at i d p) o;
        order_count = weigh (count_at i d p) o;
      })
  unfolding level_of
  entry_level = ground (arith, c.shows i d p, entry_shown)

  -- Removing an order that rests: the handle is usable, `removeOrder` succeeds, and the rest
  -- stays consistent.
  pub remove-entry :
      (u : OrderStore)
      → Removed o entry u
      → (s : BookSide) × (Sides.remove_order_at home entry.level q ≡ some (true, s))
        × Consistent (with_level_side b i d s) u
  remove-entry u removed =
      let s = (Sides.remove_order home p q).1 in
      let done : (Sides.remove_order home p q).0 ≡ true =
        remove_order-true home p q _ entry_level (omega (arith, entry_shown))
          (omega (arith, entry_shown)) in
      (
        s,
        ground (arith, entry_sound, remove_order_at-remove_order home p q entry_level, done),
        leave-Consistent u s removed (side-remove_order home p q)
            (remove_order-Ascending home p q (c.sorted i d))
            (λ j.
              remove_order_shows home p q (weigh (qty_at i d p) o) (weigh (count_at i d p) o) j
                (c.sorted i d) (c.shows i d p) entry_shown.1 entry_shown.0),
      )

  -- Reducing the level of an order that rests succeeds through its handle.
  pub reduce-entry :
      (x : ℕ) → x ≤ q → Sides.reduce_at home entry.level x ≡ some (true, (Sides.reduce home p x).1)
  reduce-entry x h = ground (
    arith,
    entry_sound,
    reduce_at-reduce home p x entry_level,
    reduce-true home p x _ entry_level (omega (arith, entry_shown)),
  )

  -- Shares that leave both the level and the order.
  pub part-Consistent :
      (x : ℕ) (u : OrderStore)
      → x ≤ q
      → Replaced o entry (with_quantity entry (q - x)) u
      → Consistent (with_level_side b i d (Sides.reduce home p x).1) u
  unfolding unsound
  part-Consistent x u h replaced =
      let left = with_quantity entry (q - x) in
      level-Consistent b o u i d p (Sides.reduce home p x).1 c replaced.valid
        (ground (arith, c.sound, replaced.weighs (unsound b.present), entry_sound))
        (side-reduce home p x) (reduce-Ascending home p x (c.sorted i d))
        (λ j. ground (
          arith,
          reduce_shows home p x (weigh (qty_at i d p) o) (weigh (count_at i d p) o) j
              (c.shows i d p),
          entry_shown,
          at_rest entry,
          at_rest left,
          replaced.weighs (qty_at i d p),
          replaced.weighs (count_at i d p),
        ))
        (λ j e t k.
          let away = elsewhere entry j e t k in
          let gone = elsewhere left j e t k in
          (
            omega (arith, away, gone, replaced.weighs (qty_at j e t)),
            omega (arith, away, gone, replaced.weighs (count_at j e t)),
          ))

  -- When all the shares have left the level, `removeOrder` with nothing remaining succeeds
  -- through the handle.
  pub last-entry :
      (u : OrderStore)
      → Removed o entry u
      → (s : BookSide) × (Sides.remove_order_at (Sides.reduce home p q).1 entry.level 0
          ≡ some (true, s))
        × Consistent (with_level_side b i d s) u
  last-entry u removed =
      let mid = (Sides.reduce home p q).1 in
      let count = weigh (count_at i d p) o in
      let left = weigh (qty_at i d p) o - q in
      let shown : (j : ℕ)
          → find_level j mid.levels
            ≡ (if p == j then level_of p left count else find_level j home.levels) =
        λ j.
          reduce_shows home p q (weigh (qty_at i d p) o) count j (c.shows i d p) entry_shown.1
            entry_shown.0 in
      let ascends = reduce-Ascending home p q (c.sorted i d) in
      let at : find_level p mid.levels ≡ level_of p left count = ground (arith, shown p) in
      let l : PriceLevel = record { price = p; quantity = left; order_count = count } in
      let found : find_level p mid.levels ≡ some l =
        at ∙ level_of-some p left count entry_shown.1 in
      let s = (Sides.remove_order mid p 0).1 in
      let done : (Sides.remove_order mid p 0).0 ≡ true =
        remove_order-true mid p 0 l found (omega arith) entry_shown.1 in
      (
        s,
        ground (arith, entry_sound, remove_order_at-remove_order mid p 0 found, done),
        leave-Consistent u s removed (side-remove_order mid p 0 ∙ side-reduce home p q)
            (remove_order-Ascending mid p 0 ascends)
            (λ j. ground (
              arith,
              shown j,
              remove_order_shows mid p 0 left count j ascends at entry_shown.1 (omega arith),
            )),
      )
