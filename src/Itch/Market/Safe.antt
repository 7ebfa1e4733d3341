-- ===== src/Itch/Market/Safe.antt =====
-- The repeated parts of the handlers of itch/ItchMarketState.h keep its invariant.
use mathlib.Core.Path.{subst}
use low_latency_trading.Base.{ℕ, ◌-◌, ◌≤◌, ◌<◌, ◌≡◌, ◌≢◌, refl, sym, true, Option, arith}
use low_latency_trading.Book.Sides
use low_latency_trading.Book.Sides.{BookSide}
use low_latency_trading.Book.Bbo.{bbo, side_of}
use low_latency_trading.OrderStore.{Order, capacity, set_quantity, stored}
use low_latency_trading.OrderStore.Weigh.{one}
use low_latency_trading.OrderStore.Remove.{Removed, remove_at_lem}
use low_latency_trading.OrderStore.Update.{set_quantity_lem}
use low_latency_trading.Itch.Market.State.{MarketState}
use low_latency_trading.Itch.Market.Spec.{view, taken_off, view-Removed, view-Replaced}
use low_latency_trading.Itch.Market.Resting.{put_side, publish, remove_resting, reduce_resting}
use native.Mathlib.Decide.{ℕ_discrete}
use low_latency_trading.Itch.Market.Consistent.{
  Consistent, with_level_side_twice, side_of-with_level_side_self,
}
use low_latency_trading.Itch.Market.Entry.{remove-entry, reduce-entry, part-Consistent, last-entry}
use low_latency_trading.Itch.Market.Invariant.{Inv, Changed, Handled, publish-Inv}
use low_latency_trading.Itch.Market.Joining.{put_side-Changed}

module _ (m : MarketState) (it : ℕ) (v : Inv m) (room : m.orders.size < capacity)
    (below : it < capacity) (full : (m.orders.slots it).occupied ≡ true) where
  abbrev order : Order
  order = (stored m.orders it).order

  abbrev i : ℕ
  i = order.instrument_id

  -- A resting order leaves its level and the store, and the handler goes on.
  pub remove_resting_lem :
      (k : MarketState → Option MarketState)
      → (m' : MarketState) × (remove_resting m it (m.books.books i) order.quantity k ≡ k m')
        × Changed i m m'
        × Removed m.orders (stored m.orders it) m'.orders
        × (m'.books.present ≡ m.books.present)
  unfolding remove_resting
  remove_resting_lem k =
      let (u, ends, removed) = remove_at_lem m.orders it v.consistent.valid room below full in
      let (s, done, c) = remove-entry m.books m.orders it v.consistent below full u removed in
      (
        record (put_side m i (m.books.books i) order.side s) { orders = u },
        ground (arith, done, ends),
        put_side-Changed m i order.side s u c
            (omega (arith, removed.weighs one, removed.valid.counted, v.consistent.valid.counted)),
        removed,
        refl,
      )

  part-Handled :
      (x t : ℕ)
      → x ≤ order.quantity
      → x ≢ order.quantity
      → Handled m (taken_off (view m.orders) order x) (reduce_resting m it (m.books.books i) x t)
  unfolding reduce_resting
  part-Handled x t h ne =
      let s = (Sides.reduce (side_of (m.books.books i) order.side) order.price x).1 in
      let u = set_quantity m.orders it (order.quantity - x) in
      let m' : MarketState = record (put_side m i (m.books.books i) order.side s) { orders = u } in
      let replaced =
        set_quantity_lem m.orders it (order.quantity - x) v.consistent.valid below full in
      let changed : Changed i m m' =
        put_side-Changed m i order.side s u
          (part-Consistent m.books m.orders it v.consistent below full x u h replaced)
          (omega
            (arith, replaced.weighs one, replaced.valid.counted, v.consistent.valid.counted)) in
      let (inv, faults, growth, same) = publish-Inv m m' i t v changed in
      (
        publish m' i t (bbo (m.books.books i)),
        ground (arith, ne, reduce-entry m.books m.orders it v.consistent below full x h),
        inv,
        faults,
        growth,
        λ id. ground (arith, ne, same id, view-Replaced replaced refl id),
      )

  last-Handled :
      (t : ℕ)
      → Handled m
          (taken_off (view m.orders) order order.quantity)
          (reduce_resting m it (m.books.books i) order.quantity t)
  unfolding reduce_resting
  last-Handled t =
      let home = side_of (m.books.books i) order.side in
      let s = (Sides.reduce home order.price order.quantity).1 in
      let (u, ends, removed) = remove_at_lem m.orders it v.consistent.valid room below full in
      let (s', done, c) = last-entry m.books m.orders it v.consistent below full u removed in
      let mid : MarketState = put_side m i (m.books.books i) order.side s in
      let m' : MarketState = record (put_side mid i (mid.books.books i) order.side s') {
        orders = u;
      } in
      let twice = with_level_side_twice m.books i order.side s s' in
      let changed : Changed i m m' = record {
        consistent = subst (λ b. Consistent b u) (sym twice) c;
        books = λ j ne. ground (arith, ne);
        quotes = λ j. refl;
        handler = refl;
        faults = refl;
        growth =
            omega (arith, removed.weighs one, removed.valid.counted, v.consistent.valid.counted);
      } in
      let (inv, faults, growth, same) = publish-Inv m m' i t v changed in
      (
        publish m' i t (bbo (m.books.books i)),
        ground (
          arith,
          ends,
          done,
          side_of-with_level_side_self m.books i order.side s,
          reduce-entry m.books m.orders it v.consistent below full order.quantity (omega arith),
        ),
        inv,
        faults,
        growth,
        λ id. ground (arith, same id, view-Removed removed id),
      )

  -- Shares that are executed or cancelled leave the order and its level, and the last of them
  -- take both away.
  pub reduce_resting-Handled :
      (x t : ℕ)
      → x ≤ order.quantity
      → Handled m (taken_off (view m.orders) order x) (reduce_resting m it (m.books.books i) x t)
  reduce_resting-Handled x t h = elim (ℕ_discrete x order.quantity) [
    | yes same ↦
        subst
          (λ y.
            Handled m (taken_off (view m.orders) order y)
              (reduce_resting m it (m.books.books i) y t))
          (sym same) (last-Handled t)
    | no ne ↦ part-Handled x t h ne
  ]
