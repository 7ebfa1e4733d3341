-- ===== src/Itch/Market/Joining.antt =====
-- New orders in itch/ItchMarketState.h keep its invariant.
use mathlib.Core.Path.{subst}
use low_latency_trading.Base.{
  ℕ, ◌+◌, ◌≤◌, ◌<◌, ◌≡◌, refl, sym, ◌∙◌, true, false, none, some, arith, Bool-cases, inl, inr,
}
use low_latency_trading.Book.Sides
use low_latency_trading.Book.Sides.{BookSide}
use low_latency_trading.Book.Types.{Side}
use low_latency_trading.Book.Bbo.{bbo, side_of}
use low_latency_trading.Book.Store.{get_or_create, books-get_or_create, present-get_or_create}
use low_latency_trading.Book.Effects.{handle-add}
use low_latency_trading.OrderStore.{
  Order, StoredOrder, OrderStore, capacity, contains, find_index, remove_at, set_quantity, stored,
}
use low_latency_trading.OrderStore
use low_latency_trading.OrderStore.Weigh.{one}
use low_latency_trading.OrderStore.Add.{add_lem}
use low_latency_trading.Itch.Market.State.{MarketState}
use low_latency_trading.Itch.Market.Spec.{view, holding, joined, view-Added}
use low_latency_trading.Itch.Market.Resting.{put_side, publish, duplicate_add, add_new, add_order}
use low_latency_trading.Itch.Market.Weights.{share_limit, is_sound}
use low_latency_trading.Itch.Market.Consistent.{Consistent, with_level_side}
use low_latency_trading.Itch.Market.Keeps.{get_or_create-Consistent, add-Consistent}
use low_latency_trading.Itch.Market.Invariant.{Inv, Changed, Handled, publish-Inv}

-- Putting a side back changes its own book only.
pub put_side-Changed :
    (m : MarketState) (i : ℕ) (d : Side) (s : BookSide) (u : OrderStore)
    → Consistent (with_level_side m.books i d s) u
    → u.size ≤ m.orders.size + 1
    → Changed i m (record (put_side m i (m.books.books i) d s) { orders = u })
put_side-Changed m i d s u c growth = record {
  consistent = c;
  books = λ j ne. ground (arith, ne);
  quotes = λ j. refl;
  handler = refl;
  faults = refl;
  growth = growth;
}

pub contains-find_index : (s : OrderStore) (id : ℕ) → contains s id ≡ false → find_index s id ≡ none
unfolding contains
contains-find_index s id h = ground (arith, h)

add_new-Handled :
    (m : MarketState) (o : Order) (t : ℕ)
    → Inv m
    → o.quantity < share_limit
    → m.orders.size < capacity
    → find_index m.orders o.order_id ≡ none
    → Inv (add_new m o t)
      × ((add_new m o t).faults ≡ m.faults)
      × ((add_new m o t).orders.size ≤ m.orders.size + 1)
      × ((id : ℕ) → view (add_new m o t).orders id ≡ holding (view m.orders) o id)
unfolding add_new
add_new-Handled m o t v few room missing =
    let i = o.instrument_id in
    let b = get_or_create m.books i in
    let home = side_of (b.books i) o.side in
    let joined = Sides.add home o.price o.quantity in
    let entry : StoredOrder = record { order = o; level = joined.0 } in
    let (done, added) = add_lem m.orders o joined.0 v.consistent.valid missing room in
    let u = (OrderStore.add m.orders o joined.0).1 in
    let m' : MarketState =
      record (put_side (record m { books = b }) i (b.books i) o.side joined.1) { orders = u } in
    let result : add_new m o t ≡ publish m' i t (bbo (m.books.books i)) =
      ground (arith, done, books-get_or_create m.books i i) in
    let sound : is_sound b.present entry ≡ true =
      ground (arith, few, present-get_or_create m.books i, handle-add home o.price o.quantity) in
    let changed : Changed i m m' = record {
      consistent =
          add-Consistent b m.orders u entry
            (get_or_create-Consistent m.books m.orders i v.consistent) sound added;
      books = λ j ne. ground (arith, ne, books-get_or_create m.books i j);
      quotes = λ j. refl;
      handler = refl;
      faults = refl;
      growth = omega (arith, added.weighs one, added.valid.counted, v.consistent.valid.counted);
    } in
    let (inv, faults, growth, shows) = publish-Inv m m' i t v changed in
    subst
      (λ x.
        Inv x
        × (x.faults ≡ m.faults)
        × (x.orders.size ≤ m.orders.size + 1)
        × ((id : ℕ) → view x.orders id ≡ holding (view m.orders) o id))
      (sym result) (inv, faults, growth, λ id. shows id ∙ view-Added added id)

-- A new order of at most 2 ^ 32 - 1 shares is added, or refused as a duplicate.
pub add_order-Handled :
    (m : MarketState) (o : Order) (t : ℕ)
    → Inv m
    → o.quantity < share_limit
    → m.orders.size < capacity
    → Handled m (joined (view m.orders) o) (some (add_order m o t))
unfolding add_order OrderStore.find contains
add_order-Handled m o t v few room = elim (Bool-cases (contains m.orders o.order_id)) [
  | inl known ↦ (
    duplicate_add m,
    ground (arith, known),
    record { consistent = v.consistent; in_step = v.in_step },
    refl,
    omega arith,
    λ id. ground (arith, known),
  )
  | inr new ↦
      let (inv, faults, growth, same) =
        add_new-Handled m o t v few room (contains-find_index m.orders o.order_id new) in
      (add_new m o t, ground (arith, new), inv, faults, growth, λ id. ground (arith, new, same id))
]
