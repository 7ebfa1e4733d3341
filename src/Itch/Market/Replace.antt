-- ===== src/Itch/Market/Replace.antt =====
-- The replace handler of itch/ItchMarketState.h: the old order leaves, and the new one joins.
use native.Mathlib.Decide.{ℕ_discrete}
use low_latency_trading.Base.{
  ℕ, ◌<◌, ◌≡◌, ◌⊎◌, sym, ap, ◌∙◌, Bool, true, false, not, ◌&&◌, none, some, arith, ◌==◌,
  if◌then◌else◌, Bool-cases, Option-cases, inl, inr,
}
use low_latency_trading.Book.Sides
use low_latency_trading.Book.Bbo.{bbo, side_of}
use low_latency_trading.OrderStore.{Order, OrderStore, capacity, contains, find_index, stored}
use low_latency_trading.OrderStore
use low_latency_trading.OrderStore.Probe.{find_index-lt}
use low_latency_trading.Itch.Messages.{OrderReplaceMessage}
use low_latency_trading.Itch.Market.State.{MarketState, MarketEvent, Counters, notify_trade}
use low_latency_trading.Itch.Market.State
use low_latency_trading.Itch.Market.Spec.{view, holding, replaced, view-Added, view-Removed}
use low_latency_trading.Itch.Market.Resting.{publish}
use low_latency_trading.Itch.Market.Handlers
use low_latency_trading.Itch.Market.Handlers.{count, on_message}
use low_latency_trading.Itch.Market.Weights.{share_limit}
use low_latency_trading.Itch.Market.Entry.{entry_sound}
use low_latency_trading.Itch.Market.Invariant.{Inv, Changed, Handled, publish-Inv}
use low_latency_trading.Itch.Market.Safe.{remove_resting_lem}
use low_latency_trading.Book.Effects.{handle-add}
use low_latency_trading.OrderStore.{StoredOrder}
use low_latency_trading.OrderStore.Map.{get, get-find_index-none}
use low_latency_trading.OrderStore.Weigh.{weigh, one}
use low_latency_trading.OrderStore.Add.{add_lem}
use low_latency_trading.OrderStore.Remove.{Removed}
use low_latency_trading.Itch.Market.Resting.{put_side}
use low_latency_trading.Itch.Market.Weights.{is_sound, weigh-one_le}
use low_latency_trading.Itch.Market.Consistent.{Consistent}
use low_latency_trading.Itch.Market.Keeps.{add-Consistent}
use low_latency_trading.Itch.Market.Joining.{put_side-Changed}
use low_latency_trading.Itch.Market.Outcomes.{count-Handled, Handled-of_eq, find-resting}

Changed-trans :
    (i : ℕ) {m u w : MarketState}
    → u.orders.size < m.orders.size
    → Changed i m u
    → Changed i u w
    → Changed i m w
Changed-trans i fewer c d = record {
  consistent = d.consistent;
  books = λ j ne. d.books j ne ∙ c.books j ne;
  quotes = λ j. d.quotes j ∙ c.quotes j;
  handler = d.handler ∙ c.handler;
  faults = d.faults ∙ c.faults;
  growth = omega (arith, fewer, d.growth);
}

-- A new order joins the book of the one that has left.
add_replacement_lem :
    (m : MarketState) (o : Order)
    → Consistent m.books m.orders
    → o.quantity < share_limit
    → m.books.present o.instrument_id ≡ true
    → m.orders.size < capacity
    → find_index m.orders o.order_id ≡ none
    → (u : MarketState) × (Handlers.add_replacement m o ≡ (u, true))
      × Changed o.instrument_id m u
      × ((id : ℕ) → view u.orders id ≡ holding (view m.orders) o id)
unfolding Handlers.add_replacement
add_replacement_lem m o c few there room missing =
    let i = o.instrument_id in
    let home = side_of (m.books.books i) o.side in
    let joined = Sides.add home o.price o.quantity in
    let entry : StoredOrder = record { order = o; level = joined.0 } in
    let (done, added) = add_lem m.orders o joined.0 c.valid missing room in
    let u = (OrderStore.add m.orders o joined.0).1 in
    let sound : is_sound m.books.present entry ≡ true =
      ground (arith, few, there, handle-add home o.price o.quantity) in
    (
      record (put_side m i (m.books.books i) o.side joined.1) { orders = u },
      ground (arith, done),
      put_side-Changed m i o.side joined.1 u (add-Consistent m.books m.orders u entry c sound added)
          (omega (arith, added.weighs one, added.valid.counted, c.valid.counted)),
      view-Added added,
    )

-- Once the old order has left, the new identifier is free and the table has room.
free_after :
    (s u : OrderStore) (v : StoredOrder) (id : ℕ)
    → s.size ≡ weigh one s
    → Removed s v u
    → (get s id ≡ none) ⊎ (v.order.order_id ≡ id)
    → (find_index u id ≡ none) × (u.size < capacity) × (u.size < s.size)
free_after s u v id counted removed free = (
  get-find_index-none u id (ground (arith, removed.gets id, free)),
  omega (arith, removed.weighs one, removed.valid.counted, weigh-one_le s),
  omega (arith, removed.weighs one, removed.valid.counted, counted),
)

get-contains : (s : OrderStore) (id : ℕ) → contains s id ≡ false → get s id ≡ none
unfolding get contains
get-contains s id h = ground (arith, h)

new_is_free :
    (s : OrderStore) (new old : ℕ) (v : StoredOrder)
    → v.order.order_id ≡ old
    → (not (new == old) && contains s new) ≡ false
    → (get s new ≡ none) ⊎ (v.order.order_id ≡ new)
new_is_free s new old v same h = elim (ℕ_discrete new old) [
  | yes e ↦ inr (same ∙ sym e)
  | no ne ↦ inl (get-contains s new (ground (arith, h, ne)))
]

-- Replacing keeps the invariant, on every branch.
pub replace-Handled :
    (m : MarketState) (x : OrderReplaceMessage)
    → Inv m
    → x.shares < share_limit
    → m.orders.size < capacity
    → Handled m (replaced (view m.orders) x) (Handlers.handle_order_replace m x)
unfolding Handlers.handle_order_replace OrderStore.find contains
replace-Handled m x v few room =
    let new = x.new_order_reference_number in
    let old = x.original_order_reference_number in
    elim (Option-cases (find_index m.orders old)) [
      | inl missing ↦
          Handled-of_eq m (ground (arith, missing)) (λ id. ground (arith, missing))
            (count-Handled m
              (λ c. record c { unknown_order_replaces = State.inc c.unknown_order_replaces }) v)
      | inr (it, found) ↦
          let (below, full, same) = find_index-lt m.orders old found in
          let o = (stored m.orders it).order in
          let i = o.instrument_id in
          let clash = not (new == old) && contains m.orders new in
          elim (Bool-cases clash) [
            | inl taken ↦
                Handled-of_eq m (ground (arith, found, taken)) (λ id. ground (arith, found, taken))
                  (count-Handled m
                    (λ c. record c {
                      duplicate_replacement_order_ids = State.inc c.duplicate_replacement_order_ids;
                    })
                    v)
            | inr open' ↦
                let next = Handlers.replacement o x in
                let (m', gone, changed, removed, present) =
                  remove_resting_lem m it v room below full (λ u.
                    let (u', added) = Handlers.add_replacement u next in
                    some
                      (if added then publish u' i x.timestamp (bbo (m.books.books i)) else u')) in
                let (missing, room', fewer) =
                  free_after m.orders m'.orders (stored m.orders it) new v.consistent.valid.counted
                    removed (new_is_free m.orders new old (stored m.orders it) same open') in
                let there : m'.books.present i ≡ true = ground (
                  arith,
                  ap (λ (f : ℕ → Bool). f i) present,
                  entry_sound m.books m.orders it v.consistent below full,
                ) in
                let (u, joins, changed', held) =
                  add_replacement_lem m' next changed.consistent few there room' missing in
                let (inv, faults, growth, shows) =
                  publish-Inv m u i x.timestamp v (Changed-trans i fewer changed changed') in
                (
                  publish u i x.timestamp (bbo (m.books.books i)),
                  ground (arith, found, open', find-resting m it v below full, gone, joins),
                  inv,
                  faults,
                  growth,
                  λ id. ground (
                    arith,
                    found,
                    open',
                    same,
                    shows id,
                    held id,
                    view-Removed removed id,
                    view-Removed removed new,
                  ),
                )
          ]
    ]
