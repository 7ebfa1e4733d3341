-- ===== src/Itch/Market/Spec.antt =====
-- What the messages of itch/ItchMarketState.h mean for the resting orders, independently of the
-- tables and books: a view gives the order with each identifier, where one rests.
use low_latency_trading.Base.{
  ℕ, ◌-◌, ◌≡◌, Option, none, some, List, [], ◌∷◌, arith, ltb, ◌==◌, if◌then◌else◌,
}
use low_latency_trading.OrderStore.{Order, StoredOrder, OrderStore}
use low_latency_trading.OrderStore
use low_latency_trading.OrderStore.Map.{get}
use low_latency_trading.OrderStore.Add.{Added}
use low_latency_trading.OrderStore.Remove.{Removed}
use low_latency_trading.OrderStore.Update.{Replaced}
use low_latency_trading.Itch.Messages.{
  ItchMessage, OrderReplaceMessage, add_order, add_order_with_mpid, order_executed,
  order_executed_with_price, order_cancel, order_delete, order_replace,
}
use low_latency_trading.Itch.Normalizer.{normalize_order, normalize_order_with_mpid}
use low_latency_trading.Itch.Market.Handlers.{replacement}

abbrev pub View : Type 0
View = ℕ → Option Order

abbrev pub holding : View → Order → View
holding f o id = if o.order_id == id then some o else f id

abbrev pub without : View → ℕ → View
without f i id = if i == id then none else f id

-- Shares leave an order, and the order leaves with the last of them.
abbrev pub taken_off : View → Order → ℕ → View
taken_off f o x id =
    if x == o.quantity
    then without f o.order_id id
    else holding f (record o { quantity = o.quantity - x }) id

-- A new order rests, unless its identifier is taken.
abbrev pub joined : View → Order → View
joined f o id = elim (f o.order_id) [ none ↦ holding f o id | some other ↦ f id ]

-- An execution or a cancellation of at most the shares that rest.
abbrev pub reduced : View → ℕ → ℕ → View
reduced f i x id = elim (f i) [
  | none ↦ f id
  | some o ↦ if ltb o.quantity x then f id else taken_off f o x id
]

-- The old order leaves and its replacement rests, unless the new identifier is another order's.
abbrev pub replaced : View → OrderReplaceMessage → View
replaced f x id =
    let old = x.original_order_reference_number in
    let new = x.new_order_reference_number in
    elim (f old) [
      | none ↦ f id
      | some o ↦ elim (without f old new) [
        | some other ↦ f id
        | none ↦ holding (without f old) (replacement o x) id
      ]
    ]

-- One message.
abbrev pub after : View → ItchMessage → View
after f (add_order x) = joined f (normalize_order x)
after f (add_order_with_mpid x) = joined f (normalize_order_with_mpid x)
after f (order_executed x) = reduced f x.order_reference_number x.executed_shares
after f (order_executed_with_price x) = reduced f x.order_reference_number x.executed_shares
after f (order_cancel x) = reduced f x.order_reference_number x.cancelled_shares
after f (order_delete x) = without f x.order_reference_number
after f (order_replace x) = replaced f x
after f other = f

-- Messages one after another.
abbrev pub after_all : View → List ItchMessage → View
after_all f [] = f
after_all f (x ∷ xs) = after_all (after f x) xs

-- The view that `find` gives of the order store.
abbrev pub view : OrderStore → View
view s = OrderStore.find s

view-get :
    (s : OrderStore) (id : ℕ)
    → view s id ≡ (elim (get s id) [ none ↦ none | some v ↦ some v.order ])
unfolding OrderStore.find get
view-get s id = ground arith

pub view-Added :
    {s u : OrderStore} {v : StoredOrder}
    → Added s v u
    → (id : ℕ) → view u id ≡ holding (view s) v.order id
view-Added {s} {u} added id = ground (arith, view-get s id, view-get u id, added.gets id)

pub view-Removed :
    {s u : OrderStore} {v : StoredOrder}
    → Removed s v u
    → (id : ℕ) → view u id ≡ without (view s) v.order.order_id id
view-Removed {s} {u} removed id = ground (arith, view-get s id, view-get u id, removed.gets id)

pub view-Replaced :
    {s u : OrderStore} {v x : StoredOrder}
    → Replaced s v x u
    → v.order.order_id ≡ x.order.order_id
    → (id : ℕ) → view u id ≡ holding (view s) x.order id
view-Replaced {s} {u} changed same id =
    ground (arith, view-get s id, view-get u id, changed.gets id, same)
