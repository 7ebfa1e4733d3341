-- ===== src/Itch/Market/Keeps.antt =====
-- The steps from which the handlers of itch/ItchMarketState.h are made keep the books and the
-- order store consistent.
use low_latency_trading.Base.{
  ℕ, ◌+◌, ◌*◌, ◌≤◌, ◌<◌, ◌^◌, ◌≡◌, refl, Bool, true, false, arith, ◌==◌, if◌then◌else◌,
}
use low_latency_trading.Book.Types.{Side, buy, sell}
use low_latency_trading.Book.Level
use low_latency_trading.Book.Level.{PriceLevel}
use low_latency_trading.Book.Levels.{Ascending, find_level}
use low_latency_trading.Book.Sides.{BookSide}
use low_latency_trading.Book.Sides
use low_latency_trading.Book.Effects.{find_level-add, add-Ascending, side-add}
use low_latency_trading.Book.Bbo.{side_of}
use low_latency_trading.Book.Store.{BookStore, get_or_create}
use low_latency_trading.OrderStore.{StoredOrder, OrderStore, capacity}
use low_latency_trading.OrderStore.Weigh.{weigh, weigh_below-le, slot_weight}
use low_latency_trading.OrderStore.Add.{Added}
use low_latency_trading.Itch.Market.Weights.{
  same_side, rests_at, qty_at, count_at, share_limit, is_sound, unsound, level_of, qty_bounds,
  count_at-le, weigh-one_le,
}
use low_latency_trading.Itch.Market.Consistent.{Consistent, with_level_side, level-Consistent}

-- More books make no order unsound.
less_unsound :
    (f g : ℕ → Bool) (o : OrderStore)
    → ((j : ℕ) → f j ≡ true → g j ≡ true)
    → weigh (unsound g) o ≤ weigh (unsound f) o
unfolding weigh slot_weight unsound
less_unsound f g o h =
    weigh_below-le capacity (unsound g) (unsound f) o.slots
      (λ r k. ground (arith, h (o.slots r).value.order.instrument_id))

-- A new empty book changes no other.
pub get_or_create-Consistent :
    (b : BookStore) (o : OrderStore) (i : ℕ) → Consistent b o → Consistent (get_or_create b i) o
unfolding get_or_create
get_or_create-Consistent b o i c = record {
  valid = c.valid;
  sided = λ j. ground (arith, c.sided j);
  sorted = λ j d. ground (arith, c.sorted j d);
  sound = omega (
    arith,
    c.sound,
    less_unsound b.present (get_or_create b i).present o (λ j h. ground (arith, h)),
  );
  shows = λ j d p. ground (arith, c.shows j d p);
}

same_side_self : (d : Side) → same_side d d ≡ true
same_side_self buy = refl
same_side_self sell = refl

-- An order weighs nothing where it does not rest.
pub at_rest :
    (v : StoredOrder)
    → (qty_at v.order.instrument_id v.order.side v.order.price v ≡ v.order.quantity)
      × (count_at v.order.instrument_id v.order.side v.order.price v ≡ 1)
unfolding qty_at count_at
at_rest v = ground (arith, same_side_self v.order.side)

pub elsewhere :
    (v : StoredOrder) (j : ℕ) (e : Side) (q : ℕ)
    → rests_at j e q v ≡ false
    → (qty_at j e q v ≡ 0) × (count_at j e q v ≡ 0)
unfolding qty_at count_at
elsewhere v j e q h = ground (arith, h)

add_shows :
    (s : BookSide) (p q d c j : ℕ)
    → Ascending s.levels
    → find_level p s.levels ≡ level_of p d c
    → d ≤ share_limit * c
    → d + q < 2 ^ 64
    → c + 1 < 2 ^ 64
    → find_level j (Sides.add s p q).1.levels
      ≡ (if p == j then level_of p (d + q) (c + 1) else find_level j s.levels)
unfolding level_of Level.add_order
add_shows s p q d c j v h scale small few = ground (arith, h, find_level-add s p q j v)

-- The level of an order that joins the store.
pub add-Consistent :
    (b : BookStore) (o u : OrderStore) (v : StoredOrder)
    → Consistent b o
    → is_sound b.present v ≡ true
    → Added o v u
    → Consistent
        (with_level_side b v.order.instrument_id v.order.side
          (Sides.add
            (side_of (b.books v.order.instrument_id) v.order.side)
            v.order.price
            v.order.quantity).1)
        u
unfolding unsound
add-Consistent b o u v c sound added =
    let i = v.order.instrument_id in
    let d = v.order.side in
    let p = v.order.price in
    let q = v.order.quantity in
    level-Consistent b o u i d p (Sides.add (side_of (b.books i) d) p q).1 c added.valid
      (ground (arith, sound, c.sound, added.weighs (unsound b.present)))
      (side-add (side_of (b.books i) d) p q)
      (add-Ascending (side_of (b.books i) d) p q (c.sorted i d))
      (λ j. ground (
        arith,
        at_rest v,
        added.weighs (qty_at i d p),
        added.weighs (count_at i d p),
        add_shows (side_of (b.books i) d) p q (weigh (qty_at i d p) o) (weigh (count_at i d p) o) j
            (c.sorted i d) (c.shows i d p),
        qty_bounds b.present o i d p c.sound,
        weigh-one_le o,
        count_at-le i d p o,
        sound,
      ))
      (λ j e r h.
        let away = elsewhere v j e r h in
        (
          omega (arith, away, added.weighs (qty_at j e r)),
          omega (arith, away, added.weighs (count_at j e r)),
        ))
