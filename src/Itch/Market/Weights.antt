-- ===== src/Itch/Market/Weights.antt =====
-- How much of the order store of itch/ItchMarketState.h rests at a price of a book.
use low_latency_trading.Base.{
  ℕ, zero, suc, ◌*◌, ◌≤◌, ◌<◌, ◌≡◌, Bool, true, false, ◌&&◌, Option, none, some, arith, ltb, ◌==◌,
  if◌then◌else◌, Bool-cases, inl, inr,
}
use low_latency_trading.Book.Types.{Side, buy, sell}
use low_latency_trading.Book.Level.{PriceLevel}
use low_latency_trading.OrderStore.{StoredOrder, Slots, OrderStore, capacity}
use low_latency_trading.OrderStore.Weigh.{
  Weight, slot_weight, weigh, weigh_below, weigh_below-ge, weigh_below-one_le, weigh_below-le, one,
}

abbrev pub same_side : Side → Side → Bool
same_side buy buy = true
same_side sell sell = true
same_side buy sell = false
same_side sell buy = false

-- The order rests in book `i`, on side `d`, at price `p`.
abbrev pub rests_at : ℕ → Side → ℕ → StoredOrder → Bool
rests_at i d p v = (v.order.instrument_id == i) && same_side v.order.side d && (v.order.price == p)

unfoldable pub qty_at : ℕ → Side → ℕ → Weight
qty_at i d p v = if rests_at i d p v then v.order.quantity else 0

unfoldable pub count_at : ℕ → Side → ℕ → Weight
count_at i d p v = if rests_at i d p v then 1 else 0

-- Shares are 32-bit numbers.
abbrev pub share_limit : ℕ
share_limit = 4294967296

-- What every stored order satisfies: its book exists, its handle is the level at its price, and
-- its quantity is a number of shares.
abbrev pub is_sound : (ℕ → Bool) → StoredOrder → Bool
is_sound present v =
    present v.order.instrument_id && (v.level == v.order.price) && ltb v.order.quantity share_limit

unfoldable pub unsound : (ℕ → Bool) → Weight
unsound present v = if is_sound present v then 0 else 1

-- The level that shows a quantity and a number of orders.
unfoldable pub level_of : ℕ → ℕ → ℕ → Option PriceLevel
level_of p d c = if c == 0 then none else some (record { price = p; quantity = d; order_count = c })

weigh_below-scale :
    (n : ℕ) (w u : Weight) (t : Slots)
    → ((i : ℕ) → i < n → slot_weight w (t i) ≤ share_limit * slot_weight u (t i))
    → weigh_below n w t ≤ share_limit * weigh_below n u t
unfolding weigh_below
weigh_below-scale zero w u t h = omega arith
weigh_below-scale (suc n) w u t h =
    omega (arith, h n (omega arith), weigh_below-scale n w u t (λ i k. h i (omega arith)))

-- What soundness says of the entry in a slot.
pub sound_entry :
    (present : ℕ → Bool) (s : OrderStore) (r : ℕ)
    → weigh (unsound present) s ≡ 0
    → r < capacity
    → (s.slots r).occupied ≡ true
    → is_sound present (s.slots r).value ≡ true
unfolding weigh slot_weight unsound
sound_entry present s r h k o =
    ground (arith, o, weigh_below-ge capacity (unsound present) s.slots r k)

-- An entry is part of what it is counted in.
pub weigh-ge :
    (w : Weight) (s : OrderStore) (r : ℕ)
    → r < capacity
    → (s.slots r).occupied ≡ true
    → w (s.slots r).value ≤ weigh w s
unfolding weigh slot_weight
weigh-ge w s r k o = ground (arith, o, weigh_below-ge capacity w s.slots r k)

module _ (present : ℕ → Bool) (s : OrderStore) (i : ℕ) (d : Side) (p : ℕ)
    (h : weigh (unsound present) s ≡ 0) where
  -- No counter of a level comes near 2 ^ 64.
  pub qty_bounds :
      (weigh (qty_at i d p) s ≤ share_limit * weigh (count_at i d p) s)
      × (weigh (qty_at i d p) s ≤ share_limit * weigh one s)
  unfolding weigh slot_weight qty_at count_at
  qty_bounds = (
    weigh_below-scale capacity (qty_at i d p) (count_at i d p) s.slots (λ r k.
        elim (Bool-cases (s.slots r).occupied) [
          | inl o ↦ ground (arith, o, sound_entry present s r h k o)
          | inr e ↦ ground (arith, e)
        ]),
    weigh_below-scale capacity (qty_at i d p) one s.slots (λ r k.
        elim (Bool-cases (s.slots r).occupied) [
          | inl o ↦ ground (arith, o, sound_entry present s r h k o)
          | inr e ↦ ground (arith, e)
        ]),
  )

pub weigh-one_le : (s : OrderStore) → weigh one s ≤ capacity
unfolding weigh
weigh-one_le s = weigh_below-one_le capacity s.slots

pub count_at-le : (i : ℕ) (d : Side) (p : ℕ) (s : OrderStore) → weigh (count_at i d p) s ≤ capacity
unfolding weigh slot_weight count_at
count_at-le i d p s = omega (
  arith,
  weigh_below-one_le capacity s.slots,
  weigh_below-le capacity (count_at i d p) one s.slots (λ r k. ground arith),
)
