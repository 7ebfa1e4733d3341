-- ===== src/OrderStore/Weigh.antt =====
-- Sums over the occupied slots of a table: the view of normalized/OrderStore.h that forgets
-- where an order is stored. With a suitable weight the sum counts orders or adds quantities.
use low_latency_trading.Base.{
  ℕ, zero, suc, ◌+◌, ◌≤◌, ◌<◌, ◌≡◌, refl, false, arith, if◌then◌else◌, update, Bool-cases, inl, inr,
}
use low_latency_trading.OrderStore.{StoredOrder, Slot, Slots, OrderStore, capacity}

abbrev pub Weight : Type 0
Weight = StoredOrder → ℕ

-- The weight of a slot's entry.
unfoldable pub slot_weight : Weight → Slot → ℕ
slot_weight w s = if s.occupied then w s.value else 0

-- Over the first `n` slots.
unfoldable pub weigh_below : ℕ → Weight → Slots → ℕ
weigh_below zero w t = 0
weigh_below (suc n) w t = slot_weight w (t n) + weigh_below n w t

unfoldable pub weigh : Weight → OrderStore → ℕ
weigh w s = weigh_below capacity w s.slots

weigh_below-update_above :
    (n : ℕ) (w : Weight) (t : Slots) (i : ℕ) (v : Slot)
    → n ≤ i
    → weigh_below n w (update t i v) ≡ weigh_below n w t
unfolding weigh_below
weigh_below-update_above zero w t i v h = refl
weigh_below-update_above (suc n) w t i v h = ground (arith, weigh_below-update_above n w t i v)

-- Replacing an entry changes the sum by the difference of the two weights.
pub weigh_below-update :
    (n : ℕ) (w : Weight) (t : Slots) (i : ℕ) (v : Slot)
    → i < n
    → weigh_below n w (update t i v) + slot_weight w (t i) ≡ weigh_below n w t + slot_weight w v
unfolding weigh_below
weigh_below-update zero w t i v h = absurd (omega arith)
weigh_below-update (suc n) w t i v h =
    ground (arith, weigh_below-update n w t i v, weigh_below-update_above n w t i v)

pub weigh_below-ge :
    (n : ℕ) (w : Weight) (t : Slots) (i : ℕ) → i < n → slot_weight w (t i) ≤ weigh_below n w t
unfolding weigh_below
weigh_below-ge zero w t i h = absurd (omega arith)
weigh_below-ge (suc n) w t i h = ground (arith, weigh_below-ge n w t i)

-- The number of entries.
abbrev pub one : Weight
one v = 1

pub weigh_below-one_le : (n : ℕ) (t : Slots) → weigh_below n one t ≤ n
unfolding weigh_below slot_weight
weigh_below-one_le zero t = omega arith
weigh_below-one_le (suc n) t = ground (arith, weigh_below-one_le n t)

-- Fewer entries than slots leave an empty slot.
pub empty_of_weigh_below-one :
    (n : ℕ) (t : Slots) → weigh_below n one t < n → (e : ℕ) × (e < n) × ((t e).occupied ≡ false)
unfolding weigh_below slot_weight
empty_of_weigh_below-one zero t h = absurd (omega arith)
empty_of_weigh_below-one (suc n) t h = elim (Bool-cases (t n).occupied) [
  | inl full ↦
      let (e, below, e-empty) = empty_of_weigh_below-one n t (ground (arith, full)) in
      (e, omega arith, e-empty)
  | inr empty ↦ (n, omega arith, empty)
]

pub weigh_below-zero :
    (n : ℕ) (w : Weight) (t : Slots)
    → ((i : ℕ) → i < n → slot_weight w (t i) ≡ 0)
    → weigh_below n w t ≡ 0
unfolding weigh_below
weigh_below-zero zero w t h = refl
weigh_below-zero (suc n) w t h =
    omega (arith, h n (omega arith), weigh_below-zero n w t (λ i k. h i (omega arith)))

-- A weight that is bounded by another on every entry.
pub weigh_below-le :
    (n : ℕ) (w u : Weight) (t : Slots)
    → ((i : ℕ) → i < n → slot_weight w (t i) ≤ slot_weight u (t i))
    → weigh_below n w t ≤ weigh_below n u t
unfolding weigh_below
weigh_below-le zero w u t h = omega arith
weigh_below-le (suc n) w u t h =
    omega (arith, h n (omega arith), weigh_below-le n w u t (λ i k. h i (omega arith)))
