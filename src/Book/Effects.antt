-- ===== src/Book/Effects.antt =====
-- What the operations of book/BookSide.h do to the levels.
use low_latency_trading.Base.{
  ℕ, ◌-◌, ◌≤◌, ◌≡◌, ◌≢◌, refl, true, none, some, arith, if◌then◌else◌, ◌==◌, Option-cases, inl, inr,
}
use low_latency_trading.Book.Level
use low_latency_trading.Book.Levels.{
  Ascending, find_level, level_or_fresh, try_emplace, find_level-assign, find_level-try_emplace,
  find_level-erase, assign-Ascending, try_emplace-Ascending, erase-Ascending,
}
use low_latency_trading.Book.Sides.{BookSide, empty_side}
use low_latency_trading.Book.Sides

-- What a level at any price is after `add`.
pub find_level-add :
    (s : BookSide) (p q j : ℕ)
    → Ascending s.levels
    → find_level j (Sides.add s p q).1.levels ≡ (
        if p == j
        then some (Level.add_order (level_or_fresh p (find_level p s.levels)) q)
        else find_level j s.levels)
unfolding Sides.add
find_level-add s p q j v =
    let old = level_or_fresh p (find_level p s.levels) in
    let here : find_level p (try_emplace p s.levels) ≡ some old =
      ground (arith, find_level-try_emplace p p s.levels v) in
    ground (
      arith,
      here,
      find_level-try_emplace p j s.levels v,
      find_level-assign p j old (Level.add_order old q) (try_emplace p s.levels) here,
    )

pub add-Ascending :
    (s : BookSide) (p q : ℕ) → Ascending s.levels → Ascending (Sides.add s p q).1.levels
unfolding Sides.add
add-Ascending s p q v = assign-Ascending p _ _ (try_emplace-Ascending p s.levels v)

-- While its level is in the map, a handle's `reduce` is defined and does what `reduce` by the
-- handle's price does.
pub reduce_at-reduce :
    (s : BookSide) (p q : ℕ) {l : Level.PriceLevel}
    → find_level p s.levels ≡ some l
    → Sides.reduce_at s p q ≡ some (Sides.reduce s p q)
unfolding Sides.reduce_at Sides.reduce
reduce_at-reduce s p q e = ground (arith, e)

-- While its level is in the map, a handle's `removeOrder` is defined and does what `removeOrder`
-- by the handle's price does.
pub remove_order_at-remove_order :
    (s : BookSide) (p q : ℕ) {l : Level.PriceLevel}
    → find_level p s.levels ≡ some l
    → Sides.remove_order_at s p q ≡ some (Sides.remove_order s p q)
unfolding Sides.remove_order_at Sides.remove_order
remove_order_at-remove_order s p q e = ground (arith, e)

module _ (s : BookSide) (p q : ℕ) (l : Level.PriceLevel) (e : find_level p s.levels ≡ some l) where
  pub find_level-reduce :
      (j : ℕ)
      → q ≤ l.quantity
      → find_level j (Sides.reduce s p q).1.levels
        ≡ (if p == j then some (record l { quantity = l.quantity - q }) else find_level j s.levels)
  unfolding Sides.reduce
  find_level-reduce j h =
      ground (arith, e, find_level-assign p j l (record l { quantity = l.quantity - q }) s.levels e)

  pub find_level-remove_order :
      (j : ℕ)
      → q ≤ l.quantity
      → l.order_count ≢ 0
      → Ascending s.levels
      → find_level j (Sides.remove_order s p q).1.levels ≡ (
          if p == j
          then (if l.order_count == 1
              then none
              else some (record l { quantity = l.quantity - q; order_count = l.order_count - 1 }))
          else find_level j s.levels)
  unfolding Sides.remove_order
  find_level-remove_order j h c v =
      let left = record l { quantity = l.quantity - q; order_count = l.order_count - 1 } in
      ground (arith, e, find_level-erase p j s.levels v, find_level-assign p j l left s.levels e)

  pub reduce-true : q ≤ l.quantity → (Sides.reduce s p q).0 ≡ true
  unfolding Sides.reduce
  reduce-true h = ground (arith, e)

  pub remove_order-true : q ≤ l.quantity → l.order_count ≢ 0 → (Sides.remove_order s p q).0 ≡ true
  unfolding Sides.remove_order
  remove_order-true h c = ground (arith, e)

pub reduce-Ascending :
    (s : BookSide) (p q : ℕ) → Ascending s.levels → Ascending (Sides.reduce s p q).1.levels
unfolding Sides.reduce
reduce-Ascending s p q v = elim (Option-cases (find_level p s.levels)) [
  | inl e ↦ ground (arith, e)
  | inr (l, e) ↦ ground (
    arith,
    e,
    assign-Ascending p l s.levels v,
    assign-Ascending p (record l { quantity = l.quantity - q }) s.levels v,
  )
]

pub remove_order-Ascending :
    (s : BookSide) (p q : ℕ) → Ascending s.levels → Ascending (Sides.remove_order s p q).1.levels
unfolding Sides.remove_order
remove_order-Ascending s p q v = elim (Option-cases (find_level p s.levels)) [
  | inl e ↦ ground (arith, e)
  | inr (l, e) ↦ ground (
    arith,
    e,
    erase-Ascending p s.levels v,
    assign-Ascending p (record l { quantity = l.quantity - q; order_count = l.order_count - 1 })
        s.levels v,
  )
]

-- No operation changes which side this is.
pub side-add : (s : BookSide) (p q : ℕ) → (Sides.add s p q).1.side ≡ s.side
unfolding Sides.add
side-add s p q = refl

pub side-reduce : (s : BookSide) (p q : ℕ) → (Sides.reduce s p q).1.side ≡ s.side
unfolding Sides.reduce
side-reduce s p q = ground arith

pub side-remove_order : (s : BookSide) (p q : ℕ) → (Sides.remove_order s p q).1.side ≡ s.side
unfolding Sides.remove_order
side-remove_order s p q = ground arith

-- The handle that `add` returns is that of the order's price.
pub handle-add : (s : BookSide) (p q : ℕ) → (Sides.add s p q).0 ≡ p
unfolding Sides.add
handle-add s p q = refl
