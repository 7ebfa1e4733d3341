-- ===== src/Book/Orders.antt =====
-- What a book side promises, independent of its code: it shows a collection of resting orders,
-- each a price and a quantity, by one level for each price at which an order rests.
use low_latency_trading.Base.{
  ℕ, suc, ◌+◌, ◌≤◌, ◌≡◌, refl, Option, none, some, List, [], ◌∷◌, ◌++◌, arith, ◌==◌, if◌then◌else◌,
  length,
}
use low_latency_trading.Book.Level.{PriceLevel}

abbrev pub Orders : Type 0
Orders = List (ℕ × ℕ)

-- The quantity that rests at a price.
unfoldable pub depth : ℕ → Orders → ℕ
depth p [] = 0
depth p ((k, q) ∷ os) = if k == p then q + depth p os else depth p os

-- The orders that rest at a price.
unfoldable pub count : ℕ → Orders → ℕ
count p [] = 0
count p ((k, q) ∷ os) = if k == p then suc (count p os) else count p os

unfoldable pub total : Orders → ℕ
total [] = 0
total ((k, q) ∷ os) = q + total os

unfoldable pub summary : ℕ → Orders → Option PriceLevel
summary p os =
    if count p os == 0
    then none
    else some (record { price = p; quantity = depth p os; order_count = count p os })

pub depth-le-total : (p : ℕ) (os : Orders) → depth p os ≤ total os
unfolding depth total
depth-le-total p [] = omega arith
depth-le-total p ((k, q) ∷ os) = ground (arith, depth-le-total p os)

pub count-le-length : (p : ℕ) (os : Orders) → count p os ≤ length os
unfolding count
count-le-length p [] = omega arith
count-le-length p ((k, q) ∷ os) = ground (arith, count-le-length p os)

pub depth-of_count : (p : ℕ) (os : Orders) → count p os ≡ 0 → depth p os ≡ 0
unfolding depth count
depth-of_count p [] h = refl
depth-of_count p ((k, q) ∷ os) h = ground (arith, depth-of_count p os)

pub depth-append : (p : ℕ) (xs ys : Orders) → depth p (xs ++ ys) ≡ depth p xs + depth p ys
unfolding depth
depth-append p [] ys = omega arith
depth-append p ((k, q) ∷ xs) ys = ground (arith, depth-append p xs ys)

pub count-append : (p : ℕ) (xs ys : Orders) → count p (xs ++ ys) ≡ count p xs + count p ys
unfolding count
count-append p [] ys = omega arith
count-append p ((k, q) ∷ xs) ys = ground (arith, count-append p xs ys)
