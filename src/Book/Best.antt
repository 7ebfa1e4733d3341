-- ===== src/Book/Best.antt =====
-- `best()` of book/BookSide.h against the orders that the side shows.
use mathlib.Core.Path.{subst}
use low_latency_trading.Base.{
  ℕ, ◌≤◌, ◌≡◌, ◌≢◌, refl, ap, sym, ◌∙◌, ◌↔◌, none, some, [], ◌∷◌, arith, All,
}
use low_latency_trading.Book.Types.{Side, buy, sell}
use low_latency_trading.Book.Level.{PriceLevel}
use low_latency_trading.Book.Levels.{
  Levels, Above, Ascending, find_level, first_level, last_level, last_from, find_level-Above,
}
use low_latency_trading.Book.Orders.{Orders, count, summary}
use low_latency_trading.Book.Sides.{BookSide, best}
use low_latency_trading.Book.Refine.{Represents}

-- `NoBetter side a b`: an order at `a` has no priority over one at `b`.
abbrev pub NoBetter : Side → ℕ → ℕ → Type 0
NoBetter buy a b = a ≤ b
NoBetter sell a b = b ≤ a

-- `l` is the level at key `b`, and no level has priority over it.
abbrev Extreme : Side → Levels → PriceLevel → ℕ → Type 0
Extreme side ls l b =
    (find_level b ls ≡ some l) × ((j : ℕ) → ¬ NoBetter side j b → find_level j ls ≡ none)

first_level-Extreme :
    (k : ℕ) (l : PriceLevel) (ls : Levels) → Above k ls → Extreme sell ((k, l) ∷ ls) l k
unfolding find_level
first_level-Extreme k l ls v = (ground arith, λ j h. ground (arith, h, find_level-Above k j ls v))

last_from-Extreme :
    (k : ℕ) (l : PriceLevel) (ls : Levels)
    → Above k ls
    → (b : ℕ) × (k ≤ b) × Extreme buy ((k, l) ∷ ls) (last_from l ls) b
unfolding find_level last_from
last_from-Extreme k l [] v = (k, omega arith, (ground arith, λ j h. ground (arith, h)))
last_from-Extreme k l ((i, m) ∷ ls) v =
    let (b, above, extreme) = last_from-Extreme i m ls v.1 in
    (b, omega arith, (ground (arith, extreme.0), λ j h. ground (arith, h, extreme.1 j h)))

best-Extreme :
    (side : Side) (ls : Levels) (l : PriceLevel)
    → Ascending ls
    → best (record { side = side; levels = ls }) ≡ some l
    → (b : ℕ) × Extreme side ls l b
unfolding best first_level last_level
best-Extreme buy [] l v h = cc
best-Extreme sell [] l v h = cc
best-Extreme buy ((k, m) ∷ ls) l v h =
    let (b, _, e) = last_from-Extreme k m ls v in
    let same : last_from m ls ≡ l = cc in (b, subst (λ x. Extreme buy ((k, m) ∷ ls) x b) same e)
best-Extreme sell ((k, m) ∷ ls) l v h =
    let same : m ≡ l = cc in
    (k, subst (λ x. Extreme sell ((k, m) ∷ ls) x k) same (first_level-Extreme k m ls v))

-- No order rests where the counts are zero.
none_better :
    (side : Side) (b : ℕ) (os : Orders)
    → ((j : ℕ) → ¬ NoBetter side j b → count j os ≡ 0)
    → All (λ o. NoBetter side o.0 b) os
unfolding count
none_better side b [] h = tt
none_better buy b ((k, q) ∷ os) h =
    (grind (arith, h k), none_better buy b os (λ j n. ground (arith, h j n)))
none_better sell b ((k, q) ∷ os) h =
    (grind (arith, h k), none_better sell b os (λ j n. ground (arith, h j n)))

summary-none : (p : ℕ) (os : Orders) → summary p os ≡ none → count p os ≡ 0
unfolding summary
summary-none p os h = ground arith

summary-price : (p : ℕ) (os : Orders) (l : PriceLevel) → summary p os ≡ some l → l.price ≡ p
unfolding summary
summary-price p os l h = ground arith

-- On a side that shows given orders, a best level that is returned shows all that rests at its
-- price, and no order of the side has a better price.
pub best_lem :
    (s : BookSide) (os : Orders) (l : PriceLevel)
    → Represents s os
    → best s ≡ some l
    → (summary l.price os ≡ some l) × All (λ o. NoBetter s.side o.0 l.price) os
best_lem s os l r h =
    let (b, extreme) = best-Extreme s.side s.levels l r.sorted h in
    let shown : summary b os ≡ some l = sym (r.shows b) ∙ extreme.0 in
    let at : b ≡ l.price = sym (summary-price b os l shown) in
    (
      subst (λ x. summary x os ≡ some l) at shown,
      subst (λ x. All (λ o. NoBetter s.side o.0 x) os) at
          (none_better s.side b os (λ j n. summary-none j os (sym (r.shows j) ∙ extreme.1 j n))),
    )

best-ne-none :
    (side : Side) (k : ℕ) (l : PriceLevel) (ls : Levels)
    → best (record { side = side; levels = (k, l) ∷ ls }) ≢ none
unfolding best first_level last_level
best-ne-none buy k l ls = λ h. cc
best-ne-none sell k l ls = λ h. cc

levels-nil :
    (ls : Levels) (side : Side) → best (record { side = side; levels = ls }) ≡ none → ls ≡ []
levels-nil [] side h = refl
levels-nil ((k, l) ∷ ls) side h = absurd (best-ne-none side k l ls h)

best-nil :
    (ls : Levels) (side : Side)
    → ((p : ℕ) → find_level p ls ≡ none)
    → best (record { side = side; levels = ls }) ≡ none
unfolding best first_level last_level find_level
best-nil [] buy h = refl
best-nil [] sell h = refl
best-nil ((k, l) ∷ ls) side h = absurd (ground (arith, h k))

orders-nil : (os : Orders) → ((p : ℕ) → count p os ≡ 0) → os ≡ []
unfolding count
orders-nil [] h = refl
orders-nil ((k, q) ∷ os) h = absurd (ground (arith, h k))

-- On a side that shows given orders, no best level is returned exactly when there are no orders.
pub best-none_iff : (s : BookSide) (os : Orders) → Represents s os → (best s ≡ none) ↔ (os ≡ [])
unfolding find_level summary count
best-none_iff s os r = (
  λ h.
      let bare : s.levels ≡ [] = levels-nil s.levels s.side h in
      orders-nil os (λ p. summary-none p os (sym (r.shows p) ∙ ap (find_level p) bare)),
  λ h. best-nil s.levels s.side (λ p. r.shows p ∙ ap (summary p) h),
)
