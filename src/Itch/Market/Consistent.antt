-- ===== src/Itch/Market/Consistent.antt =====
-- The invariant of itch/ItchMarketState.h that joins its books to its order store.
use mathlib.Core.Path.{ap, fun_ext}
use low_latency_trading.Base.{ℕ, ◌≡◌, refl, true, false, ◌&&◌, arith, ◌==◌, if◌then◌else◌}
use low_latency_trading.Book.Types.{Side, buy, sell}
use low_latency_trading.Book.Levels.{Ascending, find_level}
use low_latency_trading.Book.Sides.{BookSide}
use low_latency_trading.Book.Bbo.{OrderBook, side_of, with_side}
use low_latency_trading.Book.Store.{BookStore, put}
use low_latency_trading.Book.Quote.{Sided}
use low_latency_trading.OrderStore.{OrderStore}
use low_latency_trading.OrderStore.Weigh.{weigh}
use low_latency_trading.OrderStore.Map.{IsValid}
use low_latency_trading.Itch.Market.Weights.{same_side, qty_at, count_at, unsound, level_of}

-- The order table is well formed, the levels of every side ascend, every stored order is sound,
-- and the level at each price of each side of each book shows exactly the stored orders that
-- rest there.
pub record Consistent (b : BookStore) (o : OrderStore) : Type 0 where
  pub valid : IsValid o
  pub sided : (i : ℕ) → Sided (b.books i)
  pub sorted : (i : ℕ) (d : Side) → Ascending (side_of (b.books i) d).levels
  pub sound : weigh (unsound b.present) o ≡ 0
  pub shows :
      (i : ℕ) (d : Side) (p : ℕ)
      → find_level p (side_of (b.books i) d).levels
        ≡ level_of p (weigh (qty_at i d p) o) (weigh (count_at i d p) o)

-- Writing one side of one book.
abbrev pub with_level_side : BookStore → ℕ → Side → BookSide → BookStore
with_level_side b i d s = put b i (with_side (b.books i) d s)

side_of-with_level_side :
    (b : BookStore) (i : ℕ) (d : Side) (s : BookSide) (j : ℕ) (e : Side)
    → side_of ((with_level_side b i d s).books j) e
      ≡ (if (i == j) && same_side d e then s else side_of (b.books j) e)
side_of-with_level_side b i buy s j buy = ground arith
side_of-with_level_side b i buy s j sell = ground arith
side_of-with_level_side b i sell s j buy = ground arith
side_of-with_level_side b i sell s j sell = ground arith

with_level_side-Sided :
    (b : BookStore) (i : ℕ) (d : Side) (s : BookSide)
    → ((j : ℕ) → Sided (b.books j))
    → s.side ≡ (side_of (b.books i) d).side
    → (j : ℕ) → Sided ((with_level_side b i d s).books j)
with_level_side-Sided b i buy s sided same j = ground (arith, sided i, sided j)
with_level_side-Sided b i sell s sided same j = ground (arith, sided i, sided j)

same_side-eq : (d e : Side) → same_side d e ≡ true → d ≡ e
same_side-eq buy buy h = refl
same_side-eq sell sell h = refl
same_side-eq buy sell h = cc
same_side-eq sell buy h = cc

-- One level of one side and the orders that rest there change together.
pub level-Consistent :
    (b : BookStore) (o u : OrderStore) (i : ℕ) (d : Side) (p : ℕ) (s : BookSide)
    → Consistent b o
    → IsValid u
    → weigh (unsound b.present) u ≡ 0
    → s.side ≡ (side_of (b.books i) d).side
    → Ascending s.levels
    → ((j : ℕ)
        → find_level j s.levels ≡ (
            if p == j
            then level_of p (weigh (qty_at i d p) u) (weigh (count_at i d p) u)
            else find_level j (side_of (b.books i) d).levels))
    → ((j : ℕ) (e : Side) (q : ℕ)
        → ((i == j) && same_side d e && (p == q)) ≡ false
        → (weigh (qty_at j e q) u ≡ weigh (qty_at j e q) o)
          × (weigh (count_at j e q) u ≡ weigh (count_at j e q) o))
    → Consistent (with_level_side b i d s) u
level-Consistent b o u i d p s c valid sound same ascends here others = record {
  valid = valid;
  sided = with_level_side-Sided b i d s c.sided same;
  sorted = λ j e. ground (arith, side_of-with_level_side b i d s j e, c.sorted j e, ascends);
  sound = sound;
  shows = λ j e q. ground (
    arith,
    side_of-with_level_side b i d s j e,
    here q,
    c.shows j e q,
    others j e q,
    same_side-eq d e,
  );
}

with_side_twice :
    (b : OrderBook) (d : Side) (s t : BookSide) → with_side (with_side b d s) d t ≡ with_side b d t
with_side_twice b buy s t = refl
with_side_twice b sell s t = refl

-- The later of two writes of a side counts.
pub with_level_side_twice :
    (b : BookStore) (i : ℕ) (d : Side) (s t : BookSide)
    → with_level_side (with_level_side b i d s) i d t ≡ with_level_side b i d t
with_level_side_twice b i d s t =
    ap (λ (f : ℕ → OrderBook). record b { books = f })
      (fun_ext λ j. ground (arith, with_side_twice (b.books i) d s t))

pub side_of-with_level_side_self :
    (b : BookStore) (i : ℕ) (d : Side) (s : BookSide)
    → side_of ((with_level_side b i d s).books i) d ≡ s
side_of-with_level_side_self b i buy s = ground arith
side_of-with_level_side_self b i sell s = ground arith
