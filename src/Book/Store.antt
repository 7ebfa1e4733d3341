-- ===== src/Book/Store.antt =====
-- common/market_data/book/BookStore.h: the books of all instruments, by their 16-bit identifier.
-- A reference to a book is the book and its place; the caller writes back by `put`.
use low_latency_trading.Base.{
  ℕ, zero, suc, ◌+◌, ◌<◌, ◌≡◌, refl, Bool, true, false, Option, none, some, List, [], ◌∷◌, ◌++◌,
  arith, ◌==◌, if◌then◌else◌, u64, length, sym, ◌∙◌, length-append, update, count_set,
  count_set-update,
}
use low_latency_trading.Book.Bbo.{OrderBook, empty_book}

abbrev pub capacity : ℕ
capacity = 65536

pub record BookStore : Type 0 where
  pub books : ℕ → OrderBook
  pub present : ℕ → Bool
  pub size : ℕ

abbrev pub empty_store : BookStore
empty_store = record { books = λ i. empty_book; present = λ i. false; size = 0 }

-- `getOrCreate`; the book is then `books i`.
unfoldable pub get_or_create : BookStore → ℕ → BookStore
get_or_create s i =
    if s.present i
    then s
    else record s { present = update s.present i true; size = u64 (s.size + 1) }

unfoldable pub find : BookStore → ℕ → Option OrderBook
find s i = if s.present i then some (s.books i) else none

abbrev pub put : BookStore → ℕ → OrderBook → BookStore
put s i b = record s { books = update s.books i b }

unfoldable pub contains : BookStore → ℕ → Bool
contains s i = s.present i

-- The calls that `forEach` makes, in order, for the indices below `n`.
visits : BookStore → ℕ → List (ℕ × OrderBook)
visits s zero = []
visits s (suc n) =
    let before = visits s n in if s.present n then before ++ (n, s.books n) ∷ [] else before

unfoldable pub for_each : BookStore → List (ℕ × OrderBook)
unfolding visits
for_each s = visits s capacity

abbrev pub SizeIsCount : BookStore → Type 0
SizeIsCount s = s.size ≡ count_set capacity s.present

-- While `size_` counts the books that are present and is below the capacity, `getOrCreate` of an
-- identifier in range keeps the count right, makes its own book present, and leaves what `find`
-- returns for every other identifier.
pub get_or_create_lem :
    (s : BookStore) (i j : ℕ)
    → i < capacity
    → s.size < capacity
    → SizeIsCount s
    → SizeIsCount (get_or_create s i)
      × (find (get_or_create s i) j ≡ (if i == j then some (s.books i) else find s j))
unfolding get_or_create find
get_or_create_lem s i j h b c =
    (ground (arith, count_set-update capacity s.present i h), ground arith)

length-visits : (s : BookStore) (n : ℕ) → length (visits s n) ≡ count_set n s.present
unfolding visits count_set
length-visits s zero = refl
length-visits s (suc n) =
    ground (arith, length-visits s n, length-append (visits s n) ((n, s.books n) ∷ []))

-- While `size_` counts the books that are present, `forEach` visits as many books as `size()`
-- returns.
pub length-for_each : (s : BookStore) → SizeIsCount s → length (for_each s) ≡ s.size
unfolding for_each
length-for_each s c = length-visits s capacity ∙ sym c

-- Creating a book leaves all books as they are, and makes its own present.
pub books-get_or_create : (s : BookStore) (i j : ℕ) → (get_or_create s i).books j ≡ s.books j
unfolding get_or_create
books-get_or_create s i j = ground arith

pub present-get_or_create : (s : BookStore) (i : ℕ) → (get_or_create s i).present i ≡ true
unfolding get_or_create
present-get_or_create s i = ground arith
