-- ===== src/Instruments.antt =====
-- common/market_data/normalized/Instrument.h and InstrumentStore.h: the instruments by their
-- 16-bit identifier.
use mathlib.Core.List.{reverse}
use low_latency_trading.Base.{
  ℕ, ◌+◌, ◌<◌, ◌≡◌, Bool, true, false, Option, none, some, List, [], ◌∷◌, arith, ◌==◌,
  if◌then◌else◌, not, u64, update, count_set, count_set-update,
}
use low_latency_trading.Book.Types.{TradingState, RegShoState}

pub record Instrument : Type 0 where
  pub id : ℕ
  pub symbol : List ℕ
  pub trading_state : TradingState
  pub reg_sho_state : RegShoState

-- The loop of `symbolView()` and of the other views: `length` goes down while the last character
-- kept is a space. The list is reversed, so that character is its head.
trim_end : List ℕ → List ℕ
trim_end [] = []
trim_end (c ∷ cs) = let rest = trim_end cs in if c == b' ' then rest else c ∷ cs

unfoldable pub symbol_view : List ℕ → List ℕ
unfolding trim_end
symbol_view cs = reverse (trim_end (reverse cs))

abbrev pub capacity : ℕ
capacity = 65536

pub record InstrumentStore : Type 0 where
  pub instruments : ℕ → Instrument
  pub present : ℕ → Bool
  pub size : ℕ

abbrev no_instrument : Instrument
no_instrument = record {
  id = 0;
  symbol = 0 ∷ 0 ∷ 0 ∷ 0 ∷ 0 ∷ 0 ∷ 0 ∷ 0 ∷ [];
  trading_state = TradingState.unknown;
  reg_sho_state = RegShoState.unknown;
}

abbrev pub empty_store : InstrumentStore
empty_store = record { instruments = λ i. no_instrument; present = λ i. false; size = 0 }

-- `add`: an instrument that is there stays.
unfoldable pub add : InstrumentStore → Instrument → Bool × InstrumentStore
add s v = if s.present v.id then (false, s) else (
  true,
  record {
    instruments = update s.instruments v.id v;
    present = update s.present v.id true;
    size = u64 (s.size + 1);
  },
)

-- `find`; `none` is the null pointer. `put` writes through the pointer.
unfoldable pub find : InstrumentStore → ℕ → Option Instrument
find s i = if s.present i then some (s.instruments i) else none

abbrev pub put : InstrumentStore → ℕ → Instrument → InstrumentStore
put s i v = record s { instruments = update s.instruments i v }

unfoldable pub contains : InstrumentStore → ℕ → Bool
contains s i = s.present i

abbrev pub SizeIsCount : InstrumentStore → Type 0
SizeIsCount s = s.size ≡ count_set capacity s.present

-- While `size_` counts the instruments that are present and is below the capacity, `add` of an
-- instrument with an identifier in range keeps the count right, succeeds exactly for a new
-- identifier, and makes `find` return the new instrument for it; for a known identifier, and for
-- every other identifier, `find` returns what it returned before.
pub find-add :
    (s : InstrumentStore) (v : Instrument) (j : ℕ)
    → v.id < capacity
    → s.size < capacity
    → SizeIsCount s
    → SizeIsCount (add s v).1
      × ((add s v).0 ≡ not (contains s v.id))
      × (find (add s v).1 j
          ≡ (if contains s v.id then find s j else if v.id == j then some v else find s j))
unfolding add find contains
find-add s v j h b c =
    (ground (arith, count_set-update capacity s.present v.id h), ground arith, ground arith)
