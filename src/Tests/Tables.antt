-- ===== src/Tests/Tables.antt =====
-- The order table and the instrument table at small inputs.
use low_latency_trading.Base.{
  inr, ◌<◌, ◌≡◌, ◌↔◌, refl, sym, true, false, not, none, some, [], ◌∷◌, arith, ◌==◌, if◌then◌else◌,
  count_set-none,
}
use low_latency_trading.Book.Types.{buy, TradingState, RegShoState}
use low_latency_trading.Instruments
use low_latency_trading.OrderStore
use low_latency_trading.OrderStore.{
  Order, OrderStore, StoredOrder, capacity, empty_store, hash, place, probe, find_index, id_at,
  remove_at, set_quantity, with_quantity, distance, shift,
}
use low_latency_trading.OrderStore.Map.{IsValid}
use low_latency_trading.OrderStore.Probe.{find_index-some_iff}
use low_latency_trading.OrderStore.Add.{Added, add_lem, add-refused}
use low_latency_trading.OrderStore.Remove.{Removed, remove_at_lem, remove_at-full}
use low_latency_trading.OrderStore.Update.{Replaced, set_quantity_lem}
use low_latency_trading.Itch.Market.Initial.{empty_store-IsValid}

abbrev bid : Order
bid = record {
  order_id = 7;
  instrument_id = 1;
  timestamp = 5;
  price = 100;
  quantity = 30;
  side = buy;
}

abbrev one_order : OrderStore
one_order = (OrderStore.add empty_store bid 100).1

nothing_found : find_index empty_store 7 ≡ none
unfolding find_index probe hash
nothing_found = refl

found : find_index one_order 7 ≡ some (hash 7)
unfolding find_index probe hash OrderStore.add place
found = refl

occupied : (one_order.slots (hash 7)).occupied ≡ true
unfolding hash OrderStore.add place
occupied = refl

size : one_order.size ≡ 1
unfolding hash OrderStore.add place
size = refl

below : hash 7 < capacity
unfolding hash
below = omega arith

valid : IsValid one_order
valid = (add_lem empty_store bid 100 empty_store-IsValid nothing_found (omega arith)).1.valid

abbrev full_store : OrderStore
full_store = record {
  slots = λ i. record { value = record { order = bid; level = 100 }; occupied = true };
  size = capacity;
  peak_size = capacity;
}

add_lem_example :
    ((OrderStore.add empty_store bid 100).0 ≡ true)
    × Added empty_store (record { order = bid; level = 100 }) one_order
add_lem_example = add_lem empty_store bid 100 empty_store-IsValid nothing_found (omega arith)

add-refused_example : OrderStore.add full_store bid 100 ≡ (false, full_store)
add-refused_example = add-refused full_store bid 100 (inr (λ i h. refl))

find_index-some_iff_example :
    (find_index one_order 7 ≡ some (hash 7))
    ↔ (((one_order.slots (hash 7)).occupied ≡ true) × (id_at one_order.slots (hash 7) ≡ 7))
find_index-some_iff_example = find_index-some_iff one_order 7 (hash 7) valid.table below

remove_at_lem_example :
    (u : OrderStore) × (remove_at one_order (hash 7) ≡ some u)
    × Removed one_order (one_order.slots (hash 7)).value u
remove_at_lem_example = remove_at_lem one_order (hash 7) valid (omega (arith, size)) below occupied

remove_at-full_example : remove_at full_store 3 ≡ none
remove_at-full_example = remove_at-full full_store 3 (λ j h. refl)

set_quantity_lem_example :
    Replaced one_order
      (one_order.slots (hash 7)).value
      (with_quantity (one_order.slots (hash 7)).value 12)
      (set_quantity one_order (hash 7) 12)
set_quantity_lem_example = set_quantity_lem one_order (hash 7) 12 valid below occupied

abbrev apple : Instruments.Instrument
apple = record {
  id = 3;
  symbol = 65 ∷ 65 ∷ 80 ∷ 76 ∷ 32 ∷ 32 ∷ 32 ∷ 32 ∷ [];
  trading_state = TradingState.trading;
  reg_sho_state = RegShoState.unknown;
}

apple_view : Instruments.symbol_view apple.symbol ≡ 65 ∷ 65 ∷ 80 ∷ 76 ∷ []
unfolding Instruments.symbol_view
apple_view = refl

no_instruments : Instruments.SizeIsCount Instruments.empty_store
no_instruments = sym (count_set-none Instruments.capacity)

find-add_example :
    let s = Instruments.empty_store in
    Instruments.SizeIsCount (Instruments.add s apple).1
    × ((Instruments.add s apple).0 ≡ not (Instruments.contains s 3))
    × (Instruments.find (Instruments.add s apple).1 3 ≡ (
        if Instruments.contains s 3
        then Instruments.find s 3
        else if 3 == 3
        then some apple
        else Instruments.find s 3))
find-add_example =
    Instruments.find-add Instruments.empty_store apple 3 (omega arith) (omega arith) no_instruments
