-- ===== src/OrderStore.antt =====
-- common/market_data/normalized/OrderStore.h (and Order.h): the open-addressing table of active
-- orders, with linear probing and backward-shift deletion.
pub mod Probe
pub mod Weigh
pub mod Map
pub mod Place
pub mod Add
pub mod Shift
pub mod Loop
pub mod Remove
pub mod Update
use Prim.Native.Nat.{bit_xor}
use low_latency_trading.Base.{
  ℕ, zero, suc, ◌+◌, ◌-◌, ◌*◌, ◌/◌, ◌%◌, ◌^◌, Bool, true, false, Option, none, some, ltb, ◌==◌,
  if◌then◌else◌, u64, update,
}
use low_latency_trading.Book.Types.{Side, buy}
use low_latency_trading.Book.Sides.{LevelHandle}

pub record Order : Type 0 where
  pub order_id : ℕ
  pub instrument_id : ℕ
  pub timestamp : ℕ
  pub price : ℕ
  pub quantity : ℕ
  pub side : Side

pub record StoredOrder : Type 0 where
  pub order : Order
  pub level : LevelHandle

-- `state` is `SlotState::Occupied` or `SlotState::Empty`.
pub record Slot : Type 0 where
  pub value : StoredOrder
  pub occupied : Bool

abbrev pub Slots : Type 0
Slots = ℕ → Slot

pub record OrderStore : Type 0 where
  pub slots : Slots
  pub size : ℕ
  pub peak_size : ℕ

-- `1ULL << 22`; `& Mask` is the remainder by it.
abbrev pub capacity : ℕ
capacity = 4194304

abbrev pub empty_slot : Slot
empty_slot = record {
  value = record {
    order = record {
      order_id = 0;
      instrument_id = 0;
      timestamp = 0;
      price = 0;
      quantity = 0;
      side = buy;
    };
    level = 0;
  };
  occupied = false;
}

abbrev pub empty_store : OrderStore
empty_store = record { slots = λ i. empty_slot; size = 0; peak_size = 0 }

unfoldable pub hash : ℕ → ℕ
hash order_id =
    let x = bit_xor order_id (order_id / 2 ^ 30) in
    let x' = u64 (x * 0xbf58476d1ce4e5b9) in
    let y = bit_xor x' (x' / 2 ^ 27) in
    let y' = u64 (y * 0x94d049bb133111eb) in bit_xor y' (y' / 2 ^ 31) % capacity

-- `(index + 1) & Mask`.
abbrev pub next : ℕ → ℕ
next i = (i + 1) % capacity

-- `(to - from) & Mask`, in `std::size_t`.
unfoldable pub distance : ℕ → ℕ → ℕ
distance from to = u64 (to + 2 ^ 64 - from) % capacity

abbrev pub id_at : Slots → ℕ → ℕ
id_at t i = (t i).value.order.order_id

-- The loop of `findIndex`, with the probes that are left; `none` is `InvalidIterator`.
unfoldable pub probe : ℕ → Slots → ℕ → ℕ → Option ℕ
probe zero t id i = none
probe (suc n) t id i = elim (t i).occupied [
  | false ↦ none
  | true ↦ elim (id_at t i == id) [ true ↦ some i | false ↦ probe n t id (next i) ]
]

-- `findIndex` and `findIterator`.
unfoldable pub find_index : OrderStore → ℕ → Option ℕ
find_index s id = probe capacity s.slots id (hash id)

-- `stored(iterator)`.
abbrev pub stored : OrderStore → ℕ → StoredOrder
stored s i = (s.slots i).value

-- `find`; `none` is the null pointer.
unfoldable pub find : OrderStore → ℕ → Option Order
find s id = elim (find_index s id) [ none ↦ none | some i ↦ some (stored s i).order ]

unfoldable pub contains : OrderStore → ℕ → Bool
contains s id = elim (find_index s id) [ none ↦ false | some i ↦ true ]

-- The loop of `add`: the empty slot to fill, or `none` where it returns false.
unfoldable pub place : ℕ → Slots → ℕ → ℕ → Option ℕ
place zero t id i = none
place (suc n) t id i = elim (t i).occupied [
  | false ↦ some i
  | true ↦ elim (id_at t i == id) [ true ↦ none | false ↦ place n t id (next i) ]
]

abbrev pub fill : Slots → ℕ → StoredOrder → Slots
fill t i v = update t i (record { value = v; occupied = true })

abbrev pub clear : Slots → ℕ → Slots
clear t i = update t i (record { value = (t i).value; occupied = false })

unfoldable pub add : OrderStore → Order → LevelHandle → Bool × OrderStore
add s o l = elim (place capacity s.slots o.order_id (hash o.order_id)) [
  | none ↦ (false, s)
  | some i ↦
      let size = u64 (s.size + 1) in
      (
        true,
        record {
          slots = fill s.slots i (record { order = o; level = l });
          size = size;
          peak_size = if ltb s.peak_size size then size else s.peak_size;
        },
      )
]

-- The `while` loop of `removeAt`, with fuel: `none` means that the fuel ran out. An entry moves
-- back into the hole if the hole is nearer to its home slot; the hole is cleared at the end.
unfoldable pub shift : ℕ → Slots → ℕ → ℕ → Option Slots
shift zero t hole current = none
shift (suc n) t hole current = elim (t current).occupied [
  | false ↦ some (clear t hole)
  | true ↦
      let home = hash (id_at t current) in
      elim (ltb (distance home hole) (distance home current)) [
        | true ↦ shift n (fill t hole (t current).value) current (next current)
        | false ↦ shift n t hole (next current)
      ]
]

-- `removeAt(iterator)`; `none` means that the loop does not end (`Remove` says when).
unfoldable pub remove_at : OrderStore → ℕ → Option OrderStore
remove_at s i = elim (shift capacity s.slots i (next i)) [
  | none ↦ none
  | some t ↦ some (record s { slots = t; size = u64 (s.size + 2 ^ 64 - 1) })
]

-- `remove(orderId)`.
unfoldable pub remove : OrderStore → ℕ → Option (Bool × OrderStore)
remove s id = elim (find_index s id) [
  | none ↦ some (false, s)
  | some i ↦ elim (remove_at s i) [ none ↦ none | some s' ↦ some (true, s') ]
]

-- Writing `quantity` through the reference to the order in a slot.
abbrev pub with_quantity : StoredOrder → ℕ → StoredOrder
with_quantity v q = record v { order = record (v.order) { quantity = q } }

unfoldable pub set_quantity : OrderStore → ℕ → ℕ → OrderStore
set_quantity s i q = record s {
  slots =
      update s.slots i
        (record { value = with_quantity (stored s i) q; occupied = (s.slots i).occupied });
}
