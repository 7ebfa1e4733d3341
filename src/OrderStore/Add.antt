-- ===== src/OrderStore/Add.antt =====
-- `add` of normalized/OrderStore.h.
use mathlib.Core.Path.{subst}
use native.Mathlib.Decide.{ℕ_discrete}
use low_latency_trading.Base.{
  ℕ, ◌+◌, ◌≤◌, ◌<◌, ◌≡◌, ◌⊎◌, ◌≢◌, refl, sym, ap, true, false, none, some, arith, ◌==◌,
  if◌then◌else◌, u64, ltb, Option-cases, inl, inr,
}
use low_latency_trading.OrderStore.{
  Order, StoredOrder, OrderStore, capacity, hash, find_index, place, fill, add,
}
use low_latency_trading.OrderStore.Probe.{IsTable, hash-lt, distance_lt, distance_self}
use low_latency_trading.OrderStore.Weigh.{
  Weight, slot_weight, weigh, weigh_below-update, one, empty_of_weigh_below-one,
}
use low_latency_trading.OrderStore.Map.{get, IsValid, Holds-get, get_eq}
use low_latency_trading.OrderStore.Place.{
  Full, place_sound, probe-place, place_total, fill-IsTable, fresh_of,
}

-- `u` is `s` with one more entry, `v`.
pub record Added (s : OrderStore) (v : StoredOrder) (u : OrderStore) : Type 0 where
  pub valid : IsValid u
  pub weighs : (w : Weight) → weigh w u ≡ weigh w s + w v
  pub gets : (id : ℕ) → get u id ≡ (if v.order.order_id == id then some v else get s id)

abbrev filled : OrderStore → ℕ → StoredOrder → ℕ → ℕ → OrderStore
filled s e v size peak = record { slots = fill s.slots e v; size = size; peak_size = peak }

module _ (s : OrderStore) (e : ℕ) (v : StoredOrder) (size peak : ℕ) (valid : IsValid s)
    (below : e < capacity) (empty : (s.slots e).occupied ≡ false)
    (full : Full s.slots (hash v.order.order_id) (hash v.order.order_id) e)
    (missing : find_index s v.order.order_id ≡ none) where
  filled-IsTable : IsTable (fill s.slots e v)
  filled-IsTable =
      fill-IsTable s.slots e v valid.table below empty full
        (fresh_of s v.order.order_id valid.table missing)

  weigh-filled : (w : Weight) → weigh w (filled s e v size peak) ≡ weigh w s + w v
  unfolding weigh slot_weight
  weigh-filled w = ground (
    arith,
    empty,
    weigh_below-update capacity w s.slots e (record { value = v; occupied = true }) below,
  )

  get-filled_self : get (filled s e v size peak) v.order.order_id ≡ some v
  get-filled_self =
      Holds-get (filled s e v size peak) v.order.order_id v filled-IsTable
        (e, below, ground arith, ground arith, refl)

  get-filled_ne : (id : ℕ) → v.order.order_id ≢ id → get (filled s e v size peak) id ≡ get s id
  get-filled_ne id ne =
      get_eq s (filled s e v size peak) id valid.table filled-IsTable
        (λ x (r, h, o, its, same). (r, h, ground (arith, o), ground (arith, o, empty, its), same))
        (λ x (r, h, o, its, same).
          let other : e ≢ r = λ q. ground (arith, ne, same, its, q) in
          (r, h, ground (arith, o, other), ground (arith, its, other), same))

  filled-Added : size ≡ s.size + 1 → size ≤ peak → Added s v (filled s e v size peak)
  filled-Added grown high = record {
    valid = record {
      table = filled-IsTable;
      counted = omega (arith, weigh-filled one, valid.counted);
      peak = high;
    };
    weighs = weigh-filled;
    gets = λ id. elim (ℕ_discrete v.order.order_id id) [
      | yes same ↦ ground (arith, same, ap (get (filled s e v size peak)) same, get-filled_self)
      | no ne ↦ ground (arith, ne, get-filled_ne id ne)
    ];
  }

add-found :
    (s : OrderStore) (o : Order) (l : ℕ) {r : ℕ}
    → find_index s o.order_id ≡ some r
    → add s o l ≡ (false, s)
unfolding add find_index
add-found s o l found =
    ground (arith, probe-place capacity s.slots o.order_id (hash o.order_id) found)

add-full :
    (s : OrderStore) (o : Order) (l : ℕ)
    → ((i : ℕ) → i < capacity → (s.slots i).occupied ≡ true)
    → add s o l ≡ (false, s)
unfolding add
add-full s o l full = elim (Option-cases (place capacity s.slots o.order_id (hash o.order_id))) [
  | inl none' ↦ ground (arith, none')
  | inr (e, p) ↦
      let (below, empty, _) =
        place_sound capacity s.slots o.order_id (hash o.order_id) e (hash-lt o.order_id)
          (omega (arith, distance_self (hash o.order_id) (hash-lt o.order_id))) p in
      absurd (ground (arith, empty, full e below))
]

-- `add` of an order whose identifier `findIndex` finds, or into a table with every slot occupied,
-- fails and changes nothing.
pub add-refused :
    (s : OrderStore) (o : Order) (l : ℕ)
    → ((r : ℕ) × (find_index s o.order_id ≡ some r))
      ⊎ ((i : ℕ) → i < capacity → (s.slots i).occupied ≡ true)
    → add s o l ≡ (false, s)
add-refused s o l (inl (r, found)) = add-found s o l found
add-refused s o l (inr full) = add-full s o l full

-- In a valid store that is not full, `add` of an order whose identifier is not found succeeds: the
-- result is a valid store with that entry more, its identifier finds it, and every other
-- identifier finds what it found before.
pub add_lem :
    (s : OrderStore) (o : Order) (l : ℕ)
    → IsValid s
    → find_index s o.order_id ≡ none
    → s.size < capacity
    → ((add s o l).0 ≡ true) × Added s (record { order = o; level = l }) (add s o l).1
unfolding add weigh find_index
add_lem s o l valid missing room =
    let v : StoredOrder = record { order = o; level = l } in
    let start = distance_self (hash o.order_id) (hash-lt o.order_id) in
    let (gap, gap-lt, gap-empty) =
      empty_of_weigh_below-one capacity s.slots (omega (arith, valid.counted)) in
    let (e, p) =
      place_total capacity s.slots o.order_id (hash o.order_id) gap (hash-lt o.order_id) gap-lt
        gap-empty (omega (arith, start))
        (omega (arith, start, distance_lt (hash o.order_id) gap (hash-lt o.order_id) gap-lt))
        missing in
    let (below, empty, full) =
      place_sound capacity s.slots o.order_id (hash o.order_id) e (hash-lt o.order_id)
        (omega (arith, start)) p in
    let size = u64 (s.size + 1) in
    let peak : ℕ = if ltb s.peak_size size then size else s.peak_size in
    let result : add s o l ≡ (true, filled s e v size peak) = ground (arith, p) in
    subst (λ r. (r.0 ≡ true) × Added s v r.1) (sym result)
      (
        refl,
        filled-Added s e v size peak valid below empty full missing (omega arith) (ground arith),
      )
