-- ===== src/OrderStore/Map.antt =====
-- The table of normalized/OrderStore.h seen as a map from identifiers to stored orders.
use low_latency_trading.Base.{
  ℕ, ◌≤◌, ◌<◌, ◌≡◌, sym, ap, ◌∙◌, true, Option, none, some, arith, Option-cases, inl, inr,
}
use low_latency_trading.OrderStore.{StoredOrder, Slots, OrderStore, capacity, stored, find_index}
use low_latency_trading.OrderStore.Probe.{IsTable, find_index-some_iff, find_index-lt}
use low_latency_trading.OrderStore.Weigh.{weigh, one}

-- What `stored(findIterator(id))` reads, where the iterator is valid.
unfoldable pub get : OrderStore → ℕ → Option StoredOrder
get s id = elim (find_index s id) [ none ↦ none | some i ↦ some (stored s i) ]

-- Some slot holds `v`, and `v` has the identifier.
abbrev pub Holds : Slots → ℕ → StoredOrder → Type 0
Holds t id v =
    (r : ℕ) × (r < capacity) × ((t r).occupied ≡ true) × ((t r).value ≡ v) × (v.order.order_id ≡ id)

-- The table is well formed, `size_` counts its entries, and `peakSize_` is no smaller.
pub record IsValid (s : OrderStore) : Type 0 where
  pub table : IsTable s.slots
  pub counted : s.size ≡ weigh one s
  pub peak : s.size ≤ s.peak_size

pub Holds-get :
    (s : OrderStore) (id : ℕ) (v : StoredOrder)
    → IsTable s.slots
    → Holds s.slots id v
    → get s id ≡ some v
unfolding get
Holds-get s id v h (r, below, full, its, same) =
    let at : find_index s id ≡ some r =
      (find_index-some_iff s id r h below).1
        (full, ap (λ (x : StoredOrder). x.order.order_id) its ∙ same) in
    ground (arith, at, its)

pub get-Holds : (s : OrderStore) (id : ℕ) (v : StoredOrder) → get s id ≡ some v → Holds s.slots id v
unfolding get
get-Holds s id v e = elim (Option-cases (find_index s id)) [
  | inl missing ↦ ground (arith, missing)
  | inr (r, at) ↦
      let (below, full, same) = find_index-lt s id at in
      let its : stored s r ≡ v = ground (arith, at) in
      (r, below, full, its, ap (λ (x : StoredOrder). x.order.order_id) (sym its) ∙ same)
]

-- Two tables that hold the same entries with an identifier agree on it.
pub get_eq :
    (s u : OrderStore) (id : ℕ)
    → IsTable s.slots
    → IsTable u.slots
    → ((v : StoredOrder) → Holds s.slots id v → Holds u.slots id v)
    → ((v : StoredOrder) → Holds u.slots id v → Holds s.slots id v)
    → get u id ≡ get s id
get_eq s u id h k to back = elim (Option-cases (get u id)) [
  | inr (v, e) ↦ e ∙ sym (Holds-get s id v h (back v (get-Holds u id v e)))
  | inl e ↦ elim (Option-cases (get s id)) [
    | inl n ↦ e ∙ sym n
    | inr (v, n) ↦ Holds-get u id v k (to v (get-Holds s id v n)) ∙ sym n
  ]
]

pub get-none :
    (s : OrderStore) (id : ℕ) → ((v : StoredOrder) → ¬ Holds s.slots id v) → get s id ≡ none
get-none s id h = elim (Option-cases (get s id)) [
  | inl e ↦ e
  | inr (v, e) ↦ absurd (h v (get-Holds s id v e))
]

pub get-find_index-none : (s : OrderStore) (id : ℕ) → get s id ≡ none → find_index s id ≡ none
unfolding get
get-find_index-none s id h = ground arith
