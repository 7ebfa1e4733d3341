-- ===== src/OrderStore/Place.antt =====
-- The search of `add` in normalized/OrderStore.h for a free slot.
use mathlib.Core.Path.{subst}
use native.Mathlib.Decide.{ℕ_discrete}
use low_latency_trading.Base.{
  ℕ, zero, suc, ◌+◌, ◌≤◌, ◌<◌, ◌≡◌, ◌≢◌, refl, true, false, none, some, arith, ◌==◌, Bool-cases,
  inl, inr,
}
use low_latency_trading.OrderStore.{
  StoredOrder, Slots, OrderStore, capacity, hash, next, distance, id_at, probe, find_index, place,
  fill,
}
use low_latency_trading.OrderStore.Probe.{
  IsTable, hash-lt, distance_lem, distance_inj, distance_self, distance-next, find_index-some_iff,
}

-- Every slot from `i` up to `e`, as seen from `a`, is occupied.
abbrev pub Full : Slots → ℕ → ℕ → ℕ → Type 0
Full t a i e =
    (j : ℕ)
    → j < capacity
    → distance a i ≤ distance a j
    → distance a j < distance a e
    → (t j).occupied ≡ true

step_on :
    (a i : ℕ)
    → a < capacity
    → i < capacity
    → distance a i + 1 < capacity
    → distance a (next i) ≡ distance a i + 1
step_on a i h k l = omega (arith, distance_lem a i h k, distance_lem a (next i) h (omega arith))

place-some : (n : ℕ) (t : Slots) (id i : ℕ) {e : ℕ} → place n t id i ≡ some e → 0 < n
unfolding place
place-some zero t id i p = cc
place-some (suc n) t id i p = omega arith

-- The slot that `add` fills is empty, and the probe came to it over occupied slots.
pub place_sound :
    (n : ℕ) (t : Slots) (id i e : ℕ)
    → i < capacity
    → distance (hash id) i + n ≤ capacity
    → place n t id i ≡ some e
    → (e < capacity) × ((t e).occupied ≡ false) × Full t (hash id) i e
unfolding place
place_sound zero t id i e h room p = cc
place_sound (suc n) t id i e h room p = elim (Bool-cases (t i).occupied) [
  | inr empty ↦
      let same : i ≡ e = ground (arith, empty) in
      (
        ground (arith, same),
        subst (λ x. (t x).occupied ≡ false) same empty,
        λ j k low high. absurd (ground (arith, same)),
      )
  | inl full ↦
      let on : place n t id (next i) ≡ some e = ground (arith, full) in
      let room' : distance (hash id) i + 1 < capacity =
        omega (arith, place-some n t id (next i) on) in
      let ahead = step_on (hash id) i (hash-lt id) h room' in
      let (below, empty, rest) =
        place_sound n t id (next i) e (omega arith) (omega (arith, ahead)) on in
      (
        below,
        empty,
        λ j k low high. elim (ℕ_discrete i j) [
          | yes same ↦ subst (λ x. (t x).occupied ≡ true) same full
          | no other ↦
              rest j k (grind (arith, ahead, distance_inj (hash id) i j (hash-lt id) h k)) high
        ],
      )
]

place-probe :
    (n : ℕ) (t : Slots) (id i : ℕ) {e : ℕ} → place n t id i ≡ some e → probe n t id i ≡ none
unfolding place probe
place-probe zero t id i p = refl
place-probe (suc n) t id i {e} p = ground (arith, place-probe n t id (next i) {e = e})

pub probe-place :
    (n : ℕ) (t : Slots) (id i : ℕ) {r : ℕ} → probe n t id i ≡ some r → place n t id i ≡ none
unfolding place probe
probe-place zero t id i p = refl
probe-place (suc n) t id i {r} p = ground (arith, probe-place n t id (next i) {r = r})

-- An empty slot ahead is reached, or one before it.
pub place_total :
    (n : ℕ) (t : Slots) (id i e : ℕ)
    → i < capacity
    → e < capacity
    → (t e).occupied ≡ false
    → distance (hash id) i ≤ distance (hash id) e
    → distance (hash id) e < distance (hash id) i + n
    → probe n t id i ≡ none
    → (r : ℕ) × (place n t id i ≡ some r)
unfolding place probe
place_total zero t id i e h k o near fuel p = absurd (omega arith)
place_total (suc n) t id i e h k o near fuel p = elim (Bool-cases (t i).occupied) [
  | inr empty ↦ (i, ground (arith, empty))
  | inl full ↦
      let on : probe n t id (next i) ≡ none = ground (arith, full) in
      let miss : (id_at t i == id) ≡ false = ground (arith, full) in
      let ahead : distance (hash id) i < distance (hash id) e =
        grind (arith, distance_inj (hash id) i e (hash-lt id) h k, full, o) in
      let step = distance-next (hash id) i e (hash-lt id) h k ahead in
      let (r, found) =
        place_total n t id (next i) e (omega arith) k o (omega (arith, step)) (omega (arith, step))
          on in
      (r, ground (arith, full, miss, found))
]

-- Filling the slot where a probe for a new identifier ended keeps the table well formed.
pub fill-IsTable :
    (t : Slots) (e : ℕ) (v : StoredOrder)
    → IsTable t
    → e < capacity
    → (t e).occupied ≡ false
    → Full t (hash v.order.order_id) (hash v.order.order_id) e
    → ((r : ℕ) → r < capacity → (t r).occupied ≡ true → id_at t r ≢ v.order.order_id)
    → IsTable (fill t e v)
fill-IsTable t e v table below empty full fresh = record {
  path = λ i j h k o near. ground (
    arith,
    h,
    k,
    o,
    near,
    table.path i j h k,
    full j k,
    distance_self (hash v.order.order_id) (hash-lt v.order.order_id),
  );
  unique = λ i j h k o p same.
      ground (arith, h, k, o, p, same, table.unique i j h k, fresh i h, fresh j k);
}

pub fresh_of :
    (s : OrderStore) (id : ℕ)
    → IsTable s.slots
    → find_index s id ≡ none
    → (r : ℕ) → r < capacity
    → (s.slots r).occupied ≡ true
    → id_at s.slots r ≢ id
fresh_of s id v missing r h o same =
    absurd (ground (arith, missing, (find_index-some_iff s id r v h).1 (o, same)))
