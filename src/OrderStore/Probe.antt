-- ===== src/OrderStore/Probe.antt =====
-- The table invariant of normalized/OrderStore.h, and what a probe finds under it.
use low_latency_trading.Base.{
  ℕ, zero, suc, ◌+◌, ◌-◌, ◌%◌, ◌≤◌, ◌<◌, ◌≡◌, ◌≢◌, sym, true, some, arith, ◌∙◌, ◌↔◌,
}
use native.Mathlib.Decide.{ℕ_discrete}
use low_latency_trading.OrderStore.{
  Slots, OrderStore, capacity, hash, next, distance, id_at, probe, find_index,
}

pub hash-lt : (id : ℕ) → hash id < capacity
unfolding hash
hash-lt id = omega arith

-- How far to go forward from one slot to another.
pub distance_lem :
    (a b : ℕ) → a < capacity → b < capacity → distance a b ≡ (b + capacity - a) % capacity
unfolding distance
distance_lem a b h k = omega arith

pub distance_lt : (a b : ℕ) → a < capacity → b < capacity → distance a b < capacity
distance_lt a b h k = omega (arith, distance_lem a b h k)

pub distance_inj :
    (a i j : ℕ) → a < capacity → i < capacity → j < capacity → distance a i ≡ distance a j → i ≡ j
distance_inj a i j h k l e = omega (arith, distance_lem a i h k, distance_lem a j h l)

-- One step forward, short of a whole turn.
pub distance-next :
    (a i r : ℕ)
    → a < capacity
    → i < capacity
    → r < capacity
    → distance a i < distance a r
    → distance a (next i) ≡ distance a i + 1
distance-next a i r h k l near =
    omega
      (arith, distance_lem a i h k, distance_lem a r h l, distance_lem a (next i) h (omega arith))

-- Slot `j` lies on the probe path from the home of `i`'s entry to `i`, before `i`.
abbrev pub Before : Slots → ℕ → ℕ → Type 0
Before t j i = distance (hash (id_at t i)) j < distance (hash (id_at t i)) i

-- No probe path is interrupted by an empty slot, and no identifier stands in two slots.
pub record IsTable (t : Slots) : Type 0 where
  pub path :
      (i j : ℕ)
      → i < capacity
      → j < capacity
      → (t i).occupied ≡ true
      → Before t j i
      → (t j).occupied ≡ true
  pub unique :
      (i j : ℕ)
      → i < capacity
      → j < capacity
      → (t i).occupied ≡ true
      → (t j).occupied ≡ true
      → id_at t i ≡ id_at t j
      → i ≡ j

-- What `findIndex` returns is an occupied slot with the identifier.
probe_sound :
    (n : ℕ) (t : Slots) (id i r : ℕ)
    → i < capacity
    → probe n t id i ≡ some r
    → (r < capacity) × ((t r).occupied ≡ true) × (id_at t r ≡ id)
unfolding probe
probe_sound zero t id i r h e = cc
probe_sound (suc n) t id i r h e = ground (arith, probe_sound n t id (next i) r)

-- From `k` slots before the entry, the probe comes to it.
probe_complete :
    (n : ℕ) (t : Slots) (id i r : ℕ)
    → IsTable t
    → i < capacity
    → r < capacity
    → (t r).occupied ≡ true
    → id_at t r ≡ id
    → distance (hash id) i ≤ distance (hash id) r
    → distance (hash id) r < distance (hash id) i + n
    → probe n t id i ≡ some r
unfolding probe
probe_complete zero t id i r v h k o e near fuel = absurd (omega arith)
probe_complete (suc n) t id i r v h k o e near fuel = elim (ℕ_discrete i r) [
  | yes same ↦
      let here : (t i).occupied ≡ true = rw same o in
      let its : id_at t i ≡ id = rw same e in ground (arith, here, its, same)
  | no other ↦
      let ahead : distance (hash id) i < distance (hash id) r =
        grind (arith, distance_inj (hash id) i r (hash-lt id) h k) in
      let full : (t i).occupied ≡ true = v.path r i k h o (rw e ahead) in
      let differs : id_at t i ≢ id = λ same. other (v.unique i r h k full o (same ∙ sym e)) in
      ground (
        arith,
        full,
        differs,
        distance-next (hash id) i r (hash-lt id) h k ahead,
        probe_complete n t id (next i) r v (omega arith) k o e,
      )
]

pub distance_self : (a : ℕ) → a < capacity → distance a a ≡ 0
distance_self a h = omega (arith, distance_lem a a h h)

-- In a well-formed table, `findIndex` returns a slot exactly when the slot is occupied by an order
-- with the identifier.
pub find_index-some_iff :
    (s : OrderStore) (id r : ℕ)
    → IsTable s.slots
    → r < capacity
    → (find_index s id ≡ some r) ↔ (((s.slots r).occupied ≡ true) × (id_at s.slots r ≡ id))
unfolding find_index
find_index-some_iff s id r v h = (
  λ e. let (_, o, same) = probe_sound capacity s.slots id (hash id) r (hash-lt id) e in (o, same),
  λ (o, e).
      probe_complete capacity s.slots id (hash id) r v (hash-lt id) h o e
        (omega (arith, distance_self (hash id) (hash-lt id)))
        (omega
          (arith, distance_self (hash id) (hash-lt id), distance_lt (hash id) r (hash-lt id) h)),
)

pub find_index-lt :
    (s : OrderStore) (id : ℕ) {r : ℕ}
    → find_index s id ≡ some r
    → (r < capacity) × ((s.slots r).occupied ≡ true) × (id_at s.slots r ≡ id)
unfolding find_index
find_index-lt s id e = probe_sound capacity s.slots id (hash id) _ (hash-lt id) e
