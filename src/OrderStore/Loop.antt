-- ===== src/OrderStore/Loop.antt =====
-- `removeAt` of normalized/OrderStore.h: its loop ends while a slot is empty.
use native.Mathlib.Decide.{ℕ_discrete}
use low_latency_trading.Base.{
  ℕ, zero, suc, ◌+◌, ◌<◌, ◌≡◌, ◌≢◌, refl, sym, ap, true, false, none, some, arith, ltb, Bool-cases,
  inl, inr,
}
use low_latency_trading.OrderStore.{
  StoredOrder, Slots, capacity, hash, next, distance, id_at, fill, clear, shift,
}
use low_latency_trading.OrderStore.Probe.{IsTable, distance_lem}
use low_latency_trading.OrderStore.Weigh.{Weight, slot_weight, weigh_below, weigh_below-update}
use low_latency_trading.OrderStore.Map.{Holds}
use low_latency_trading.OrderStore.Shift.{IsHole, stop-IsTable, move-IsHole, keep-IsHole}

-- The entries of a table but for the dead one in the hole.
abbrev pub Live : Slots → ℕ → ℕ → StoredOrder → Type 0
Live t hole id v =
    (r : ℕ) × (r < capacity)
    × (r ≢ hole)
    × ((t r).occupied ≡ true)
    × ((t r).value ≡ v)
    × (v.order.order_id ≡ id)

-- `u` is a well-formed table with the live entries of `t`.
pub record Shifted (t : Slots) (hole : ℕ) (u : Slots) : Type 0 where
  pub table : IsTable u
  pub keeps : (id : ℕ) (v : StoredOrder) → Live t hole id v → Holds u id v
  pub adds : (id : ℕ) (v : StoredOrder) → Holds u id v → Live t hole id v
  pub weighs :
      (w : Weight) → weigh_below capacity w u + slot_weight w (t hole) ≡ weigh_below capacity w t

clear-Shifted :
    (t : Slots) (hole current : ℕ)
    → IsHole t hole current
    → (t current).occupied ≡ false
    → Shifted t hole (clear t hole)
unfolding slot_weight
clear-Shifted t hole current v empty = record {
  table = stop-IsTable t hole current v empty;
  keeps = λ id x (r, h, ne, full, its, same).
      (r, h, ground (arith, ne, full), ground (arith, ne, its), same);
  adds = λ id x (r, h, full, its, same).
      let ne : r ≢ hole = λ e. ground (arith, e, full) in
      (r, h, ne, ground (arith, ne, full), ground (arith, ne, its), same);
  weighs = λ w. ground (
    arith,
    weigh_below-update capacity w t hole (record { value = (t hole).value; occupied = false })
        v.hole_lt,
  );
}

move-Shifted :
    (t u : Slots) (hole current : ℕ)
    → IsHole t hole current
    → (t current).occupied ≡ true
    → Shifted (fill t hole (t current).value) current u
    → Shifted t hole u
unfolding slot_weight
move-Shifted t u hole current v full s = record {
  table = s.table;
  keeps = λ id x (r, h, ne, o, its, same). elim (ℕ_discrete r current) [
    | yes at ↦ s.keeps id x (
      hole,
      v.hole_lt,
      v.apart,
      ground arith,
      ground (arith, ap (λ i. (t i).value) at, its),
      same,
    )
    | no other ↦ s.keeps id x (r, h, other, ground (arith, ne, o), ground (arith, ne, its), same)
  ];
  adds = λ id x held.
      let (r, h, ne, o, its, same) = s.adds id x held in
      elim (ℕ_discrete hole r) [
        | yes at ↦
            (current, v.current_lt, (λ e. v.apart (sym e)), full, ground (arith, at, its), same)
        | no other ↦
            (r, h, (λ e. other (sym e)), ground (arith, other, o), ground (arith, other, its), same)
      ];
  weighs = λ w. ground (
    arith,
    full,
    v.apart,
    s.weighs w,
    weigh_below-update capacity w t hole (record { value = (t current).value; occupied = true })
        v.hole_lt,
  );
}

-- An empty slot is not passed, so the loop does not come round to the hole.
short :
    (t : Slots) (hole current e : ℕ)
    → IsHole t hole current
    → (t current).occupied ≡ true
    → e < capacity
    → (t e).occupied ≡ false
    → (hole ≢ next current) × (hole ≢ e) × (distance (next current) e + 1 ≡ distance current e)
short t hole current e v full h empty =
    let e-current : e ≢ current = λ q. ground (arith, q, full, empty) in
    let hole-current : 0 < distance hole current =
      omega (
        arith,
        v.apart,
        v.hole_lt,
        v.current_lt,
        distance_lem hole current v.hole_lt v.current_lt,
      ) in
    let out-of-run : ¬ (distance hole e < distance hole current) =
      λ q. ground (arith, empty, v.run e h q) in
    (
      λ q. omega (
        arith,
        q,
        v.hole_lt,
        v.current_lt,
        e-current,
        out-of-run,
        distance_lem hole current v.hole_lt v.current_lt,
        distance_lem hole e v.hole_lt h,
      ),
      λ q. omega (arith, q, out-of-run, hole-current, v.hole_lt, distance_lem hole e v.hole_lt h),
      omega (
        arith,
        v.current_lt,
        e-current,
        distance_lem current e v.current_lt h,
        distance_lem (next current) e (omega arith) h,
      ),
    )

-- With an empty slot within reach the loop ends.
pub shift_lem :
    (n : ℕ) (t : Slots) (hole current e : ℕ)
    → IsHole t hole current
    → e < capacity
    → (t e).occupied ≡ false
    → distance current e < n
    → (u : Slots) × (shift n t hole current ≡ some u) × Shifted t hole u
unfolding shift
shift_lem zero t hole current e v h empty fuel = absurd (omega arith)
shift_lem (suc n) t hole current e v h empty fuel = elim (Bool-cases (t current).occupied) [
  | inr stop ↦ (clear t hole, ground (arith, stop), clear-Shifted t hole current v stop)
  | inl full ↦
      let home = hash (id_at t current) in
      let (ahead, hole-e, nearer) = short t hole current e v full h empty in
      elim (Bool-cases (ltb (distance home hole) (distance home current))) [
        | inl moves ↦
            let t' = fill t hole (t current).value in
            let (u, ends, shifted) =
              shift_lem n t' current (next current) e
                (move-IsHole t hole current v full (ground (arith, moves))) h
                (ground (arith, hole-e, empty)) (omega (arith, nearer)) in
            (u, ground (arith, full, moves, ends), move-Shifted t u hole current v full shifted)
        | inr stays ↦
            let (u, ends, shifted) =
              shift_lem n t hole (next current) e
                (keep-IsHole t hole current v full (ground (arith, stays)) ahead) h empty
                (omega (arith, nearer)) in
            (u, ground (arith, full, stays, ends), shifted)
      ]
]

-- In a full table the loop never ends, whatever its fuel.
pub shift-full :
    (n : ℕ) (t : Slots) (hole current : ℕ)
    → current < capacity
    → ((i : ℕ) → i < capacity → (t i).occupied ≡ true)
    → shift n t hole current ≡ none
unfolding shift
shift-full zero t hole current h full = refl
shift-full (suc n) t hole current h full = ground (
  arith,
  full current h,
  shift-full n (fill t hole (t current).value) current (next current) (omega arith)
      (λ i k. ground (arith, full i k)),
  shift-full n t hole (next current) (omega arith) full,
)
