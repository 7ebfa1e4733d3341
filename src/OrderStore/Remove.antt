-- ===== src/OrderStore/Remove.antt =====
-- `removeAt` of normalized/OrderStore.h: the loop ends while a slot is empty, and what it leaves.
use mathlib.Core.Path.{subst}
use native.Mathlib.Decide.{ℕ_discrete}
use low_latency_trading.Base.{
  ℕ, ◌+◌, ◌-◌, ◌<◌, ◌≡◌, ◌≢◌, sym, ap, ◌∙◌, true, none, some, arith, ◌==◌, if◌then◌else◌, ◌^◌, u64,
}
use low_latency_trading.OrderStore.{
  StoredOrder, Slots, OrderStore, capacity, next, distance, id_at, remove_at,
}
use low_latency_trading.OrderStore.Probe.{IsTable, distance_lem, distance_lt}
use low_latency_trading.OrderStore.Weigh.{
  Weight, slot_weight, weigh, weigh_below, one, empty_of_weigh_below-one,
}
use low_latency_trading.OrderStore.Map.{get, IsValid, get_eq, get-none}
use low_latency_trading.OrderStore.Loop.{Shifted, shift_lem, shift-full}
use low_latency_trading.OrderStore.Shift.{IsHole}

start-IsHole :
    (t : Slots) (i : ℕ) → IsTable t → i < capacity → (t i).occupied ≡ true → IsHole t i (next i)
start-IsHole t i v h full =
    let step : distance i (next i) ≡ 1 =
      omega (arith, h, distance_lem i (next i) h (omega arith)) in
    let same : (j : ℕ) → j < capacity → distance i j < distance i (next i) → j ≡ i =
      λ j k d. omega (arith, d, step, h, k, distance_lem i j h k) in
    record {
      hole_lt = h;
      current_lt = omega arith;
      apart = λ e. omega (arith, e, h);
      run = λ j k d. subst (λ x. (t x).occupied ≡ true) (sym (same j k d)) full;
      path = λ j k hj hk ne o b. v.path j k hj hk o b;
      unique = λ j k hj hk ne nf o p e. v.unique j k hj hk o p e;
      clear_of = λ j k ne d. absurd (ne (same j k d));
    }

-- `u` is `s` without its entry `v`.
pub record Removed (s : OrderStore) (v : StoredOrder) (u : OrderStore) : Type 0 where
  pub valid : IsValid u
  pub weighs : (w : Weight) → weigh w u + w v ≡ weigh w s
  pub gets : (id : ℕ) → get u id ≡ (if v.order.order_id == id then none else get s id)

Shifted-get_ne :
    (s u : OrderStore) (i id : ℕ)
    → IsTable s.slots
    → Shifted s.slots i u.slots
    → id_at s.slots i ≢ id
    → get u id ≡ get s id
Shifted-get_ne s u i id table shifted ne =
    get_eq s u id table shifted.table
      (λ v (r, h, full, its, same). shifted.keeps id v (
        r,
        h,
        (λ e.
            ne
              (ap (id_at s.slots) (sym e) ∙ ap (λ (x : StoredOrder). x.order.order_id) its ∙ same)),
        full,
        its,
        same,
      ))
      (λ v held. let (r, h, _, full, its, same) = shifted.adds id v held in (r, h, full, its, same))

Shifted-get_self :
    (s u : OrderStore) (i : ℕ)
    → IsTable s.slots
    → i < capacity
    → (s.slots i).occupied ≡ true
    → Shifted s.slots i u.slots
    → get u (id_at s.slots i) ≡ none
Shifted-get_self s u i table h here shifted = get-none u (id_at s.slots i) λ v held.
    let (r, k, ne, full, its, same) = shifted.adds (id_at s.slots i) v held in
    ne (table.unique r i k h full here (ap (λ (x : StoredOrder). x.order.order_id) its ∙ same))

-- In a valid store that is not full, `removeAt` of an occupied slot ends: the result is a valid
-- store with exactly that entry less, every sum over the entries goes down by that entry's weight,
-- and every other identifier finds what it found before.
pub remove_at_lem :
    (s : OrderStore) (i : ℕ)
    → IsValid s
    → s.size < capacity
    → i < capacity
    → (s.slots i).occupied ≡ true
    → (u : OrderStore) × (remove_at s i ≡ some u) × Removed s (s.slots i).value u
unfolding remove_at weigh slot_weight
remove_at_lem s i valid room h full =
    let (gap, gap-lt, gap-empty) =
      empty_of_weigh_below-one capacity s.slots (omega (arith, valid.counted)) in
    let next-lt : next i < capacity = omega arith in
    let (t, ends, shifted) =
      shift_lem capacity s.slots i (next i) gap (start-IsHole s.slots i valid.table h full) gap-lt
        gap-empty (distance_lt (next i) gap next-lt gap-lt) in
    let weighs : (w : Weight) → weigh_below capacity w t + w (s.slots i).value ≡ weigh w s =
      λ w. ground (arith, full, shifted.weighs w) in
    let u : OrderStore = record s { slots = t; size = u64 (s.size + 2 ^ 64 - 1) } in
    (
      u,
      ground (arith, ends),
      record {
        valid = record {
          table = shifted.table;
          counted = omega (arith, weighs one, valid.counted);
          peak = omega (arith, weighs one, valid.counted, valid.peak);
        };
        weighs = weighs;
        gets = λ id. elim (ℕ_discrete (id_at s.slots i) id) [
          | yes same ↦
              ground
                (arith, same, ap (get u) same, Shifted-get_self s u i valid.table h full shifted)
          | no ne ↦ ground (arith, ne, Shifted-get_ne s u i id valid.table shifted ne)
        ];
      },
    )

-- In a table with every slot occupied, the loop of `removeAt` has not ended after as many steps as
-- there are slots.
pub remove_at-full :
    (s : OrderStore) (i : ℕ)
    → ((j : ℕ) → j < capacity → (s.slots j).occupied ≡ true)
    → remove_at s i ≡ none
unfolding remove_at
remove_at-full s i full = ground (arith, shift-full capacity s.slots i (next i) (omega arith) full)
