-- ===== src/OrderStore/Update.antt =====
-- Writing an order's quantity in place, through the reference that `stored` of
-- normalized/OrderStore.h returns.
use native.Mathlib.Decide.{ℕ_discrete}
use low_latency_trading.Base.{
  ℕ, ◌+◌, ◌<◌, ◌≡◌, ◌≢◌, refl, ap, true, some, arith, ◌==◌, if◌then◌else◌,
}
use low_latency_trading.OrderStore.{
  StoredOrder, OrderStore, capacity, id_at, with_quantity, set_quantity,
}
use low_latency_trading.OrderStore.Probe.{IsTable}
use low_latency_trading.OrderStore.Weigh.{Weight, slot_weight, weigh, weigh_below-update, one}
use low_latency_trading.OrderStore.Map.{get, IsValid, Holds-get, get_eq}

-- `u` is `s` with the entry `v` replaced by `x`, which has the same identifier.
pub record Replaced (s : OrderStore) (v x : StoredOrder) (u : OrderStore) : Type 0 where
  pub valid : IsValid u
  pub weighs : (w : Weight) → weigh w u + w v ≡ weigh w s + w x
  pub gets : (id : ℕ) → get u id ≡ (if v.order.order_id == id then some x else get s id)

module _ (s : OrderStore) (i q : ℕ) (valid : IsValid s) (h : i < capacity)
    (full : (s.slots i).occupied ≡ true) where
  set_quantity-IsTable : IsTable (set_quantity s i q).slots
  unfolding set_quantity
  set_quantity-IsTable = record {
    path = λ a b ha hb o near. ground (arith, o, near, valid.table.path a b ha hb);
    unique = λ a b ha hb o p same. ground (arith, o, p, same, valid.table.unique a b ha hb);
  }

  weigh-set_quantity :
      (w : Weight)
      → weigh w (set_quantity s i q) + w (s.slots i).value
        ≡ weigh w s + w (with_quantity (s.slots i).value q)
  unfolding set_quantity weigh slot_weight
  weigh-set_quantity w = ground (
    arith,
    full,
    weigh_below-update capacity w s.slots i
        (record { value = with_quantity (s.slots i).value q; occupied = (s.slots i).occupied }) h,
  )

  get-set_quantity_self :
      get (set_quantity s i q) (id_at s.slots i) ≡ some (with_quantity (s.slots i).value q)
  unfolding set_quantity
  get-set_quantity_self =
      Holds-get (set_quantity s i q) (id_at s.slots i) _ set_quantity-IsTable
        (i, h, ground (arith, full), ground arith, refl)

  get-set_quantity_ne : (id : ℕ) → id_at s.slots i ≢ id → get (set_quantity s i q) id ≡ get s id
  unfolding set_quantity
  get-set_quantity_ne id ne =
      get_eq s (set_quantity s i q) id valid.table set_quantity-IsTable
        (λ v (r, k, o, its, same).
          let other : i ≢ r = λ e. ground (arith, ne, e, its, same) in
          (r, k, ground (arith, other, o), ground (arith, other, its), same))
        (λ v (r, k, o, its, same).
          let other : i ≢ r = λ e. ground (arith, ne, e, its, same) in
          (r, k, ground (arith, other, o), ground (arith, other, its), same))

  -- In a valid store, writing the quantity of an occupied slot's order leaves a valid store in
  -- which that entry has the new quantity and every other identifier finds what it found before.
  pub set_quantity_lem :
      Replaced s (s.slots i).value (with_quantity (s.slots i).value q) (set_quantity s i q)
  unfolding set_quantity
  set_quantity_lem = record {
    valid = record {
      table = set_quantity-IsTable;
      counted = omega (arith, weigh-set_quantity one, valid.counted);
      peak = valid.peak;
    };
    weighs = weigh-set_quantity;
    gets = λ id. elim (ℕ_discrete (id_at s.slots i) id) [
      | yes same ↦ ground (arith, same, ap (get (set_quantity s i q)) same, get-set_quantity_self)
      | no ne ↦ ground (arith, ne, get-set_quantity_ne id ne)
    ];
  }
