-- ===== src/OrderStore/Shift.antt =====
-- The loop of `removeAt` in normalized/OrderStore.h: backward-shift deletion keeps every probe
-- path whole.
use mathlib.Core.Path.{subst}
use native.Mathlib.Decide.{ℕ_discrete}
use low_latency_trading.Base.{ℕ, ◌+◌, ◌≤◌, ◌<◌, ◌≡◌, ◌≢◌, sym, true, false, arith}
use low_latency_trading.OrderStore.{Slots, capacity, hash, next, distance, id_at, fill, clear}
use low_latency_trading.OrderStore.Probe.{
  IsTable, Before, hash-lt, distance_lem, distance_inj, distance_lt, distance_self,
}

-- The state of the loop: the entry in the hole is dead, all slots from the hole to the current
-- one are occupied, and no entry between them has the hole on its probe path.
pub record IsHole (t : Slots) (hole current : ℕ) : Type 0 where
  pub hole_lt : hole < capacity
  pub current_lt : current < capacity
  pub apart : hole ≢ current
  pub run : (j : ℕ) → j < capacity → distance hole j < distance hole current → (t j).occupied ≡ true
  pub path :
      (i j : ℕ)
      → i < capacity
      → j < capacity
      → i ≢ hole
      → (t i).occupied ≡ true
      → Before t j i
      → (t j).occupied ≡ true
  pub unique :
      (i j : ℕ)
      → i < capacity
      → j < capacity
      → i ≢ hole
      → j ≢ hole
      → (t i).occupied ≡ true
      → (t j).occupied ≡ true
      → id_at t i ≡ id_at t j
      → i ≡ j
  pub clear_of :
      (i : ℕ)
      → i < capacity
      → i ≢ hole
      → distance hole i < distance hole current
      → ¬ Before t hole i

-- Going from `a` over `b` to `c`, without a whole turn.
between :
    (a b c : ℕ)
    → a < capacity
    → b < capacity
    → c < capacity
    → distance a b ≤ distance a c
    → distance a c ≡ distance a b + distance b c
between a b c h k l near =
    omega (arith, distance_lem a b h k, distance_lem a c h l, distance_lem b c k l)

through :
    (a b c : ℕ)
    → a < capacity
    → b < capacity
    → c < capacity
    → distance a b + distance b c < capacity
    → distance a c ≡ distance a b + distance b c
through a b c h k l short =
    omega (arith, distance_lem a b h k, distance_lem a c h l, distance_lem b c k l)

pub step_from :
    (a i : ℕ) → a < capacity → i < capacity → a ≢ next i → distance a (next i) ≡ distance a i + 1
step_from a i h k ne = omega (arith, distance_lem a i h k, distance_lem a (next i) h (omega arith))

module _ (t : Slots) (hole current : ℕ) (v : IsHole t hole current) where
  -- With an empty slot in front, no entry has the hole on its path.
  past :
      (i : ℕ)
      → (t current).occupied ≡ false
      → i < capacity
      → i ≢ hole
      → (t i).occupied ≡ true
      → ¬ Before t hole i
  past i empty h ne full near =
      let home = hash (id_at t i) in
      let low = hash-lt (id_at t i) in
      let over = between home hole i low v.hole_lt h (omega arith) in
      let i-current : i ≢ current = λ e. ground (arith, e, empty, full) in
      let beyond : distance hole current < distance hole i = grind (
        arith,
        v.clear_of i h ne,
        near,
        i-current,
        distance_inj hole i current v.hole_lt h v.current_lt,
      ) in
      let reach =
        through home hole current low v.hole_lt v.current_lt
          (omega (arith, over, distance_lt home i low h)) in
      ground (arith, empty, v.path i current h v.current_lt ne full (omega (arith, reach, over)))

  -- At an empty slot the hole can be cleared.
  pub stop-IsTable : (t current).occupied ≡ false → IsTable (clear t hole)
  stop-IsTable empty = record {
    path = λ i j h k o near.
        let i-hole : i ≢ hole = λ e. ground (arith, e, o) in
        let full : (t i).occupied ≡ true = ground (arith, i-hole, o) in
        let before : Before t j i = ground (arith, near) in
        let j-hole : hole ≢ j =
          λ e. past i empty h i-hole full (subst (λ x. Before t x i) (sym e) before) in
        ground (arith, j-hole, v.path i j h k i-hole full before);
    unique = λ i j h k o p same. ground (arith, h, k, o, p, same, v.unique i j h k);
  }

  one_step : distance current (next current) ≡ 1
  one_step =
      omega (arith, v.current_lt, distance_lem current (next current) v.current_lt (omega arith))

  at_current :
      (j : ℕ) → j < capacity → distance current j < distance current (next current) → j ≡ current
  at_current j k h = sym (
      distance_inj current current j v.current_lt v.current_lt k
        (omega (arith, one_step, distance_self current v.current_lt)))

  -- An entry that has the hole on its path moves into it, and its slot is the new hole.
  pub move-IsHole :
      (t current).occupied ≡ true
      → Before t hole current
      → IsHole (fill t hole (t current).value) current (next current)
  move-IsHole full near = record {
    hole_lt = v.current_lt;
    current_lt = omega arith;
    apart = λ e. omega (arith, one_step, e, v.current_lt);
    run = λ j k h. ground (arith, at_current j k h, full);
    path = λ i j h k ne o before. ground (
      arith,
      o,
      before,
      near,
      full,
      v.apart,
      v.current_lt,
      v.path current j v.current_lt k,
      v.path i j h k,
    );
    unique = λ i j h k ne nf o p same. ground (
      arith,
      ne,
      nf,
      o,
      p,
      same,
      full,
      v.apart,
      v.unique current j v.current_lt k,
      v.unique i current h v.current_lt,
      v.unique i j h k,
    );
    clear_of = λ i h ne d. absurd (ne (at_current i h d));
  }

  -- Otherwise the hole stays.
  pub keep-IsHole :
      (t current).occupied ≡ true
      → ¬ Before t hole current
      → hole ≢ next current
      → IsHole t hole (next current)
  keep-IsHole full far ne = record {
    hole_lt = v.hole_lt;
    current_lt = omega arith;
    apart = ne;
    run = λ j k h. elim (ℕ_discrete j current) [
      | yes same ↦ subst (λ x. (t x).occupied ≡ true) (sym same) full
      | no other ↦ v.run j k (nearer j k other h)
    ];
    path = v.path;
    unique = v.unique;
    clear_of = λ i h n d. elim (ℕ_discrete i current) [
      | yes same ↦ λ b. far (subst (λ x. Before t hole x) same b)
      | no other ↦ v.clear_of i h n (nearer i h other d)
    ];
  }
    where
      nearer :
          (j : ℕ)
          → j < capacity
          → j ≢ current
          → distance hole j < distance hole (next current)
          → distance hole j < distance hole current
      nearer j k other h = grind (
        arith,
        h,
        other,
        step_from hole current v.hole_lt v.current_lt ne,
        distance_inj hole j current v.hole_lt k v.current_lt,
      )
