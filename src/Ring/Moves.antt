-- ===== src/Ring/Moves.antt =====
-- What the writes of common/ring_buffer/SpscRingBuffer.h do to the layout of its indices.
use mathlib.Core.Path.{subst}
use low_latency_trading.Base.{ℕ, suc, ◌+◌, ◌-◌, ◌≤◌, ◌<◌, ◌≢◌, arith}
use low_latency_trading.Ring.{Ring, increment, reread, reload}
use low_latency_trading.Ring.Layout.{
  After, increment_lem, increment-After, After-shorter, increment_lt,
}

module _ (c : ℕ) {A : Type 0} where
  -- The write index is `p` slots after the read index. The producer's copy of the read index may
  -- be old, but leaves `room` free slots; the consumer's copy of the write index may be old, but
  -- leaves `need` objects.
  pub record Indices (r : Ring A) (p room need : ℕ) : Type 0 where
    pub write_small : r.write_index < c
    pub read_small : r.read_index < c
    pub cached_read_small : r.cached_read_index < c
    pub cached_write_small : r.cached_write_index < c
    pub span : After c r.read_index p r.write_index
    pub behind : (m : ℕ) × After c r.cached_read_index m r.write_index × (p ≤ m) × (m + room < c)
    pub ahead : (j : ℕ) × After c r.read_index j r.cached_write_index × (need ≤ j) × (j ≤ p)

  pub reread-Indices : (r : Ring A) (p need : ℕ) → Indices r p 0 need → Indices (reread r) p 0 need
  unfolding reread
  reread-Indices r p need h = record {
    write_small = h.write_small;
    read_small = h.read_small;
    cached_read_small = h.read_small;
    cached_write_small = h.cached_write_small;
    span = h.span;
    behind = (p, h.span, omega arith, omega (arith, h.span));
    ahead = h.ahead;
  }

  pub reload-Indices : (r : Ring A) (p room : ℕ) → Indices r p room 0 → Indices (reload r) p room 0
  unfolding reload
  reload-Indices r p room h = record {
    write_small = h.write_small;
    read_small = h.read_small;
    cached_read_small = h.cached_read_small;
    cached_write_small = h.write_small;
    span = h.span;
    behind = h.behind;
    ahead = (p, h.span, omega arith, omega arith);
  }

  -- A slot is free when the next write index is not the producer's copy of the read index.
  pub Indices-room :
      (r : Ring A) (p need : ℕ)
      → increment c r.write_index ≢ r.cached_read_index
      → Indices r p 0 need
      → Indices r p 1 need
  Indices-room r p need other h =
      let (m, at, most, fits) = h.behind in
      let room : m + 1 < c = omega (
        arith,
        at,
        other,
        increment_lem c r.write_index h.write_small,
        h.write_small,
        h.cached_read_small,
      ) in
      record {
        write_small = h.write_small;
        read_small = h.read_small;
        cached_read_small = h.cached_read_small;
        cached_write_small = h.cached_write_small;
        span = h.span;
        behind = (m, at, most, room);
        ahead = h.ahead;
      }

  -- An object is there when the read index is not the consumer's copy of the write index.
  pub Indices-need :
      (r : Ring A) (p room : ℕ)
      → r.read_index ≢ r.cached_write_index
      → Indices r p room 0
      → Indices r p room 1
  Indices-need r p room other h =
      let (j, at, least, most) = h.ahead in
      let some' : 1 ≤ j = omega (arith, at, other, h.read_small, h.cached_write_small) in
      record {
        write_small = h.write_small;
        read_small = h.read_small;
        cached_read_small = h.cached_read_small;
        cached_write_small = h.cached_write_small;
        span = h.span;
        behind = h.behind;
        ahead = (j, at, some', most);
      }

  pub publish-Indices :
      (r : Ring A) (p need : ℕ)
      → Indices r p 1 need
      → Indices (record r { write_index = increment c r.write_index }) (p + 1) 0 need
  publish-Indices r p need h =
      let (m, at, most, room) = h.behind in
      let (j, near, least, within) = h.ahead in
      let w = r.write_index in
      record {
        write_small = increment_lt c w h.write_small;
        read_small = h.read_small;
        cached_read_small = h.cached_read_small;
        cached_write_small = h.cached_write_small;
        span =
            increment-After c r.read_index p w h.read_small h.write_small
              (omega (arith, most, room)) h.span;
        behind = (
          m + 1,
          increment-After c r.cached_read_index m w h.cached_read_small h.write_small room at,
          omega (arith, most),
          omega (arith, room),
        );
        ahead = (j, near, least, omega (arith, within));
      }

  pub release-Indices :
      (r : Ring A) (p room : ℕ)
      → Indices r (suc p) room 1
      → Indices (record r { read_index = increment c r.read_index }) p room 0
  release-Indices r p room h =
      let (m, at, most, fits) = h.behind in
      let (j, near, least, within) = h.ahead in
      let i = r.read_index in
      let near' : After c i (suc (j - 1)) r.cached_write_index =
        subst (λ t. After c i t r.cached_write_index) (omega (arith, least)) near in
      record {
        write_small = h.write_small;
        read_small = increment_lt c i h.read_small;
        cached_read_small = h.cached_read_small;
        cached_write_small = h.cached_write_small;
        span = After-shorter c i p r.write_index h.read_small h.write_small h.span;
        behind = (m, at, omega (arith, most), fits);
        ahead = (
          j - 1,
          After-shorter c i (j - 1) r.cached_write_index h.read_small h.cached_write_small near',
          omega arith,
          omega (arith, within),
        );
      }
