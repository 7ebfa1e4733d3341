-- ===== src/Ring.antt =====
-- common/ring_buffer/SpscRingBuffer.h: the queue between one producer thread and one consumer
-- thread. `push` and `pop` stand here as a whole; Ring.Threads takes them apart.
pub mod Layout
pub mod Moves
pub mod Calls
pub mod Threads
pub mod Phases
pub mod Producing
pub mod Consuming
pub mod Schedule
use low_latency_trading.Base.{
  ℕ, ◌+◌, ◌-◌, ◌%◌, Bool, true, false, Option, none, some, ltb, ◌==◌, if◌then◌else◌, update,
}

-- The raw storage: a slot holds an object or none that is alive.
pub record Ring (A : Type 0) : Type 0 where
  pub storage : ℕ → Option A
  pub write_index : ℕ
  pub read_index : ℕ
  pub cached_read_index : ℕ
  pub cached_write_index : ℕ

unfoldable pub increment : ℕ → ℕ → ℕ
increment capacity i = (i + 1) % capacity

module _ {A : Type 0} where
  unfoldable pub new_ring : Ring A
  new_ring = record {
    storage = λ i. none;
    write_index = 0;
    read_index = 0;
    cached_read_index = 0;
    cached_write_index = 0;
  }

  -- The acquire loads of the other thread's index into the own copy.
  unfoldable pub reread : Ring A → Ring A
  reread r = record r { cached_read_index = r.read_index }

  unfoldable pub reload : Ring A → Ring A
  reload r = record r { cached_write_index = r.write_index }

  unfoldable pub empty : Ring A → Bool
  empty r = r.read_index == r.write_index

  module _ (capacity : ℕ) where
    -- The construction of the object and the release of the new write index.
    unfoldable pub publish : Ring A → A → Ring A
    unfolding increment
    publish r v = record r {
      storage = update r.storage r.write_index (some v);
      write_index = increment capacity r.write_index;
    }

    unfoldable pub push : Ring A → A → Bool × Ring A
    unfolding increment publish reread
    push r v =
        if increment capacity r.write_index == r.cached_read_index
        then if increment capacity r.write_index == r.read_index
          then (false, reread r)
          else (true, publish (reread r) v)
        else (true, publish r v)

    -- The object is moved out and destroyed, and the new read index released. To take an object
    -- that is not alive is undefined.
    unfoldable pub take : Ring A → Option (Option A × Ring A)
    unfolding increment
    take r = elim (r.storage r.read_index) [
      | none ↦ none
      | some v ↦ some (
        some v,
        record r {
          storage = update r.storage r.read_index none;
          read_index = increment capacity r.read_index;
        },
      )
    ]

    unfoldable pub pop : Ring A → Option (Option A × Ring A)
    unfolding take reload
    pop r =
        if r.read_index == r.cached_write_index
        then if r.read_index == r.write_index then some (none, reload r) else take (reload r)
        else take r

    unfoldable pub full : Ring A → Bool
    unfolding increment
    full r = increment capacity r.write_index == r.read_index

    unfoldable pub size : Ring A → ℕ
    size r =
        if ltb r.write_index r.read_index
        then capacity - r.read_index + r.write_index
        else r.write_index - r.read_index
