-- ===== src/Ring/Threads.antt =====
-- common/ring_buffer/SpscRingBuffer.h with its two threads: each step is one access of a thread
-- to what the other one writes or reads, together with the accesses to its own data before it.
use low_latency_trading.Base.{
  ℕ, Bool, true, false, Option, none, some, List, [], ◌∷◌, ◌++◌, ◌||◌, ◌==◌, if◌then◌else◌, update,
}
use low_latency_trading.Ring.{Ring, increment, reread, reload, new_ring}

-- Where the producer is: between two calls, with what the last one returned; before the acquire
-- load of the read index; before the construction; before the release store of the write index.
pub data Producer (A : Type 0) : Type 0 where
  push_returned : Bool → Producer A
  rereading : A → Producer A
  constructing : A → Producer A
  publishing : A → Producer A

-- Where the consumer is: between two calls; before the acquire load of the write index; before the
-- object is moved out and destroyed; before the release store of the read index.
pub data Consumer (A : Type 0) : Type 0 where
  pop_returned : Option A → Consumer A
  reloading moving : Consumer A
  releasing : A → Consumer A

-- The queue and its threads; the values of the calls of `push` that returned `true` and of `pop`
-- that returned one, in order; and whether a thread has constructed an object over one that is
-- alive or moved from one that is not.
pub record System (A : Type 0) : Type 0 where
  pub ring : Ring A
  pub producer : Producer A
  pub consumer : Consumer A
  pub pushed : List A
  pub popped : List A
  pub fault : Bool

pub data Action (A : Type 0) : Type 0 where
  call_push : A → Action A
  produce call_pop consume : Action A

module _ {A : Type 0} where
  unfoldable pub is_alive : Option A → Bool
  is_alive none = false
  is_alive (some v) = true

  unfoldable pub new_system : System A
  new_system = record {
    ring = new_ring;
    producer = push_returned true;
    consumer = pop_returned none;
    pushed = [];
    popped = [];
    fault = false;
  }

  module _ (capacity : ℕ) where
    -- The start of `push`, up to the first test.
    unfoldable pub begin_push : Ring A → A → Producer A
    begin_push r v =
        if increment capacity r.write_index == r.cached_read_index
        then rereading v
        else constructing v

    -- The other steps of `push`.
    unfoldable pub produced : System A → Producer A → System A
    unfolding is_alive
    produced s (push_returned b) = s
    produced s (rereading v) = record s {
      ring = reread s.ring;
      producer =
          if increment capacity s.ring.write_index == s.ring.read_index
          then push_returned false
          else constructing v;
    }
    produced s (constructing v) = record s {
      ring = record s.ring { storage = update s.ring.storage s.ring.write_index (some v) };
      producer = publishing v;
      fault = s.fault || is_alive (s.ring.storage s.ring.write_index);
    }
    produced s (publishing v) = record s {
      ring = record s.ring { write_index = increment capacity s.ring.write_index };
      producer = push_returned true;
      pushed = s.pushed ++ v ∷ [];
    }

    -- The start of `pop`, up to the first test.
    unfoldable pub begin_pop : Ring A → Consumer A
    begin_pop r = if r.read_index == r.cached_write_index then reloading else moving

    -- The other steps of `pop`.
    unfoldable pub consumed : System A → Consumer A → System A
    consumed s (pop_returned v) = s
    consumed s reloading = record s {
      ring = reload s.ring;
      consumer = if s.ring.read_index == s.ring.write_index then pop_returned none else moving;
    }
    consumed s moving = elim (s.ring.storage s.ring.read_index) [
      | none ↦ record s { fault = true }
      | some v ↦ record s {
        ring = record s.ring { storage = update s.ring.storage s.ring.read_index none };
        consumer = releasing v;
      }
    ]
    consumed s (releasing v) = record s {
      ring = record s.ring { read_index = increment capacity s.ring.read_index };
      consumer = pop_returned (some v);
      popped = s.popped ++ v ∷ [];
    }

    -- A call begins only after the thread's last one has returned.
    unfoldable pub act : System A → Action A → System A
    act s (call_push v) = elim s.producer [
      | push_returned b ↦ record s { producer = begin_push s.ring v }
      | _ ↦ s
    ]
    act s produce = produced s s.producer
    act s call_pop = elim s.consumer [
      | pop_returned v ↦ record s { consumer = begin_pop s.ring }
      | _ ↦ s
    ]
    act s consume = consumed s s.consumer

    unfoldable pub run : System A → List (Action A) → System A
    unfolding act
    run s [] = s
    run s (a ∷ as') = run (act s a) as'
