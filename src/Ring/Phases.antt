-- ===== src/Ring/Phases.antt =====
-- What holds of common/ring_buffer/SpscRingBuffer.h between the steps of its threads.
use low_latency_trading.Base.{ℕ, ◌≡◌, false, List, [], ◌∷◌, ◌++◌, length}
use low_latency_trading.Ring.{increment}
use low_latency_trading.Ring.Layout.{Contents}
use low_latency_trading.Ring.Moves.{Indices}
use low_latency_trading.Ring.Threads.{
  Producer, constructing, publishing, Consumer, moving, releasing, System,
}

module _ {A : Type 0} where
  -- The value that is constructed and not yet published.
  abbrev pub pending : Producer A → List A
  pending (publishing v) = v ∷ []
  pending other = []

  -- The value that is moved out and not yet returned.
  abbrev pub held : Consumer A → List A
  held (releasing v) = v ∷ []
  held other = []

  abbrev pub room : Producer A → ℕ
  room (constructing v) = 1
  room (publishing v) = 1
  room other = 0

  abbrev pub need : Consumer A → ℕ
  need moving = 1
  need (releasing v) = 1
  need other = 0

  module _ (c : ℕ) where
    -- The slot of the first object that is alive.
    abbrev pub base : ℕ → Consumer A → ℕ
    base i (releasing v) = increment c i
    base i other = i

    -- With the threads at `p` and `k` and the values `ys` in the queue.
    pub record Inv (s : System A) (p : Producer A) (k : Consumer A) (ys : List A) : Type 0 where
      pub indices : Indices c s.ring (length (held k ++ ys)) (room p) (need k)
      pub contents : Contents c s.ring.storage (base s.ring.read_index k) (ys ++ pending p)
      pub order : s.pushed ≡ s.popped ++ (held k ++ ys)
      pub sound : s.fault ≡ false
