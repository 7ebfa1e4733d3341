-- ===== src/Tests/Ring.antt =====
-- The queue between two threads at small inputs.
use low_latency_trading.Base.{
  ℕ, ◌+◌, ◌≡◌, ◌↔◌, refl, inl, true, none, some, List, [], ◌∷◌, arith, length, update,
}
use low_latency_trading.Ring.{Ring, push, pop, size, empty, full}
use low_latency_trading.Ring.Layout.{Contents, Contents-construct, entry}
use low_latency_trading.Ring.Calls.{Stores, Pushed, Popped, push-Pushed, pop-Popped, size-length}
use low_latency_trading.Ring.Threads.{
  Action, call_push, produce, call_pop, consume, run, new_system,
}
use low_latency_trading.Ring.Schedule.{Fifo, run-Fifo}

-- The consumer begins while the producer has constructed its value and not yet published it.
abbrev schedule : List (Action ℕ)
schedule =
    call_push 7
    ∷ produce
    ∷ call_pop
    ∷ produce
    ∷ consume
    ∷ consume
    ∷ consume
    ∷ call_push 8
    ∷ produce
    ∷ []

run-Fifo_example : Fifo 2 (run 2 new_system schedule)
run-Fifo_example = run-Fifo 2 schedule (omega arith)

-- One value in a queue of three slots.
abbrev queue : Ring ℕ
queue = record {
  storage = update (λ i. none) 0 (some 7);
  write_index = 1;
  read_index = 0;
  cached_read_index = 0;
  cached_write_index = 0;
}

abbrev queue_values : List ℕ
queue_values = 7 ∷ []

abbrev no_values : List ℕ
no_values = []

nothing-Contents : Contents 3 (λ i. none) 0 no_values
unfolding entry
nothing-Contents k i below after = refl

queue-Stores : Stores 3 queue (7 ∷ [])
queue-Stores = record {
  indices = record {
    write_small = omega arith;
    read_small = omega arith;
    cached_read_small = omega arith;
    cached_write_small = omega arith;
    span = (omega arith, inl refl);
    behind = (1, (omega arith, inl refl), omega arith, omega arith);
    ahead = (0, (omega arith, inl refl), omega arith, omega arith);
  };
  contents =
      (Contents-construct 3 (λ i. none) 0 0 [] 7 (omega arith) (omega arith) (omega arith, inl refl)
        nothing-Contents).1;
}

push-Pushed_example : Pushed 3 (7 ∷ []) 8 (push 3 queue 8)
push-Pushed_example = push-Pushed 3 queue (7 ∷ []) 8 queue-Stores

pop-Popped_example : Popped 3 (7 ∷ []) (pop 3 queue)
pop-Popped_example = pop-Popped 3 queue (7 ∷ []) queue-Stores

size-length_example :
    (size 3 queue ≡ length queue_values)
    × ((empty queue ≡ true) ↔ (length queue_values ≡ 0))
    × ((full 3 queue ≡ true) ↔ (length queue_values + 1 ≡ 3))
size-length_example = size-length 3 queue (7 ∷ []) queue-Stores
