-- ===== src/Ring/Schedule.antt =====
-- Any interleaving of the two threads of common/ring_buffer/SpscRingBuffer.h.
use mathlib.Core.Path.{subst}
use low_latency_trading.Base.{
  ℕ, ◌<◌, ◌≡◌, refl, sym, inl, inr, true, false, none, List, [], ◌∷◌, ◌++◌, length, arith,
  Option-cases,
}
use low_latency_trading.Ring.{new_ring}
use low_latency_trading.Ring.Layout.{entry}
use low_latency_trading.Ring.Phases.{Inv, held}
use low_latency_trading.Ring.Producing.{begin_push-Inv, produced-Inv}
use low_latency_trading.Ring.Consuming.{begin_pop-Inv, consumed-Inv}
use low_latency_trading.Ring.Threads.{
  Producer, push_returned, rereading, constructing, publishing, Consumer, pop_returned, reloading,
  moving, releasing, System, Action, call_push, produce, call_pop, consume, act, run, new_system,
  begin_push, begin_pop, produced, consumed,
}

module _ (c : ℕ) {A : Type 0} where
  abbrev Good : System A → Type 0
  Good s = (ys : List A) × Inv c s s.producer s.consumer ys

  -- A thread that is in a call goes on with it.
  stays : (s u : System A) → u ≡ s → Good s → Good u
  stays s u same h = subst Good (sym same) h

  call_push-Inv :
      (s : System A) (v : A) (p : Producer A) (ys : List A)
      → s.producer ≡ p
      → Inv c s p s.consumer ys
      → Good (act c s (call_push v))
  unfolding act
  call_push-Inv s v (push_returned b) ys e h =
      let t = begin_push-Inv c s b s.consumer ys v h in
      let u : System A = record s { producer = begin_push c s.ring v } in
      let result : act c s (call_push v) ≡ u = ground (arith, e) in
      subst Good (sym result) (
        ys,
        record { indices = t.indices; contents = t.contents; order = t.order; sound = t.sound },
      )
  call_push-Inv s v (rereading w) ys e h =
      stays s (act c s (call_push v)) (ground (arith, e))
        (ys, subst (λ p. Inv c s p s.consumer ys) (sym e) h)
  call_push-Inv s v (constructing w) ys e h =
      stays s (act c s (call_push v)) (ground (arith, e))
        (ys, subst (λ p. Inv c s p s.consumer ys) (sym e) h)
  call_push-Inv s v (publishing w) ys e h =
      stays s (act c s (call_push v)) (ground (arith, e))
        (ys, subst (λ p. Inv c s p s.consumer ys) (sym e) h)

  call_pop-Inv :
      (s : System A) (k : Consumer A) (ys : List A)
      → s.consumer ≡ k
      → Inv c s s.producer k ys
      → Good (act c s call_pop)
  unfolding act
  call_pop-Inv s (pop_returned o) ys e h =
      let t = begin_pop-Inv c s o s.producer ys h in
      let u : System A = record s { consumer = begin_pop c s.ring } in
      let result : act c s call_pop ≡ u = ground (arith, e) in
      subst Good (sym result) (
        ys,
        record { indices = t.indices; contents = t.contents; order = t.order; sound = t.sound },
      )
  call_pop-Inv s reloading ys e h =
      stays s (act c s call_pop) (ground (arith, e))
        (ys, subst (λ k. Inv c s s.producer k ys) (sym e) h)
  call_pop-Inv s moving ys e h =
      stays s (act c s call_pop) (ground (arith, e))
        (ys, subst (λ k. Inv c s s.producer k ys) (sym e) h)
  call_pop-Inv s (releasing w) ys e h =
      stays s (act c s call_pop) (ground (arith, e))
        (ys, subst (λ k. Inv c s s.producer k ys) (sym e) h)

  -- The other thread stays where it is.
  produced-consumer : (s : System A) (p : Producer A) → (produced c s p).consumer ≡ s.consumer
  unfolding produced
  produced-consumer s (push_returned b) = refl
  produced-consumer s (rereading v) = refl
  produced-consumer s (constructing v) = refl
  produced-consumer s (publishing v) = refl

  consumed-producer : (s : System A) (k : Consumer A) → (consumed c s k).producer ≡ s.producer
  unfolding consumed
  consumed-producer s (pop_returned o) = refl
  consumed-producer s reloading = refl
  consumed-producer s moving = elim (Option-cases (s.ring.storage s.ring.read_index)) [
    | inl dead ↦ ground (arith, dead)
    | inr (v, alive) ↦ ground (arith, alive)
  ]
  consumed-producer s (releasing v) = refl

  act-Good : (s : System A) (a : Action A) → Good s → Good (act c s a)
  unfolding act
  act-Good s (call_push v) (ys, h) = call_push-Inv s v s.producer ys refl h
  act-Good s produce (ys, h) =
      let u = produced c s s.producer in
      let (zs, t) = produced-Inv c s s.producer s.consumer ys refl h in
      (zs, subst (λ k. Inv c u u.producer k zs) (sym (produced-consumer s s.producer)) t)
  act-Good s call_pop (ys, h) = call_pop-Inv s s.consumer ys refl h
  act-Good s consume (ys, h) =
      let u = consumed c s s.consumer in
      let (zs, t) = consumed-Inv c s s.producer s.consumer ys refl h in
      (zs, subst (λ p. Inv c u p u.consumer zs) (sym (consumed-producer s s.consumer)) t)

  run-Good : (s : System A) (as' : List (Action A)) → Good s → Good (run c s as')
  unfolding run
  run-Good s [] h = h
  run-Good s (a ∷ as') h = run-Good (act c s a) as' (act-Good s a h)

  new_system-Inv : 0 < c → Inv {A = A} c new_system (push_returned true) (pop_returned none) []
  unfolding new_system new_ring entry
  new_system-Inv some' = record {
    indices = record {
      write_small = some';
      read_small = some';
      cached_read_small = some';
      cached_write_small = some';
      span = (some', inl refl);
      behind = (0, (some', inl refl), omega arith, omega (arith, some'));
      ahead = (0, (some', inl refl), omega arith, omega arith);
    };
    contents = λ k i below after. refl;
    order = refl;
    sound = refl;
  }

  -- No thread touches an object that is not its own; the values that `pop` has returned are the
  -- first of those that `push` has put in; and the others fit the queue.
  pub record Fifo (s : System A) : Type 0 where
    pub sound : s.fault ≡ false
    pub rest : List A
    pub order : s.pushed ≡ s.popped ++ rest
    pub fits : length rest < c

  Inv-Fifo : (s : System A) → Good s → Fifo s
  Inv-Fifo s (ys, h) = record {
    sound = h.sound;
    rest = held s.consumer ++ ys;
    order = h.order;
    fits = h.indices.span.0;
  }

  -- From a new queue of any capacity above 0, after any interleaving of the steps of the two
  -- threads: no thread has constructed an object over one that is alive or moved from one that is
  -- not; the values that `pop` has returned are, in order, the first of those that `push` has put
  -- in; and the others are fewer than the capacity.
  pub run-Fifo : (as' : List (Action A)) → 0 < c → Fifo (run c new_system as')
  unfolding new_system
  run-Fifo as' some' =
      Inv-Fifo (run c new_system as') (run-Good new_system as' ([], new_system-Inv some'))
