-- ===== src/Feed/Loops.antt =====
-- The lifecycle loops of feed_handler/MoldItchFeedHandler.cpp: `start`, `run` and `runQueued`.
use low_latency_trading.Base.{ℕ, zero, suc, ◌+◌, Bool, true, false, List, [], ◌∷◌, u64}
use low_latency_trading.Mold.Codec.{Span}
use low_latency_trading.Itch.Messages.{ItchMessage}
use low_latency_trading.Feed.Types.{failed, SequenceCheckResult, SequencedItchMessage}
use low_latency_trading.Feed.MoldItch.{Feed, start_lifecycle, finish_lifecycle, process_datagram}

-- What a poll of the source brings: a datagram, nothing, or first a call of `stop()` by another
-- thread.
pub data Poll : Type 0 where
  received : Span → Poll
  nothing stopping : Poll

-- What a poll of the queue brings: a datagram; or nothing, and the receiver has stopped, with the
-- second look at the queue, or is running; or first a call of `stop()`.
pub data QueuePoll : Type 0 where
  popped : Span → QueuePoll
  stopped_receiver : (empty : Bool) → QueuePoll
  running_receiver stop_request : QueuePoll

module _ {M : Type 0} (deliver : M → ItchMessage → M)
    (recover : ℕ → ℕ → SequenceCheckResult × List SequencedItchMessage) where
  -- The end of a round of the loop: on with the next, or out of it.
  unfoldable pub looped : Bool × Feed M → (Feed M → Feed M) → Feed M
  looped (true, f) k = k (record f { processed_datagrams = u64 (f.processed_datagrams + 1) })
  looped (false, f) k =
      finish_lifecycle deliver recover
        (record f { malformed_datagrams = u64 (f.malformed_datagrams + 1); state = failed })

  -- The loop of `run`, over what the polls bring; after the last the loop goes on polling.
  unfoldable pub run_loop : Feed M → List Poll → Feed M
  unfolding looped
  run_loop f [] = elim f.is_running [ true ↦ f | false ↦ finish_lifecycle deliver recover f ]
  run_loop f (p ∷ ps) = elim f.is_running [
    | false ↦ finish_lifecycle deliver recover f
    | true ↦ elim p [
      | received s ↦ looped (process_datagram deliver recover f s) (λ g. run_loop g ps)
      | nothing ↦ run_loop f ps
      | stopping ↦ run_loop (record f { is_running = false }) ps
    ]
  ]

  unfoldable pub run : Feed M → List Poll → Feed M
  unfolding run_loop
  run f ps = run_loop (start_lifecycle deliver recover f) ps

  -- The loop of `start`, for `n` more datagrams.
  unfoldable pub start_loop : ℕ → Feed M → List Poll → Feed M
  unfolding looped
  start_loop zero f ps = finish_lifecycle deliver recover f
  start_loop (suc n) f [] = elim f.is_running [
    | true ↦ f
    | false ↦ finish_lifecycle deliver recover f
  ]
  start_loop (suc n) f (p ∷ ps) = elim f.is_running [
    | false ↦ finish_lifecycle deliver recover f
    | true ↦ elim p [
      | received s ↦ looped (process_datagram deliver recover f s) (λ g. start_loop n g ps)
      | nothing ↦ start_loop (suc n) f ps
      | stopping ↦ start_loop (suc n) (record f { is_running = false }) ps
    ]
  ]

  unfoldable pub start : ℕ → Feed M → List Poll → Feed M
  unfolding start_loop
  start n f ps = start_loop n (start_lifecycle deliver recover f) ps

  -- The loop of `runQueued`.
  unfoldable pub queued_loop : Feed M → List QueuePoll → Feed M
  unfolding looped
  queued_loop f [] = f
  queued_loop f (popped s ∷ ps) =
      looped (process_datagram deliver recover f s) (λ g. queued_loop g ps)
  queued_loop f (stopped_receiver empty ∷ ps) = elim empty [
    | true ↦ finish_lifecycle deliver recover f
    | false ↦ queued_loop f ps
  ]
  queued_loop f (running_receiver ∷ ps) = elim f.is_running [
    | false ↦ finish_lifecycle deliver recover f
    | true ↦ queued_loop f ps
  ]
  queued_loop f (stop_request ∷ ps) = queued_loop (record f { is_running = false }) ps

  unfoldable pub run_queued : Feed M → List QueuePoll → Feed M
  unfolding queued_loop
  run_queued f ps = queued_loop (start_lifecycle deliver recover f) ps
