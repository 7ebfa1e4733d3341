-- ===== src/Feed/Starts.antt =====
-- The loops of `start` and `runQueued` of feed_handler/MoldItchFeedHandler.cpp.
use mathlib.Core.Path.{subst}
use low_latency_trading.Base.{
  ℕ, zero, suc, ◌<◌, ◌^◌, ◌≡◌, ◌≢◌, refl, sym, Bool, true, false, List, [], ◌∷◌, All, inr, arith,
  take,
}
use low_latency_trading.Itch.Messages.{ItchMessage}
use low_latency_trading.Feed.Types.{SequenceCheckResult, process, ignore, SequencedItchMessage}
use low_latency_trading.Feed.MoldItch.{Feed, finish_lifecycle, process_datagram}
use low_latency_trading.Feed.Loops.{
  Poll, received, nothing, stopping, QueuePoll, popped, stopped_receiver, running_receiver,
  stop_request, looped, start_loop, queued_loop,
}
use low_latency_trading.Feed.Progress.{Run}
use low_latency_trading.Feed.Runs.{
  heard, heard_queue, Fits, Starts, State, Result, finish-Result, stopped-Result, datagram-Result,
}

module _ (From : SequencedItchMessage → Type 0) {M : Type 0} (deliver : M → ItchMessage → M)
    (recover : ℕ → ℕ → SequenceCheckResult × List SequencedItchMessage)
    (sound : (e r : ℕ) (xs : List SequencedItchMessage)
      → r < 2 ^ 64
      → recover e r ≡ (process, xs)
      → Run e xs r × All From xs)
    (forward : (e r : ℕ) (xs : List SequencedItchMessage) → e < r → recover e r ≢ (ignore, xs))
    (m : M) (e : ℕ) where
  start_loop-stopped :
      (n : ℕ) (f : Feed M) (ps : List Poll)
      → f.is_running ≡ false
      → start_loop deliver recover n f ps ≡ finish_lifecycle deliver recover f
  unfolding start_loop
  start_loop-stopped zero f ps off = refl
  start_loop-stopped (suc n) f [] off = ground (arith, off)
  start_loop-stopped (suc n) f (p ∷ ps) off = ground (arith, off)

  pub start_loop-Result :
      (n : ℕ) (k : Bool) (f : Feed M) (ps : List Poll)
      → f.is_running ≡ true
      → All (Fits From deliver recover sound forward m e) (take n (heard ps))
      → Starts From deliver recover sound forward m e k (take n (heard ps))
      → State From deliver recover sound forward m e k f
      → Result From deliver recover sound forward m e k
          (take n (heard ps))
          f
          (start_loop deliver recover n f ps)
  unfolding start_loop
  start_loop-Result zero k f ps on fits at st =
      finish-Result From deliver recover sound forward m e k f st
  start_loop-Result (suc n) k f [] on fits at st =
      let result : start_loop deliver recover (suc n) f [] ≡ f = ground (arith, on) in
      subst (Result From deliver recover sound forward m e k [] f) (sym result)
        (inr (st, tt, omega arith))
  start_loop-Result (suc n) k f (received s ∷ ps) on (fit, fits) at st =
      let result : start_loop deliver recover (suc n) f (received s ∷ ps)
          ≡ looped deliver recover (process_datagram deliver recover f s)
              (λ g. start_loop deliver recover n g ps) =
        ground (arith, on) in
      subst (Result From deliver recover sound forward m e k (s ∷ take n (heard ps)) f) (sym result)
        (datagram-Result From deliver recover sound forward m e k (take n (heard ps)) s f true
          (λ g. start_loop deliver recover n g ps) on fit at st
          (λ g on' live. start_loop-Result n true g ps on' fits tt live))
  start_loop-Result (suc n) k f (nothing ∷ ps) on fits at st =
      let result : start_loop deliver recover (suc n) f (nothing ∷ ps)
          ≡ start_loop deliver recover (suc n) f ps =
        ground (arith, on) in
      subst (Result From deliver recover sound forward m e k (take (suc n) (heard ps)) f)
        (sym result) (start_loop-Result (suc n) k f ps on fits at st)
  start_loop-Result (suc n) k f (stopping ∷ ps) on fits at st =
      let u : Feed M = record f { is_running = false } in
      let result : start_loop deliver recover (suc n) f (stopping ∷ ps)
          ≡ start_loop deliver recover (suc n) u ps =
        ground (arith, on) in
      subst (Result From deliver recover sound forward m e k [] f) (sym result) (
        subst (Result From deliver recover sound forward m e k [] f)
          (sym (start_loop-stopped (suc n) u ps refl))
          (stopped-Result From deliver recover sound forward m e k f st))

  stopped :
      (k : Bool) (f : Feed M)
      → State From deliver recover sound forward m e k f
      → State From deliver recover sound forward m e k (record f { is_running = false })
  stopped true f st = st
  stopped false f st = st

  pub queued_loop-Result :
      (b k : Bool) (f : Feed M) (ps : List QueuePoll)
      → f.is_running ≡ b
      → All (Fits From deliver recover sound forward m e) (heard_queue b ps)
      → Starts From deliver recover sound forward m e k (heard_queue b ps)
      → State From deliver recover sound forward m e k f
      → Result From deliver recover sound forward m e k
          (heard_queue b ps)
          f
          (queued_loop deliver recover f ps)
  unfolding queued_loop
  queued_loop-Result b k f [] on fits at st = inr (st, tt, omega arith)
  queued_loop-Result b k f (popped s ∷ ps) on (fit, fits) at st =
      datagram-Result From deliver recover sound forward m e k (heard_queue b ps) s f b
        (λ g. queued_loop deliver recover g ps) on fit at st
        (λ g on' live. queued_loop-Result b true g ps on' fits tt live)
  queued_loop-Result b k f (stopped_receiver true ∷ ps) on fits at st =
      finish-Result From deliver recover sound forward m e k f st
  queued_loop-Result b k f (stopped_receiver false ∷ ps) on fits at st =
      queued_loop-Result b k f ps on fits at st
  queued_loop-Result true k f (running_receiver ∷ ps) on fits at st =
      let result : queued_loop deliver recover f (running_receiver ∷ ps)
          ≡ queued_loop deliver recover f ps =
        ground (arith, on) in
      subst (Result From deliver recover sound forward m e k (heard_queue true ps) f) (sym result)
        (queued_loop-Result true k f ps on fits at st)
  queued_loop-Result false k f (running_receiver ∷ ps) on fits at st =
      let result : queued_loop deliver recover f (running_receiver ∷ ps)
          ≡ finish_lifecycle deliver recover f =
        ground (arith, on) in
      subst (Result From deliver recover sound forward m e k [] f) (sym result)
        (finish-Result From deliver recover sound forward m e k f st)
  queued_loop-Result b k f (stop_request ∷ ps) on fits at st =
      queued_loop-Result false k (record f { is_running = false }) ps refl fits at (stopped k f st)
