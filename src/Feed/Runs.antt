-- ===== src/Feed/Runs.antt =====
-- The loops of feed_handler/MoldItchFeedHandler.cpp: `run`, and the rounds of all three.
use mathlib.Core.Path.{subst}
use low_latency_trading.Base.{
  ℕ, ◌+◌, ◌≤◌, ◌<◌, ◌^◌, ◌≡◌, ◌≢◌, ◌⊎◌, refl, sym, Bool, true, false, List, [], ◌∷◌, All, inl, inr,
  arith, u64,
}
use low_latency_trading.Mold.Codec.{Span, read_u16, read_u64}
use low_latency_trading.Itch.Messages.{ItchMessage}
use low_latency_trading.Feed.Types.{
  failed, SequenceCheckResult, process, ignore, SequencedItchMessage,
}
use low_latency_trading.Feed.MoldItch.{Feed, finish_lifecycle, process_datagram}
use low_latency_trading.Feed.Loops.{
  Poll, received, nothing, stopping, QueuePoll, popped, stopped_receiver, running_receiver,
  stop_request, looped, run_loop,
}
use low_latency_trading.Feed.Progress.{Run, Fresh, Live, Halted, Current, Outcome, Unwrapped, items}
use low_latency_trading.Feed.Delivery.{process_datagram-Outcome}

-- The datagrams that come before the first call of `stop()`.
abbrev pub heard : List Poll → List Span
heard [] = []
heard (received s ∷ ps) = s ∷ heard ps
heard (nothing ∷ ps) = heard ps
heard (stopping ∷ ps) = []

-- The datagrams that `runQueued` pops: until the receiver has stopped and the queue is empty, or
-- the queue is found empty after a call of `stop()`.
abbrev pub heard_queue : Bool → List QueuePoll → List Span
heard_queue b [] = []
heard_queue b (popped s ∷ ps) = s ∷ heard_queue b ps
heard_queue b (stopped_receiver true ∷ ps) = []
heard_queue b (stopped_receiver false ∷ ps) = heard_queue b ps
heard_queue true (running_receiver ∷ ps) = heard_queue true ps
heard_queue false (running_receiver ∷ ps) = []
heard_queue b (stop_request ∷ ps) = heard_queue false ps

-- The number after the last of the datagram.
abbrev pub end_number : Span → ℕ
end_number s = read_u64 s.bytes 10 + read_u16 s.bytes 18

-- Whether a number is known after the datagrams.
abbrev pub begun : Bool → List Span → Bool
begun k [] = k
begun k (s ∷ ss) = true

pub begun-true : (ss : List Span) → begun true ss ≡ true
begun-true [] = refl
begun-true (s ∷ ss) = refl

module _ (From : SequencedItchMessage → Type 0) {M : Type 0} (deliver : M → ItchMessage → M)
    (recover : ℕ → ℕ → SequenceCheckResult × List SequencedItchMessage)
    (sound : (e r : ℕ) (xs : List SequencedItchMessage)
      → r < 2 ^ 64
      → recover e r ≡ (process, xs)
      → Run e xs r × All From xs)
    (forward : (e r : ℕ) (xs : List SequencedItchMessage) → e < r → recover e r ≢ (ignore, xs))
    (m : M) (e : ℕ) where
  abbrev pub Fits : Span → Type 0
  Fits s = Unwrapped s × All From (items s)

  -- The first number is that of the first datagram.
  abbrev pub Starts : Bool → List Span → Type 0
  Starts true ss = Unit {0}
  Starts false [] = Unit {0}
  Starts false (s ∷ ss) = e ≡ read_u64 s.bytes 10

  abbrev pub State : Bool → Feed M → Type 0
  State true f = Live deliver From m e f
  State false f = Fresh deliver From m f

  -- Failed and halted, or all the datagrams are processed and their numbers passed.
  abbrev pub Result : Bool → List Span → Feed M → Feed M → Type 0
  Result k ss f h =
      ((begun k ss ≡ true) × (h.state ≡ failed) × Halted deliver From m e h)
      ⊎ (State (begun k ss) h
          × All (λ s. end_number s ≤ h.expected_sequence) ss
          × (f.expected_sequence ≤ h.expected_sequence))

  State-Current :
      (k : Bool) (f : Feed M) (s : Span) (ss : List Span)
      → State k f
      → Starts k (s ∷ ss)
      → Current deliver From m e (read_u64 s.bytes 10) f
  State-Current true f s ss h at = inr h
  State-Current false f s ss h at = inl (h, at)

  pub finish-Result :
      (k : Bool) (f : Feed M) → State k f → Result k [] f (finish_lifecycle deliver recover f)
  unfolding finish_lifecycle
  finish-Result true f h = inr (h, tt, omega arith)
  finish-Result false f h = inr (h, tt, omega arith)

  pub stopped-Result :
      (k : Bool) (f : Feed M)
      → State k f
      → Result k [] f (finish_lifecycle deliver recover (record f { is_running = false }))
  unfolding finish_lifecycle
  stopped-Result true f h = inr (h, tt, omega arith)
  stopped-Result false f h = inr (h, tt, omega arith)

  looped-Result :
      (k : Bool) (ss : List Span) (s : Span) (f : Feed M) (b : Bool × Feed M) (run : Bool)
      (next : Feed M → Feed M)
      → Outcome deliver From m e (end_number s) f.expected_sequence run b
      → ((g : Feed M) → g.is_running ≡ run → Live deliver From m e g → Result true ss g (next g))
      → Result k (s ∷ ss) f (looped deliver recover b next)
  unfolding looped finish_lifecycle
  looped-Result k ss s f (false, g) run next c h = inl (refl, refl, c)
  looped-Result k ss s f (true, g) run next (live, passed, above, same) h =
      let g' : Feed M = record g { processed_datagrams = u64 (g.processed_datagrams + 1) } in
      elim (h g' same live) [
        | inl (known, bad, r) ↦ inl (refl, bad, r)
        | inr (st, caught, grows) ↦ inr (
          subst (λ k. State k (next g')) (begun-true ss) st,
          (omega (arith, passed, grows), caught),
          omega (arith, above, grows),
        )
      ]

  pub datagram-Result :
      (k : Bool) (ss : List Span) (s : Span) (f : Feed M) (run : Bool) (next : Feed M → Feed M)
      → f.is_running ≡ run
      → Fits s
      → Starts k (s ∷ ss)
      → State k f
      → ((g : Feed M) → g.is_running ≡ run → Live deliver From m e g → Result true ss g (next g))
      → Result k (s ∷ ss) f (looped deliver recover (process_datagram deliver recover f s) next)
  datagram-Result k ss s f run next on (small, from) at st h =
      let c =
        process_datagram-Outcome From deliver recover sound forward m e f s small from
          (State-Current k f s ss st at) in
      looped-Result k ss s f (process_datagram deliver recover f s) run next
        (subst
          (λ r.
            Outcome deliver From m e (end_number s) f.expected_sequence r
              (process_datagram deliver recover f s))
          on c)
        h

  run_loop-stopped :
      (f : Feed M) (ps : List Poll)
      → f.is_running ≡ false
      → run_loop deliver recover f ps ≡ finish_lifecycle deliver recover f
  unfolding run_loop
  run_loop-stopped f [] off = ground (arith, off)
  run_loop-stopped f (p ∷ ps) off = ground (arith, off)

  pub run_loop-Result :
      (k : Bool) (f : Feed M) (ps : List Poll)
      → f.is_running ≡ true
      → All Fits (heard ps)
      → Starts k (heard ps)
      → State k f
      → Result k (heard ps) f (run_loop deliver recover f ps)
  unfolding run_loop
  run_loop-Result k f [] on fits at st =
      let result : run_loop deliver recover f [] ≡ f = ground (arith, on) in
      subst (Result k [] f) (sym result) (inr (st, tt, omega arith))
  run_loop-Result k f (received s ∷ ps) on (fit, fits) at st =
      let result : run_loop deliver recover f (received s ∷ ps)
          ≡ looped deliver recover (process_datagram deliver recover f s)
              (λ g. run_loop deliver recover g ps) =
        ground (arith, on) in
      subst (Result k (s ∷ heard ps) f) (sym result) (
        datagram-Result k (heard ps) s f true (λ g. run_loop deliver recover g ps) on fit at st
          (λ g on' live. run_loop-Result true g ps on' fits tt live))
  run_loop-Result k f (nothing ∷ ps) on fits at st =
      let result : run_loop deliver recover f (nothing ∷ ps) ≡ run_loop deliver recover f ps =
        ground (arith, on) in
      subst (Result k (heard ps) f) (sym result) (run_loop-Result k f ps on fits at st)
  run_loop-Result k f (stopping ∷ ps) on fits at st =
      let u : Feed M = record f { is_running = false } in
      let result : run_loop deliver recover f (stopping ∷ ps) ≡ run_loop deliver recover u ps =
        ground (arith, on) in
      subst (Result k [] f) (sym result)
        (subst (Result k [] f) (sym (run_loop-stopped u ps refl)) (stopped-Result k f st))
