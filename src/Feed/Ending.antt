-- ===== src/Feed/Ending.antt =====
-- The ends of `run`, `start` and `runQueued` of feed_handler/MoldItchFeedHandler.cpp, with the
-- recovery of moldudp64/MoldItchSequenceRecovery.cpp.
use mathlib.Core.List.Memᴰ
use mathlib.Core.List.{Memᴰ}
use low_latency_trading.Base.{
  ℕ, zero, suc, ◌≤◌, ◌≡◌, ◌⊎◌, refl, true, false, Option, List, [], ◌∷◌, All, inl, inr, take, arith,
}
use low_latency_trading.Mold.Codec.{Span, read_u64}
use low_latency_trading.Itch.Messages.{ItchMessage}
use low_latency_trading.Feed.Types.{failed, SequencedItchMessage}
use low_latency_trading.Feed.MoldItch.{Feed, start_lifecycle}
use low_latency_trading.Feed.Loops.{Poll, QueuePoll, run, start, run_queued}
use low_latency_trading.Feed.Progress.{Progress, Sourced, Unwrapped, All-of, items, wire}
use low_latency_trading.Feed.Sources.{recover, recover-Sourced, recover-forward}
use low_latency_trading.Feed.Runs.{
  heard, heard_queue, end_number, Fits, Starts, Result, run_loop-Result,
}
use low_latency_trading.Feed.Starts.{start_loop-Result, queued_loop-Result}

All-take : {A : Type 0} (P : A → Type 0) (n : ℕ) (xs : List A) → All P xs → All P (take n xs)
All-take P zero xs h = tt
All-take P (suc n) [] h = tt
All-take P (suc n) (x ∷ xs) (a, h) = (a, All-take P n xs h)

-- The number of the first datagram.
abbrev first_number : List Span → ℕ
first_number [] = 0
first_number (d ∷ ds) = read_u64 d.bytes 10

module _ {M : Type 0} (deliver : M → ItchMessage → M)
    (source : ℕ → ℕ → Option (List SequencedItchMessage)) where
  -- The market has gone from `m` to `w`, from the first number of the datagrams up to `r`, by
  -- messages of the datagrams and of the source, each with the number that it came with.
  abbrev pub Carried : M → List Span → M → ℕ → Type 0
  Carried m ds w r = Progress deliver (Sourced source (wire ds)) m (first_number ds) w r

  -- Without a datagram nothing is delivered. Otherwise the handler has failed after the messages
  -- up to some number, or it has delivered those up to the next expected number, and no number of
  -- the datagrams is left.
  abbrev pub Ended : M → List Span → Feed M → Type 0
  Ended m [] h = (h.has_sequence ≡ false) × (h.market ≡ m)
  Ended m (d ∷ ds) h =
      ((h.state ≡ failed) × ((r : ℕ) × Carried m (d ∷ ds) h.market r))
      ⊎ ((h.has_sequence ≡ true)
          × Carried m (d ∷ ds) h.market h.expected_sequence
          × All (λ s. end_number s ≤ h.expected_sequence) (d ∷ ds))

  abbrev Ending : M → List Span → Feed M → Feed M → Type 0
  Ending m ds f h =
      Result (Sourced source (wire ds)) deliver (recover source) (recover-Sourced source (wire ds))
        (recover-forward source) m (first_number ds) false ds f h

  abbrev Fitting : M → List Span → Span → Type 0
  Fitting m ds =
      Fits (Sourced source (wire ds)) deliver (recover source) (recover-Sourced source (wire ds))
        (recover-forward source) m (first_number ds)

  Ending-Ended : (m : M) (ds : List Span) (f h : Feed M) → Ending m ds f h → Ended m ds h
  Ending-Ended m [] f h (inl (known, bad, r)) = ground (arith, known)
  Ending-Ended m [] f h (inr ((none', zero', same), passed, above)) = (none', same)
  Ending-Ended m (d ∷ ds) f h (inl (known, bad, r)) = inl (bad, r)
  Ending-Ended m (d ∷ ds) f h (inr ((has, p), passed, above)) = inr (has, p, passed)

  -- Each message of the datagrams is one of the wire.
  members :
      (ds : List Span) (ws : List SequencedItchMessage)
      → All Unwrapped ds
      → ((x : SequencedItchMessage) → Memᴰ x (wire ds) → Memᴰ x ws)
      → All (λ s. Unwrapped s × All (Sourced source ws) (items s)) ds
  members [] ws small h = tt
  members (d ∷ ds) ws (a, small) h = (
    (a, All-of (Sourced source ws) (items d) (λ x k. inl (h x (Memᴰ.append_left (wire ds) k)))),
    members ds ws small (λ x k. h x (Memᴰ.append_right (items d) k)),
  )

  fitting : (m : M) (ds : List Span) → All Unwrapped ds → All (Fitting m ds) ds
  fitting m ds small = members ds (wire ds) small (λ x k. k)

  starting :
      (m : M) (ds : List Span)
      → Starts
          (Sourced source (wire ds))
          deliver
          (recover source)
          (recover-Sourced source (wire ds))
          (recover-forward source)
          m
          (first_number ds)
          false
          ds
  starting m [] = tt
  starting m (d ∷ ds) = refl

  run-Ended :
      (f : Feed M) (ps : List Poll)
      → All Unwrapped (heard ps)
      → Ended f.market (heard ps) (run deliver (recover source) f ps)
  unfolding run start_lifecycle
  run-Ended f ps small =
      let ds = heard ps in
      let g = start_lifecycle deliver (recover source) f in
      Ending-Ended f.market ds g (run deliver (recover source) f ps) (
        run_loop-Result (Sourced source (wire ds)) deliver (recover source)
          (recover-Sourced source (wire ds)) (recover-forward source) f.market (first_number ds)
          false g ps refl (fitting f.market ds small) (starting f.market ds) (refl, refl, refl))

  start-Ended :
      (n : ℕ) (f : Feed M) (ps : List Poll)
      → All Unwrapped (heard ps)
      → Ended f.market (take n (heard ps)) (start deliver (recover source) n f ps)
  unfolding start start_lifecycle
  start-Ended n f ps small =
      let ds = take n (heard ps) in
      let g = start_lifecycle deliver (recover source) f in
      Ending-Ended f.market ds g (start deliver (recover source) n f ps) (
        start_loop-Result (Sourced source (wire ds)) deliver (recover source)
          (recover-Sourced source (wire ds)) (recover-forward source) f.market (first_number ds) n
          false g ps refl (fitting f.market ds (All-take Unwrapped n (heard ps) small))
          (starting f.market ds) (refl, refl, refl))

  run_queued-Ended :
      (f : Feed M) (ps : List QueuePoll)
      → All Unwrapped (heard_queue true ps)
      → Ended f.market (heard_queue true ps) (run_queued deliver (recover source) f ps)
  unfolding run_queued start_lifecycle
  run_queued-Ended f ps small =
      let ds = heard_queue true ps in
      let g = start_lifecycle deliver (recover source) f in
      Ending-Ended f.market ds g (run_queued deliver (recover source) f ps) (
        queued_loop-Result (Sourced source (wire ds)) deliver (recover source)
          (recover-Sourced source (wire ds)) (recover-forward source) f.market (first_number ds)
          true false g ps refl (fitting f.market ds small) (starting f.market ds)
          (refl, refl, refl))

  -- Over any source of lost messages and from any earlier state of the handler, when the sequence
  -- numbers of no datagram wrap around: `run`, for the datagrams before a call of `stop()`,
  -- `start`, for the first of these up to a given number, and `runQueued`, for the datagrams that
  -- it pops, each change nothing in the market and have no sequence number if there is no
  -- datagram. Otherwise the market has gone on by messages whose numbers follow each other from
  -- the first number of the first datagram, each delivered once, and each is a message of those
  -- datagrams with its number there or one that the source returned with that number. Either the
  -- handler has failed after the messages up to some number; or the numbers go up to the next one
  -- that the handler expects, and it is not below the number after the last of any datagram.
  pub loops-Ended :
      (f : Feed M) (n : ℕ) (ps : List Poll) (qs : List QueuePoll)
      → All Unwrapped (heard ps)
      → All Unwrapped (heard_queue true qs)
      → Ended f.market (heard ps) (run deliver (recover source) f ps)
        × Ended f.market (take n (heard ps)) (start deliver (recover source) n f ps)
        × Ended f.market (heard_queue true qs) (run_queued deliver (recover source) f qs)
  loops-Ended f n ps qs h k = (run-Ended f ps h, start-Ended n f ps h, run_queued-Ended f qs k)
