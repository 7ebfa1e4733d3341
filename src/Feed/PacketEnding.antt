-- ===== src/Feed/PacketEnding.antt =====
-- The ends of `run` and `start` of feed_handler/ItchFeedHandler.cpp, with the recovery of
-- itch/ItchSequenceRecovery.cpp.
use mathlib.Core.List.{Memᴰ}
use low_latency_trading.Base.{
  ℕ, zero, suc, ◌+◌, ◌<◌, ◌^◌, ◌≡◌, ◌⊎◌, refl, Bool, true, false, Option, List, [], ◌∷◌, All, inl,
  inr, arith, ltb, if◌then◌else◌,
}
use low_latency_trading.Itch.Messages.{ItchMessage}
use low_latency_trading.Feed.Types.{failed}
use low_latency_trading.Feed.Progress.{Progress, Sourced}
use low_latency_trading.Feed.Sources.{recover, recover-Sourced, recover-forward}
use low_latency_trading.Feed.Packets.{
  PacketFeed, ItchUdpPacket, PacketPoll, start_lifecycle, run, start,
}
use low_latency_trading.Feed.PacketRuns.{
  heard, counted, Fits, Starts, Result, run_loop-Result, start_loop-Result,
}

-- The sequence number of the packet does not wrap around.
abbrev pub Unwrapped : ItchUdpPacket → Type 0
Unwrapped x = x.sequence + 1 < 2 ^ 64

All-branch :
    (b : Bool) (xs ys : List ItchUdpPacket)
    → All Unwrapped xs
    → All Unwrapped ys
    → All Unwrapped (if b then xs else ys)
All-branch true xs ys h k = h
All-branch false xs ys h k = k

-- The number of the first packet.
abbrev first_number : List ItchUdpPacket → ℕ
first_number [] = 0
first_number (x ∷ xs) = x.sequence

module _ {M : Type 0} (deliver : M → ItchMessage → M)
    (source : ℕ → ℕ → Option (List ItchUdpPacket)) where
  -- The market has gone from `m` to `w`, from the first number of the packets up to `r`, by
  -- packets of the list and of the source, each with the number that it came with.
  abbrev pub Carried : M → List ItchUdpPacket → M → ℕ → Type 0
  Carried m xs w r = Progress deliver (Sourced source xs) m (first_number xs) w r

  -- Without a packet nothing is delivered. Otherwise the handler has failed after the packets up
  -- to some number, or it has delivered those up to the next expected number, and no number of
  -- the packets is left.
  abbrev pub Ended : M → List ItchUdpPacket → PacketFeed M → Type 0
  Ended m [] h = (h.has_sequence ≡ false) × (h.market ≡ m)
  Ended m (x ∷ xs) h =
      ((h.state ≡ failed) × ((r : ℕ) × Carried m (x ∷ xs) h.market r))
      ⊎ ((h.has_sequence ≡ true)
          × Carried m (x ∷ xs) h.market h.expected_sequence
          × All (λ y. y.sequence < h.expected_sequence) (x ∷ xs))

  Result-Ended :
      (m : M) (xs : List ItchUdpPacket) (f h : PacketFeed M)
      → Result (Sourced source xs) deliver m (first_number xs) false xs f h
      → Ended m xs h
  Result-Ended m [] f h (inl (known, bad, r)) = ground (arith, known)
  Result-Ended m [] f h (inr ((none', zero', same), passed, above)) = (none', same)
  Result-Ended m (x ∷ xs) f h (inl (known, bad, r)) = inl (bad, r)
  Result-Ended m (x ∷ xs) f h (inr ((has, p), passed, above)) = inr (has, p, passed)

  members :
      (m : M) (e : ℕ) (xs ws : List ItchUdpPacket)
      → All Unwrapped xs
      → ((x : ItchUdpPacket) → Memᴰ x xs → Memᴰ x ws)
      → All (Fits (Sourced source ws) deliver m e) xs
  members m e [] ws small h = tt
  members m e (x ∷ xs) ws (a, small) h =
      ((a, inl (h x (Memᴰ.head refl))), members m e xs ws small (λ y k. h y (Memᴰ.tail k)))

  starting :
      (m : M) (xs : List ItchUdpPacket)
      → Starts (Sourced source xs) deliver m (first_number xs) false xs
  starting m [] = tt
  starting m (x ∷ xs) = refl

  All-counted :
      (n k : ℕ) (xs : List ItchUdpPacket) → All Unwrapped xs → All Unwrapped (counted n k xs)
  All-counted zero k xs h = tt
  All-counted (suc n) k [] h = tt
  All-counted (suc n) k (x ∷ xs) (a, h) = (
    a,
    All-branch (ltb x.sequence k) (counted (suc n) k xs) (counted n (x.sequence + 1) xs)
        (All-counted (suc n) k xs h) (All-counted n (x.sequence + 1) xs h),
  )

  run-Ended :
      (f : PacketFeed M) (ps : List PacketPoll)
      → All Unwrapped (heard ps)
      → Ended f.market (heard ps) (run deliver (recover source) f ps)
  unfolding run start_lifecycle
  run-Ended f ps small =
      let xs = heard ps in
      Result-Ended f.market xs (start_lifecycle f) (run deliver (recover source) f ps) (
        run_loop-Result (Sourced source xs) deliver f.market (first_number xs) (recover source)
          (recover-Sourced source xs) (recover-forward source) false (start_lifecycle f) ps refl
          (members f.market (first_number xs) xs xs small (λ x k. k)) (starting f.market xs)
          (refl, refl, refl))

  start-Ended :
      (n : ℕ) (f : PacketFeed M) (ps : List PacketPoll)
      → All Unwrapped (heard ps)
      → Ended f.market (counted n 0 (heard ps)) (start deliver (recover source) n f ps)
  unfolding start start_lifecycle
  start-Ended n f ps small =
      let xs = counted n 0 (heard ps) in
      Result-Ended f.market xs (start_lifecycle f) (start deliver (recover source) n f ps) (
        start_loop-Result (Sourced source xs) deliver f.market (first_number xs) (recover source)
          (recover-Sourced source xs) (recover-forward source) n false (start_lifecycle f) ps refl
          (members f.market (first_number xs) xs xs (All-counted n 0 (heard ps) small) (λ x k. k))
          (starting f.market xs) (refl, refl, refl))

  -- Over any source of lost packets and from any earlier state of the handler of packets, when the
  -- number of no packet is the last of 64 bits: `run`, for the packets before a call of `stop()`,
  -- and `start`, for the first of these up to the last that it counts, where a packet counts
  -- unless its number is below the one expected then, change nothing in the market and have no
  -- sequence number if there is no packet. Otherwise the market has gone on by packets whose
  -- numbers follow each other from that of the first, each delivered once, and each is one of
  -- those packets or one that the source returned with that number. Either the handler has failed
  -- after the packets up to some number; or the numbers go up to the next one that the handler
  -- expects, and it is above the number of each packet.
  pub packet_loops-Ended :
      (f : PacketFeed M) (n : ℕ) (ps : List PacketPoll)
      → All Unwrapped (heard ps)
      → Ended f.market (heard ps) (run deliver (recover source) f ps)
        × Ended f.market (counted n 0 (heard ps)) (start deliver (recover source) n f ps)
  packet_loops-Ended f n ps h = (run-Ended f ps h, start-Ended n f ps h)
