-- ===== src/Feed/PacketRuns.antt =====
-- The loops of feed_handler/ItchFeedHandler.cpp: `run` and `start`.
use mathlib.Core.Path.{subst}
use low_latency_trading.Base.{
  ℕ, zero, suc, ◌+◌, ◌≤◌, ◌<◌, ◌^◌, ◌≡◌, ◌≢◌, ◌⊎◌, refl, sym, Bool, true, false, List, [], ◌∷◌,
  arith, inl, inr, ltb, All, if◌then◌else◌,
}
use low_latency_trading.Itch.Messages.{ItchMessage}
use low_latency_trading.Feed.Types.{failed, SequenceCheckResult, process, ignore, stop}
use low_latency_trading.Feed.Progress.{Run}
use low_latency_trading.Feed.Packets.{
  PacketFeed, ItchUdpPacket, PacketPoll, received, nothing, stopping, finish_lifecycle, handle,
  looped, run_loop, start_loop,
}
use low_latency_trading.Feed.PacketChecks.{Fresh, Live, Halted, Current, Handled, handle-Handled}

-- The packets that come before the first call of `stop()`.
abbrev pub heard : List PacketPoll → List ItchUdpPacket
heard [] = []
heard (received x ∷ ps) = x ∷ heard ps
heard (nothing ∷ ps) = heard ps
heard (stopping ∷ ps) = []

-- The packets up to the one that is the `n`th with a number not below the one expected then,
-- which is `k` at first.
abbrev pub counted : ℕ → ℕ → List ItchUdpPacket → List ItchUdpPacket
counted zero k xs = []
counted (suc n) k [] = []
counted (suc n) k (x ∷ xs) =
    let old = counted (suc n) k xs in
    let new = counted n (x.sequence + 1) xs in x ∷ (if ltb x.sequence k then old else new)

-- Whether a number is known after the packets.
abbrev pub begun : Bool → List ItchUdpPacket → Bool
begun k [] = k
begun k (x ∷ xs) = true

begun-true : (xs : List ItchUdpPacket) → begun true xs ≡ true
begun-true [] = refl
begun-true (x ∷ xs) = refl

module _ (From : ItchUdpPacket → Type 0) {M : Type 0} (deliver : M → ItchMessage → M) (m : M)
    (e : ℕ) where
  abbrev pub Fits : ItchUdpPacket → Type 0
  Fits x = (x.sequence + 1 < 2 ^ 64) × From x

  -- The first number is that of the first packet.
  abbrev pub Starts : Bool → List ItchUdpPacket → Type 0
  Starts true xs = Unit {0}
  Starts false [] = Unit {0}
  Starts false (x ∷ xs) = e ≡ x.sequence

  abbrev pub State : Bool → PacketFeed M → Type 0
  State true f = Live From deliver m e f
  State false f = Fresh From deliver m e f

  -- Failed and halted, or all the packets are processed and their numbers passed.
  abbrev pub Result : Bool → List ItchUdpPacket → PacketFeed M → PacketFeed M → Type 0
  Result k xs f h =
      ((begun k xs ≡ true) × (h.state ≡ failed) × Halted From deliver m e h)
      ⊎ (State (begun k xs) h
          × All (λ x. x.sequence < h.expected_sequence) xs
          × (f.expected_sequence ≤ h.expected_sequence))

  State-Current :
      (k : Bool) (f : PacketFeed M) (x : ItchUdpPacket) (xs : List ItchUdpPacket)
      → State k f
      → Starts k (x ∷ xs)
      → Current From deliver m e x.sequence f
  State-Current true f x xs h at = inr h
  State-Current false f x xs h at = inl (h, at)

  finish-Result : (k : Bool) (f : PacketFeed M) → State k f → Result k [] f (finish_lifecycle f)
  unfolding finish_lifecycle
  finish-Result true f h = inr (h, tt, omega arith)
  finish-Result false f h = inr (h, tt, omega arith)

  stopped-Result :
      (k : Bool) (f : PacketFeed M)
      → State k f
      → Result k [] f (finish_lifecycle (record f { is_running = false }))
  unfolding finish_lifecycle
  stopped-Result true f h = inr (h, tt, omega arith)
  stopped-Result false f h = inr (h, tt, omega arith)

  -- A round before the others.
  round-Result :
      (k : Bool) (xs : List ItchUdpPacket) (x : ItchUdpPacket) (f g h : PacketFeed M)
      → x.sequence < g.expected_sequence
      → f.expected_sequence ≤ g.expected_sequence
      → Result true xs g h
      → Result k (x ∷ xs) f h
  round-Result k xs x f g h passed above (inl (known, bad, r)) = inl (refl, bad, r)
  round-Result k xs x f g h passed above (inr (st, caught, grows)) = inr (
    subst (λ b. State b h) (begun-true xs) st,
    (omega (arith, passed, grows), caught),
    omega (arith, above, grows),
  )

  module _ (recover : ℕ → ℕ → SequenceCheckResult × List ItchUdpPacket) where
    looped-Result :
        (k : Bool) (xs : List ItchUdpPacket) (x : ItchUdpPacket) (f : PacketFeed M)
        (b : SequenceCheckResult × PacketFeed M) (run : Bool)
        (skip more : PacketFeed M → PacketFeed M)
        → Handled From deliver m e x.sequence f.expected_sequence run b
        → ((g : PacketFeed M)
            → x.sequence < f.expected_sequence
            → g.expected_sequence ≡ f.expected_sequence
            → g.is_running ≡ run
            → Live From deliver m e g
            → Result true xs g (skip g))
        → ((g : PacketFeed M)
            → f.expected_sequence ≤ x.sequence
            → g.expected_sequence ≡ x.sequence + 1
            → g.is_running ≡ run
            → Live From deliver m e g
            → Result true xs g (more g))
        → Result k (x ∷ xs) f (looped deliver recover b skip more)
    unfolding looped finish_lifecycle
    looped-Result k xs x f (stop, g) run skip more (bad, h) s t = inl (refl, ground (arith, bad), h)
    looped-Result k xs x f (ignore, g) run skip more (live, old, next, same) s t =
        round-Result k xs x f g (skip g) (omega (arith, old, next)) (omega (arith, next))
          (s g old next same live)
    looped-Result k xs x f (process, g) run skip more (live, new, next, same) s t =
        round-Result k xs x f g (more g) (omega (arith, next)) (omega (arith, new, next))
          (t g new next same live)

    run_loop-stopped :
        (f : PacketFeed M) (ps : List PacketPoll)
        → f.is_running ≡ false
        → run_loop deliver recover f ps ≡ finish_lifecycle f
    unfolding run_loop
    run_loop-stopped f [] off = ground (arith, off)
    run_loop-stopped f (p ∷ ps) off = ground (arith, off)

    start_loop-stopped :
        (n : ℕ) (f : PacketFeed M) (ps : List PacketPoll)
        → f.is_running ≡ false
        → start_loop deliver recover n f ps ≡ finish_lifecycle f
    unfolding start_loop
    start_loop-stopped zero f ps off = refl
    start_loop-stopped (suc n) f [] off = ground (arith, off)
    start_loop-stopped (suc n) f (p ∷ ps) off = ground (arith, off)

    module _
        (sound : (e r : ℕ) (xs : List ItchUdpPacket)
          → r < 2 ^ 64
          → recover e r ≡ (process, xs)
          → Run e xs r × All From xs)
        (forward : (e r : ℕ) (xs : List ItchUdpPacket) → e < r → recover e r ≢ (ignore, xs)) where
      pub run_loop-Result :
          (k : Bool) (f : PacketFeed M) (ps : List PacketPoll)
          → f.is_running ≡ true
          → All Fits (heard ps)
          → Starts k (heard ps)
          → State k f
          → Result k (heard ps) f (run_loop deliver recover f ps)
      unfolding run_loop
      run_loop-Result k f [] on fits at st =
          let result : run_loop deliver recover f [] ≡ f = ground (arith, on) in
          subst (Result k [] f) (sym result) (inr (st, tt, omega arith))
      run_loop-Result k f (received x ∷ ps) on ((small, origin), fits) at st =
          let next : PacketFeed M → PacketFeed M = λ g. run_loop deliver recover g ps in
          let b = handle deliver recover f x in
          let result : run_loop deliver recover f (received x ∷ ps)
              ≡ looped deliver recover b next next =
            ground (arith, on) in
          subst (Result k (x ∷ heard ps) f) (sym result) (
            looped-Result k (heard ps) x f b f.is_running next next
              (handle-Handled From deliver m e recover sound forward f x small origin
                (State-Current k f x (heard ps) st at))
              (λ g old expected same live.
                run_loop-Result true g ps (ground (arith, same, on)) fits tt live)
              (λ g new expected same live.
                run_loop-Result true g ps (ground (arith, same, on)) fits tt live))
      run_loop-Result k f (nothing ∷ ps) on fits at st =
          let result : run_loop deliver recover f (nothing ∷ ps) ≡ run_loop deliver recover f ps =
            ground (arith, on) in
          subst (Result k (heard ps) f) (sym result) (run_loop-Result k f ps on fits at st)
      run_loop-Result k f (stopping ∷ ps) on fits at st =
          let u : PacketFeed M = record f { is_running = false } in
          let result : run_loop deliver recover f (stopping ∷ ps) ≡ run_loop deliver recover u ps =
            ground (arith, on) in
          subst (Result k [] f) (sym result)
            (subst (Result k [] f) (sym (run_loop-stopped u ps refl)) (stopped-Result k f st))

      pub start_loop-Result :
          (n : ℕ) (k : Bool) (f : PacketFeed M) (ps : List PacketPoll)
          → f.is_running ≡ true
          → All Fits (counted n f.expected_sequence (heard ps))
          → Starts k (counted n f.expected_sequence (heard ps))
          → State k f
          → Result k
              (counted n f.expected_sequence (heard ps))
              f
              (start_loop deliver recover n f ps)
      unfolding start_loop
      start_loop-Result zero k f ps on fits at st = finish-Result k f st
      start_loop-Result (suc n) k f [] on fits at st =
          let result : start_loop deliver recover (suc n) f [] ≡ f = ground (arith, on) in
          subst (Result k [] f) (sym result) (inr (st, tt, omega arith))
      start_loop-Result (suc n) k f (received x ∷ ps) on ((small, origin), fits) at st =
          let skip : PacketFeed M → PacketFeed M = λ g. start_loop deliver recover (suc n) g ps in
          let more : PacketFeed M → PacketFeed M = λ g. start_loop deliver recover n g ps in
          let b = handle deliver recover f x in
          let result : start_loop deliver recover (suc n) f (received x ∷ ps)
              ≡ looped deliver recover b skip more =
            ground (arith, on) in
          let k' = f.expected_sequence in
          let old = counted (suc n) k' (heard ps) in
          let new = counted n (x.sequence + 1) (heard ps) in
          let xs = if ltb x.sequence k' then old else new in
          subst (Result k (x ∷ xs) f) (sym result) (
            looped-Result k xs x f b f.is_running skip more
              (handle-Handled From deliver m e recover sound forward f x small origin
                (State-Current k f x xs st at))
              (λ g below expected same live.
                let at' : xs ≡ counted (suc n) g.expected_sequence (heard ps) =
                  ground (arith, below, expected) in
                subst (λ ys. Result true ys g (skip g)) (sym at')
                  (start_loop-Result (suc n) true g ps (ground (arith, same, on))
                    (subst (All Fits) at' fits) tt live))
              (λ g above expected same live.
                let at' : xs ≡ counted n g.expected_sequence (heard ps) =
                  ground (arith, above, expected) in
                subst (λ ys. Result true ys g (more g)) (sym at')
                  (start_loop-Result n true g ps (ground (arith, same, on))
                    (subst (All Fits) at' fits) tt live)))
      start_loop-Result (suc n) k f (nothing ∷ ps) on fits at st =
          let result : start_loop deliver recover (suc n) f (nothing ∷ ps)
              ≡ start_loop deliver recover (suc n) f ps =
            ground (arith, on) in
          subst (Result k (counted (suc n) f.expected_sequence (heard ps)) f) (sym result)
            (start_loop-Result (suc n) k f ps on fits at st)
      start_loop-Result (suc n) k f (stopping ∷ ps) on fits at st =
          let u : PacketFeed M = record f { is_running = false } in
          let result : start_loop deliver recover (suc n) f (stopping ∷ ps)
              ≡ start_loop deliver recover (suc n) u ps =
            ground (arith, on) in
          subst (Result k [] f) (sym result) (
            subst (Result k [] f) (sym (start_loop-stopped (suc n) u ps refl))
              (stopped-Result k f st))
