-- ===== src/Feed/PacketChecks.antt =====
-- What the sequence check of feed_handler/ItchFeedHandler.cpp and one packet deliver.
use mathlib.Core.Path.{subst}
use low_latency_trading.Base.{
  ℕ, ◌+◌, ◌≤◌, ◌<◌, ◌^◌, ◌≡◌, ◌≢◌, ◌⊎◌, refl, sym, ◌∙◌, Bool, true, false, some, List, [], ◌∷◌, All,
  arith, u64, Bool-cases, Option-cases, inl, inr, ltb, ◌==◌,
}
use low_latency_trading.Itch.Messages.{ItchMessage}
use low_latency_trading.Itch.Dispatcher.{dispatch}
use low_latency_trading.Feed.Types.{failed, SequenceCheckResult, process, ignore, stop}
use low_latency_trading.Feed.Progress.{Run, Progress, Progress-none, Progress-one}
use low_latency_trading.Feed.Packets.{
  PacketFeed, ItchUdpPacket, process_packet, process_recovered, replayed, recovered, check_sequence,
  handled, handle,
}

module _ (From : ItchUdpPacket → Type 0) {M : Type 0} (deliver : M → ItchMessage → M) (m : M)
    (e : ℕ) where
  -- No packet has come.
  abbrev pub Fresh : PacketFeed M → Type 0
  Fresh f = (f.has_sequence ≡ false) × (f.expected_sequence ≡ 0) × (f.market ≡ m)

  -- All packets from `e` up to the next expected number have been delivered.
  abbrev pub Live : PacketFeed M → Type 0
  Live f = (f.has_sequence ≡ true) × Progress deliver From m e f.market f.expected_sequence

  -- All packets from `e` up to some number have been delivered.
  abbrev pub Halted : PacketFeed M → Type 0
  Halted f = (r : ℕ) × Progress deliver From m e f.market r

  -- Before a packet with the number `q`, which is the first where nothing has come.
  abbrev pub Current : ℕ → PacketFeed M → Type 0
  Current q f = (Fresh f × (e ≡ q)) ⊎ Live f

  process_packet-Progress :
      (q : ℕ) (w u : M) (x : ItchUdpPacket)
      → Progress deliver From m e w q
      → x.sequence ≡ q
      → From x
      → process_packet deliver w x ≡ some u
      → Progress deliver From m e u (q + 1)
  unfolding process_packet
  process_packet-Progress q w u x p at origin h = elim (Option-cases (dispatch (some x.payload))) [
    | inl bad ↦ ground (arith, h, bad)
    | inr (a, good) ↦
        let same : deliver w a ≡ u = ground (arith, h, good) in
        let origin' : From (record { sequence = q; payload = x.payload }) =
          subst (λ t. From (record { sequence = t; payload = x.payload })) at origin in
        subst (λ t. Progress deliver From m e t (q + 1)) same
          (Progress-one deliver From m e w q x.payload a p origin' good)
  ]

  -- After the recovered packets up to `r`.
  abbrev Replayed : ℕ → PacketFeed M → Bool × PacketFeed M → Type 0
  Replayed r f (true, g) =
      Progress deliver From m e g.market r
      × (g.has_sequence ≡ f.has_sequence)
      × (g.is_running ≡ f.is_running)
  Replayed r f (false, g) = Halted g

  process_recovered-Replayed :
      (f : PacketFeed M) (q r : ℕ) (xs : List ItchUdpPacket)
      → Progress deliver From m e f.market q
      → Run q xs r
      → All From xs
      → Replayed r f (process_recovered deliver f xs)
  unfolding process_recovered
  process_recovered-Replayed f q r [] p run from =
      (subst (Progress deliver From m e f.market) run p, refl, refl)
  process_recovered-Replayed f q r (x ∷ xs) p (at, run) (origin, from) =
      elim (Option-cases (process_packet deliver f.market x)) [
        | inl bad ↦
            let result : process_recovered deliver f (x ∷ xs) ≡ (false, f) = ground (arith, bad) in
            subst (Replayed r f) (sym result) (q, p)
        | inr (w, good) ↦
            let g : PacketFeed M = record f {
              market = w;
              recovered_packets = u64 (f.recovered_packets + 1);
            } in
            let result : process_recovered deliver f (x ∷ xs) ≡ process_recovered deliver g xs =
              ground (arith, good) in
            subst (Replayed r f) (sym result) (
              process_recovered-Replayed g (q + 1) r xs
                (process_packet-Progress q f.market w x p at origin good) run from)
      ]

  -- After the sequence check of `q`, where `x` was expected.
  abbrev Checked : ℕ → ℕ → Bool → SequenceCheckResult × PacketFeed M → Type 0
  Checked q x run (process, g) =
      (g.has_sequence ≡ true)
      × (x ≤ q)
      × (g.expected_sequence ≡ q + 1)
      × (g.is_running ≡ run)
      × Progress deliver From m e g.market q
  Checked q x run (ignore, g) = Live g × (q < x) × (g.expected_sequence ≡ x) × (g.is_running ≡ run)
  Checked q x run (stop, g) = Halted g

  -- After a round of the loop: the packet is new and delivered, or it is old.
  abbrev pub Handled : ℕ → ℕ → Bool → SequenceCheckResult × PacketFeed M → Type 0
  Handled q x run (process, g) =
      Live g × (x ≤ q) × (g.expected_sequence ≡ q + 1) × (g.is_running ≡ run)
  Handled q x run (ignore, g) = Live g × (q < x) × (g.expected_sequence ≡ x) × (g.is_running ≡ run)
  Handled q x run (stop, g) = (g.state ≡ failed) × Halted g

  handled-Handled :
      (x : ℕ) (run : Bool) (c : SequenceCheckResult × PacketFeed M) (s : ItchUdpPacket)
      → From s
      → Checked s.sequence x run c
      → Handled s.sequence x run (handled deliver c s)
  unfolding handled
  handled-Handled x run (stop, f) s origin h = (refl, h)
  handled-Handled x run (ignore, f) s origin h = h
  handled-Handled x run (process, f) s origin (has, above, next, same, p) =
      elim (Option-cases (process_packet deliver f.market s)) [
        | inl bad ↦
            let result : handled deliver (process, f) s ≡ (stop, record f { state = failed }) =
              ground (arith, bad) in
            subst (Handled s.sequence x run) (sym result) (refl, (s.sequence, p))
        | inr (w, good) ↦
            let g : PacketFeed M = record f {
              market = w;
              processed_packets = u64 (f.processed_packets + 1);
            } in
            let result : handled deliver (process, f) s ≡ (process, g) = ground (arith, good) in
            subst (Handled s.sequence x run) (sym result) (
              (
                has,
                subst (Progress deliver From m e w) (sym next)
                    (process_packet-Progress s.sequence f.market w s p refl origin good),
              ),
              above,
              next,
              same,
            )
      ]

  replayed-Checked :
      (f : PacketFeed M) (q x : ℕ) (b : Bool × PacketFeed M)
      → q + 1 < 2 ^ 64
      → f.has_sequence ≡ true
      → x ≤ q
      → Replayed q f b
      → Checked q x f.is_running (replayed deliver b q)
  unfolding replayed
  replayed-Checked f q x (true, g) small has above (p, same, on) =
      (same ∙ has, above, omega (arith, small), on, p)
  replayed-Checked f q x (false, g) small has above p = p

  module _ (recover : ℕ → ℕ → SequenceCheckResult × List ItchUdpPacket)
      (sound : (e r : ℕ) (xs : List ItchUdpPacket)
        → r < 2 ^ 64
        → recover e r ≡ (process, xs)
        → Run e xs r × All From xs)
      (forward : (e r : ℕ) (xs : List ItchUdpPacket) → e < r → recover e r ≢ (ignore, xs)) where
    recovered-Checked :
        (f : PacketFeed M) (q : ℕ) (c : SequenceCheckResult × List ItchUdpPacket)
        → q + 1 < 2 ^ 64
        → f.has_sequence ≡ true
        → f.expected_sequence < q
        → Progress deliver From m e f.market f.expected_sequence
        → recover f.expected_sequence q ≡ c
        → Checked q f.expected_sequence f.is_running (recovered deliver f q c)
    unfolding recovered
    recovered-Checked f q (process, xs) small has gap p h =
        let (run, from) = sound f.expected_sequence q xs (omega (arith, small)) h in
        replayed-Checked f q f.expected_sequence (process_recovered deliver f xs) small has
          (omega (arith, gap)) (process_recovered-Replayed f f.expected_sequence q xs p run from)
    recovered-Checked f q (ignore, xs) small has gap p h =
        absurd (forward f.expected_sequence q xs gap h)
    recovered-Checked f q (stop, xs) small has gap p h = (f.expected_sequence, p)

    check_sequence-Checked :
        (f : PacketFeed M) (q : ℕ)
        → q + 1 < 2 ^ 64
        → Current q f
        → Checked q f.expected_sequence f.is_running (check_sequence deliver recover f q)
    unfolding check_sequence
    check_sequence-Checked f q small (inl ((none', zero', same), at)) =
        let g : PacketFeed M = record f { expected_sequence = u64 (q + 1); has_sequence = true } in
        let result : check_sequence deliver recover f q ≡ (process, g) = ground (arith, none') in
        let start : Progress deliver From m e f.market q =
          subst (Progress deliver From m e f.market) at (
            subst (λ w. Progress deliver From m e w e) (sym same)
              (Progress-none deliver From m e)) in
        subst (Checked q f.expected_sequence f.is_running) (sym result)
          (refl, omega (arith, zero'), omega (arith, small), refl, start)
    check_sequence-Checked f q small (inr (has, p)) = elim (Bool-cases (q == f.expected_sequence)) [
      | inl equal ↦
          let g : PacketFeed M = record f { expected_sequence = u64 (q + 1) } in
          let result : check_sequence deliver recover f q ≡ (process, g) =
            ground (arith, has, equal) in
          let at : f.expected_sequence ≡ q = ground (arith, equal) in
          subst (Checked q f.expected_sequence f.is_running) (sym result) (
            has,
            omega (arith, at),
            omega (arith, small),
            refl,
            subst (Progress deliver From m e f.market) at p,
          )
      | inr other ↦ elim (Bool-cases (ltb q f.expected_sequence)) [
        | inl old ↦
            let g : PacketFeed M = record f { ignored_packets = u64 (f.ignored_packets + 1) } in
            let result : check_sequence deliver recover f q ≡ (ignore, g) =
              ground (arith, has, other, old) in
            subst (Checked q f.expected_sequence f.is_running) (sym result)
              ((has, p), ground (arith, old), refl, refl)
        | inr gap ↦
            let g : PacketFeed M = record f { gaps_detected = u64 (f.gaps_detected + 1) } in
            let c = recover f.expected_sequence q in
            let result : check_sequence deliver recover f q ≡ recovered deliver g q c =
              ground (arith, has, other, gap) in
            let beyond : f.expected_sequence < q = ground (arith, other, gap) in
            subst (Checked q f.expected_sequence f.is_running) (sym result)
              (recovered-Checked g q c small has beyond p refl)
      ]
    ]

    pub handle-Handled :
        (f : PacketFeed M) (x : ItchUdpPacket)
        → x.sequence + 1 < 2 ^ 64
        → From x
        → Current x.sequence f
        → Handled x.sequence f.expected_sequence f.is_running (handle deliver recover f x)
    unfolding handle
    handle-Handled f x small origin c =
        handled-Handled f.expected_sequence f.is_running
          (check_sequence deliver recover f x.sequence) x origin
          (check_sequence-Checked f x.sequence small c)
