-- ===== src/Feed/Checks.antt =====
-- What the sequence check of feed_handler/MoldItchFeedHandler.cpp and one message deliver.
use mathlib.Core.Path.{subst}
use low_latency_trading.Base.{
  All, ◌≢◌, ◌≤◌, ℕ, ◌+◌, ◌<◌, ◌^◌, ◌≡◌, refl, sym, ◌∙◌, Bool, true, false, some, List, [], ◌∷◌,
  arith, u64, Bool-cases, Option-cases, inl, inr, ltb, ◌==◌, ◌||◌,
}
use low_latency_trading.Mold.Codec.{Span}
use low_latency_trading.Itch.Messages.{ItchMessage}
use low_latency_trading.Itch.Dispatcher.{dispatch}
use low_latency_trading.Feed.Types.{
  SequenceCheckResult, process, ignore, stop, SequencedItchMessage, max_payload_size,
}
use low_latency_trading.Feed.MoldItch.{
  Feed, process_message, process_recovered_message, process_recovered, recovered_next, replayed,
  recovered, check_sequence, checked, process_view,
}
use low_latency_trading.Feed.Progress.{
  Run, Progress, Progress-none, Progress-one, Current, Halted, Outcome,
}

module _ (From : SequencedItchMessage → Type 0) {M : Type 0} (deliver : M → ItchMessage → M)
    (recover : ℕ → ℕ → SequenceCheckResult × List SequencedItchMessage)
    (sound : (e r : ℕ) (xs : List SequencedItchMessage)
      → r < 2 ^ 64
      → recover e r ≡ (process, xs)
      → Run e xs r × All From xs)
    (forward : (e r : ℕ) (xs : List SequencedItchMessage) → e < r → recover e r ≢ (ignore, xs))
    (m : M) (e : ℕ) where
  -- A message of the next sequence number is delivered, or nothing happens.
  process_message-Outcome :
      (f : Feed M) (q x : ℕ) (s : Span) (run : Bool)
      → Progress deliver From m e f.market q
      → From (record { sequence = q; payload = s })
      → f.has_sequence ≡ true
      → f.expected_sequence ≡ q + 1
      → x ≤ q + 1
      → f.is_running ≡ run
      → Outcome deliver From m e (q + 1) x run (process_message deliver recover f s)
  unfolding process_message
  process_message-Outcome f q x s run p origin has next above same =
      elim (Bool-cases (s.size == 0)) [
        | inl empty ↦
            let result : process_message deliver recover f s ≡ (false, f) = ground (arith, empty) in
            subst (Outcome deliver From m e (q + 1) x run) (sym result) (q, p)
        | inr some' ↦ elim (Option-cases (dispatch (some s))) [
          | inl bad ↦
              let result : process_message deliver recover f s ≡ (false, f) =
                ground (arith, some', bad) in
              subst (Outcome deliver From m e (q + 1) x run) (sym result) (q, p)
          | inr (a, good) ↦
              let g : Feed M = record f {
                market = deliver f.market a;
                processed_messages = u64 (f.processed_messages + 1);
              } in
              let result : process_message deliver recover f s ≡ (true, g) =
                ground (arith, some', good) in
              subst (Outcome deliver From m e (q + 1) x run) (sym result) (
                (
                  has,
                  subst (Progress deliver From m e (deliver f.market a)) (sym next)
                      (Progress-one deliver From m e f.market q s a p origin good),
                ),
                omega (arith, next),
                omega (arith, next, above),
                same,
              )
        ]
      ]

  -- After the recovered messages up to `r`.
  abbrev Replayed : ℕ → Feed M → Bool × Feed M → Type 0
  Replayed r f (true, g) =
      Progress deliver From m e g.market r
      × (g.has_sequence ≡ f.has_sequence)
      × (g.is_running ≡ f.is_running)
  Replayed r f (false, g) = Halted deliver From m e g

  process_recovered_message-Replayed :
      (f : Feed M) (q : ℕ) (x : SequencedItchMessage)
      → Progress deliver From m e f.market q
      → x.sequence ≡ q
      → From x
      → Replayed (q + 1) f (process_recovered_message deliver recover f x)
  unfolding process_recovered_message
  process_recovered_message-Replayed f q x p at origin =
      elim (Bool-cases (x.payload.size == 0 || ltb max_payload_size x.payload.size)) [
        | inl bad ↦
            let result : process_recovered_message deliver recover f x ≡ (false, f) =
              ground (arith, bad) in
            subst (Replayed (q + 1) f) (sym result) (q, p)
        | inr fits ↦ elim (Option-cases (dispatch (some x.payload))) [
          | inl bad ↦
              let result : process_recovered_message deliver recover f x ≡ (false, f) =
                ground (arith, fits, bad) in
              subst (Replayed (q + 1) f) (sym result) (q, p)
          | inr (a, good) ↦
              let g : Feed M = record f {
                market = deliver f.market a;
                recovered_messages = u64 (f.recovered_messages + 1);
              } in
              let result : process_recovered_message deliver recover f x ≡ (true, g) =
                ground (arith, fits, good) in
              let origin' : From (record { sequence = q; payload = x.payload }) =
                subst (λ t. From (record { sequence = t; payload = x.payload })) at origin in
              subst (Replayed (q + 1) f) (sym result)
                (Progress-one deliver From m e f.market q x.payload a p origin' good, refl, refl)
        ]
      ]

  same_feed :
      (r : ℕ) (f g : Feed M) (b : Bool × Feed M)
      → g.has_sequence ≡ f.has_sequence
      → g.is_running ≡ f.is_running
      → Replayed r g b
      → Replayed r f b
  same_feed r f g (true, h) same on (p, also, goes) = (p, also ∙ same, goes ∙ on)
  same_feed r f g (false, h) same on p = p

  recovered_next-Replayed :
      (q r : ℕ) (f : Feed M) (b : Bool × Feed M) (k : Feed M → Bool × Feed M)
      → Replayed q f b
      → ((g : Feed M) → Progress deliver From m e g.market q → Replayed r g (k g))
      → Replayed r f (recovered_next deliver recover b k)
  unfolding recovered_next
  recovered_next-Replayed q r f (true, g) k (p, same, on) h = same_feed r f g (k g) same on (h g p)
  recovered_next-Replayed q r f (false, g) k p h = p

  process_recovered-Replayed :
      (f : Feed M) (q r : ℕ) (xs : List SequencedItchMessage)
      → Progress deliver From m e f.market q
      → Run q xs r
      → All From xs
      → Replayed r f (process_recovered deliver recover f xs)
  unfolding process_recovered
  process_recovered-Replayed f q r [] p run from =
      (subst (Progress deliver From m e f.market) run p, refl, refl)
  process_recovered-Replayed f q r (x ∷ xs) p (at, run) (origin, from) =
      recovered_next-Replayed (q + 1) r f (process_recovered_message deliver recover f x)
        (λ g. process_recovered deliver recover g xs)
        (process_recovered_message-Replayed f q x p at origin)
        (λ g p'. process_recovered-Replayed g (q + 1) r xs p' run from)

  -- After the sequence check of `q`.
  abbrev Checked : ℕ → ℕ → Bool → SequenceCheckResult × Feed M → Type 0
  Checked q x run (process, g) =
      (g.has_sequence ≡ true)
      × (g.expected_sequence ≡ q + 1)
      × (x ≤ q + 1)
      × (g.is_running ≡ run)
      × Progress deliver From m e g.market q
  Checked q x run (ignore, g) = Outcome deliver From m e (q + 1) x run (true, g)
  Checked q x run (stop, g) = Halted deliver From m e g

  replayed-Checked :
      (f : Feed M) (q x : ℕ) (b : Bool × Feed M)
      → q + 1 < 2 ^ 64
      → f.has_sequence ≡ true
      → x ≤ q
      → Replayed q f b
      → Checked q x f.is_running (replayed deliver recover b q)
  unfolding replayed
  replayed-Checked f q x (true, g) small has above (p, same, on) =
      (same ∙ has, omega (arith, small), omega (arith, above), on, p)
  replayed-Checked f q x (false, g) small has above p = p

  recovered-Checked :
      (f : Feed M) (q : ℕ) (c : SequenceCheckResult × List SequencedItchMessage)
      → q + 1 < 2 ^ 64
      → f.has_sequence ≡ true
      → f.expected_sequence < q
      → Progress deliver From m e f.market f.expected_sequence
      → recover f.expected_sequence q ≡ c
      → Checked q f.expected_sequence f.is_running (recovered deliver recover f q c)
  unfolding recovered
  recovered-Checked f q (process, xs) small has gap p h =
      let (run, from) = sound f.expected_sequence q xs (omega (arith, small)) h in
      replayed-Checked f q f.expected_sequence (process_recovered deliver recover f xs) small has
        (omega (arith, gap)) (process_recovered-Replayed f f.expected_sequence q xs p run from)
  recovered-Checked f q (ignore, xs) small has gap p h =
      absurd (forward f.expected_sequence q xs gap h)
  recovered-Checked f q (stop, xs) small has gap p h = (f.expected_sequence, p)

  check_sequence-Checked :
      (f : Feed M) (q : ℕ)
      → q + 1 < 2 ^ 64
      → Current deliver From m e q f
      → Checked q f.expected_sequence f.is_running (check_sequence deliver recover f q)
  unfolding check_sequence
  check_sequence-Checked f q small (inl ((none', zero', same), at)) =
      let g : Feed M = record f { expected_sequence = u64 (q + 1); has_sequence = true } in
      let result : check_sequence deliver recover f q ≡ (process, g) = ground (arith, none') in
      let start : Progress deliver From m e f.market q =
        subst (Progress deliver From m e f.market) at (
          subst (λ w. Progress deliver From m e w e) (sym same) (Progress-none deliver From m e)) in
      subst (Checked q f.expected_sequence f.is_running) (sym result)
        (refl, omega (arith, small), omega (arith, zero'), refl, start)
  check_sequence-Checked f q small (inr (has, p)) = elim (Bool-cases (q == f.expected_sequence)) [
    | inl equal ↦
        let g : Feed M = record f { expected_sequence = u64 (q + 1) } in
        let result : check_sequence deliver recover f q ≡ (process, g) =
          ground (arith, has, equal) in
        let at : f.expected_sequence ≡ q = ground (arith, equal) in
        subst (Checked q f.expected_sequence f.is_running) (sym result) (
          has,
          omega (arith, small),
          omega (arith, at),
          refl,
          subst (Progress deliver From m e f.market) at p,
        )
    | inr other ↦ elim (Bool-cases (ltb q f.expected_sequence)) [
      | inl old ↦
          let g : Feed M = record f { ignored_messages = u64 (f.ignored_messages + 1) } in
          let result : check_sequence deliver recover f q ≡ (ignore, g) =
            ground (arith, has, other, old) in
          subst (Checked q f.expected_sequence f.is_running) (sym result)
            ((has, p), ground (arith, old), omega arith, refl)
      | inr gap ↦
          let g : Feed M = record f { gaps_detected = u64 (f.gaps_detected + 1) } in
          let c = recover f.expected_sequence q in
          let result : check_sequence deliver recover f q ≡ recovered deliver recover g q c =
            ground (arith, has, other, gap) in
          let beyond : f.expected_sequence < q = ground (arith, other, gap) in
          subst (Checked q f.expected_sequence f.is_running) (sym result)
            (recovered-Checked g q c small has beyond p refl)
    ]
  ]

  checked-Outcome :
      (q x : ℕ) (run : Bool) (c : SequenceCheckResult × Feed M) (s : Span)
      → From (record { sequence = q; payload = s })
      → Checked q x run c
      → Outcome deliver From m e (q + 1) x run (checked deliver recover c s)
  unfolding checked
  checked-Outcome q x run (process, f) s origin (has, next, above, same, p) =
      process_message-Outcome f q x s run p origin has next above same
  checked-Outcome q x run (ignore, f) s origin c = c
  checked-Outcome q x run (stop, f) s origin c = c

  -- One message of a datagram.
  pub process_view-Outcome :
      (f : Feed M) (q : ℕ) (s : Span)
      → q + 1 < 2 ^ 64
      → From (record { sequence = q; payload = s })
      → Current deliver From m e q f
      → Outcome deliver From m e
          (q + 1)
          f.expected_sequence
          f.is_running
          (process_view deliver recover f q s)
  unfolding process_view
  process_view-Outcome f q s small origin c =
      checked-Outcome q f.expected_sequence f.is_running (check_sequence deliver recover f q) s
        origin (check_sequence-Checked f q small c)
