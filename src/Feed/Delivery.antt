-- ===== src/Feed/Delivery.antt =====
-- What feed_handler/MoldItchFeedHandler.cpp delivers to the market from one datagram.
use mathlib.Core.Path.{subst}
use low_latency_trading.Base.{
  All, ◌≢◌, ◌≤◌, ◌⊎◌, ℕ, zero, suc, ◌+◌, ◌<◌, ◌^◌, ◌≡◌, refl, sym, ◌∙◌, Bool, true, false, Option,
  none, some, List, arith, u64, Bool-cases, Option-cases, inl, inr, ltb, ◌==◌, ◌||◌,
}
use low_latency_trading.Mold.Codec.{
  Span, MessageView, next_message, decode_header, read_u16, read_u64,
}
use low_latency_trading.Itch.Messages.{ItchMessage}
use low_latency_trading.Feed.Types.{SequenceCheckResult, process, ignore, SequencedItchMessage}
use low_latency_trading.Feed.MoldItch.{
  Feed, validated, recovered_next, process_view, processed_next, process_messages, process_datagram,
}
use low_latency_trading.Feed.Progress.{
  Run, Current, Current-Halted, Live, Outcome, Unwrapped, payload_at, items_from, items,
}
use low_latency_trading.Feed.Checks.{process_view-Outcome}

-- `nextMessage` returns the payload behind the length, or fails.
next_message-cases :
    (s : Span) (o q : ℕ)
    → (next_message (some s) o q ≡ (
      some (record { start = o + 2; size = read_u16 s.bytes o; sequence_number = q }),
      o + 2 + read_u16 s.bytes o,
    ))
      ⊎ ((x : ℕ) × (next_message (some s) o q ≡ (none, x)))
unfolding next_message
next_message-cases s o q = elim (Bool-cases (ltb s.size (o + 2))) [
  | inl short ↦ inr (o, ground (arith, short))
  | inr long ↦ elim (Bool-cases (ltb s.size (o + 2 + read_u16 s.bytes o))) [
    | inl cut ↦ inr (o + 2, ground (arith, long, cut))
    | inr whole ↦ inl (ground (arith, long, whole))
  ]
]

module _ (From : SequencedItchMessage → Type 0) {M : Type 0} (deliver : M → ItchMessage → M)
    (recover : ℕ → ℕ → SequenceCheckResult × List SequencedItchMessage)
    (sound : (e r : ℕ) (xs : List SequencedItchMessage)
      → r < 2 ^ 64
      → recover e r ≡ (process, xs)
      → Run e xs r × All From xs)
    (forward : (e r : ℕ) (xs : List SequencedItchMessage) → e < r → recover e r ≢ (ignore, xs))
    (m : M) (e : ℕ) where
  later :
      (q r x : ℕ) (run : Bool) (g : Feed M) (b : Bool × Feed M)
      → x ≤ g.expected_sequence
      → g.is_running ≡ run
      → Outcome deliver From m e r g.expected_sequence g.is_running b
      → Outcome deliver From m e r x run b
  later q r x run g (true, h) above same (live, next, beyond, also) =
      (live, next, omega (arith, above, beyond), also ∙ same)
  later q r x run g (false, h) above same c = c

  next-Outcome :
      (q r x : ℕ) (run : Bool) (b : Bool × Feed M) (k : Feed M → Bool × Feed M)
      → Outcome deliver From m e q x run b
      → ((g : Feed M)
          → Live deliver From m e g
          → q ≤ g.expected_sequence
          → Outcome deliver From m e r g.expected_sequence g.is_running (k g))
      → Outcome deliver From m e r x run (recovered_next deliver recover b k)
  unfolding recovered_next
  next-Outcome q r x run (true, g) k (live, next, above, same) h =
      later q r x run g (k g) above same (h g live next)
  next-Outcome q r x run (false, g) k c h = c

  -- One message, and then the others.
  step-Outcome :
      (f : Feed M) (s : Span) (n o q : ℕ)
      → q + suc n < 2 ^ 64
      → From (record { sequence = q; payload = payload_at s o })
      → Current deliver From m e q f
      → ((g : Feed M)
          → Live deliver From m e g
          → q + 1 ≤ g.expected_sequence
          → Outcome deliver From m e
              (q + suc n)
              g.expected_sequence
              g.is_running
              (process_messages deliver recover g s n (o + 2 + read_u16 s.bytes o) (u64 (q + 1))))
      → Outcome deliver From m e
          (q + suc n)
          f.expected_sequence
          f.is_running
          (process_messages deliver recover f s (suc n) o q)
  unfolding process_messages processed_next
  step-Outcome f s n o q small origin c h =
      let k : Feed M → ℕ → Bool × Feed M =
        λ g x. process_messages deliver recover g s n x (u64 (q + 1)) in
      let goal : Option MessageView × ℕ → Type 0 = λ r.
        Outcome deliver From m e (q + suc n) f.expected_sequence f.is_running
          (processed_next deliver recover f s.bytes r k) in
      elim (next_message-cases s o q) [
        | inl read ↦ subst goal (sym read) (
            next-Outcome (q + 1) (q + suc n) f.expected_sequence f.is_running
              (process_view deliver recover f q (payload_at s o))
              (λ g. k g (o + 2 + read_u16 s.bytes o))
              (process_view-Outcome From deliver recover sound forward m e f q (payload_at s o)
                (omega (arith, small)) origin c)
              h)
        | inr (x, bad) ↦ subst goal (sym bad) (Current-Halted deliver From m e q f c)
      ]

  -- The next number does not wrap around.
  relabelled :
      (s : Span) (n o q : ℕ) (g : Feed M)
      → q + suc n < 2 ^ 64
      → Outcome deliver From m e
          (q + 1 + n)
          g.expected_sequence
          g.is_running
          (process_messages deliver recover g s n o (q + 1))
      → Outcome deliver From m e
          (q + suc n)
          g.expected_sequence
          g.is_running
          (process_messages deliver recover g s n o (u64 (q + 1)))
  relabelled s n o q g small h =
      let wraps : q + 1 ≡ u64 (q + 1) = omega (arith, small) in
      let total : q + 1 + n ≡ q + suc n = omega arith in
      subst
        (λ t.
          Outcome deliver From m e (q + suc n) g.expected_sequence g.is_running
            (process_messages deliver recover g s n o t))
        wraps
        (subst
          (λ t.
            Outcome deliver From m e t g.expected_sequence g.is_running
              (process_messages deliver recover g s n o (q + 1)))
          total h)

  process_messages-Outcome :
      (f : Feed M) (s : Span) (n o q : ℕ)
      → q + n < 2 ^ 64
      → All From (items_from s n o q)
      → Live deliver From m e f
      → q ≤ f.expected_sequence
      → Outcome deliver From m e
          (q + n)
          f.expected_sequence
          f.is_running
          (process_messages deliver recover f s n o q)
  unfolding process_messages
  process_messages-Outcome f s zero o q small from live most =
      (live, omega (arith, most), omega arith, refl)
  process_messages-Outcome f s (suc n) o q small (origin, from) live most =
      let x = o + 2 + read_u16 s.bytes o in
      step-Outcome f s n o q small origin (inr live) (λ g l next.
        relabelled s n x q g small
          (process_messages-Outcome g s n x (q + 1) (omega (arith, small)) from l next))

  all_messages-Outcome :
      (f : Feed M) (s : Span) (n q : ℕ)
      → n ≢ 0
      → q + n < 2 ^ 64
      → All From (items_from s n 20 q)
      → Current deliver From m e q f
      → Outcome deliver From m e
          (q + n)
          f.expected_sequence
          f.is_running
          (process_messages deliver recover f s n 20 q)
  all_messages-Outcome f s zero q some' small from c = absurd (some' refl)
  all_messages-Outcome f s (suc n) q some' small (origin, from) c =
      let x = 22 + read_u16 s.bytes 20 in
      step-Outcome f s n 20 q small origin c (λ g l next.
        relabelled s n x q g small
          (process_messages-Outcome g s n x (q + 1) (omega (arith, small)) from l next))

  -- A whole datagram.
  pub process_datagram-Outcome :
      (f : Feed M) (s : Span)
      → Unwrapped s
      → All From (items s)
      → Current deliver From m e (read_u64 s.bytes 10) f
      → Outcome deliver From m e
          (read_u64 s.bytes 10 + read_u16 s.bytes 18)
          f.expected_sequence
          f.is_running
          (process_datagram deliver recover f s)
  unfolding process_datagram decode_header
  process_datagram-Outcome f s small from c =
      let n = read_u16 s.bytes 18 in
      let q = read_u64 s.bytes 10 in
      let halted = Current-Halted deliver From m e q f c in
      let goal : Bool × Feed M → Type 0 =
        Outcome deliver From m e (q + n) f.expected_sequence f.is_running in
      elim (Bool-cases (ltb s.size 20 || n == 0)) [
        | inl short ↦
            let result : process_datagram deliver recover f s ≡ (false, f) =
              ground (arith, short) in
            subst goal (sym result) halted
        | inr long ↦ elim (Option-cases (validated s n 20 q)) [
          | inl broken ↦
              let result : process_datagram deliver recover f s ≡ (false, f) =
                ground (arith, long, broken) in
              subst goal (sym result) halted
          | inr (x, framed) ↦ elim (Bool-cases (x == s.size)) [
            | inl exact ↦
                let result : process_datagram deliver recover f s
                    ≡ process_messages deliver recover f s n 20 q =
                  ground (arith, long, framed, exact) in
                let some' : n ≢ 0 = ground (arith, long) in
                subst goal (sym result) (all_messages-Outcome f s n q some' small from c)
            | inr trailing ↦
                let result : process_datagram deliver recover f s ≡ (false, f) =
                  ground (arith, long, framed, trailing) in
                subst goal (sym result) halted
          ]
        ]
      ]
