-- ===== src/Feed/Sources.antt =====
-- moldudp64/MoldItchSequenceRecovery.cpp over any source of lost messages, as the feed handlers
-- use it.
use low_latency_trading.Base.{ℕ, ◌<◌, ◌^◌, ◌≡◌, ◌≢◌, Option, List, inr, All, arith}
use low_latency_trading.Feed.Types.{SequenceCheckResult, process, ignore, SequencedItchMessage}
use low_latency_trading.Feed.Recovery
use low_latency_trading.Feed.Recovery.{recover_iff}
use low_latency_trading.Feed.Progress.{Run, Sourced, All-of}

-- `MoldItchSequenceRecovery::recover`.
abbrev pub recover :
    (ℕ → ℕ → Option (List SequencedItchMessage))
    → ℕ
    → ℕ
    → SequenceCheckResult × List SequencedItchMessage
recover source e r = Recovery.recover (λ x. x.sequence) source e r

module _ (source : ℕ → ℕ → Option (List SequencedItchMessage)) where
  pub recover-Sourced :
      (ws : List SequencedItchMessage) (e r : ℕ) (xs : List SequencedItchMessage)
      → r < 2 ^ 64
      → recover source e r ≡ (process, xs)
      → Run e xs r × All (Sourced source ws) xs
  recover-Sourced ws e r xs small h =
      let (forward, filled, run) = (recover_iff (λ x. x.sequence) source e r xs small).0 h in
      (run, All-of (Sourced source ws) xs (λ x d. inr (e, (r, (xs, filled, d)))))

  -- A gap is never ignored.
  pub recover-forward :
      (e r : ℕ) (xs : List SequencedItchMessage) → e < r → recover source e r ≢ (ignore, xs)
  unfolding Recovery.recover
  recover-forward e r xs gap h = ground (arith, gap, h)
