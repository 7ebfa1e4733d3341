-- ===== src/Feed/Recovery.antt =====
-- common/market_data/moldudp64/MoldItchSequenceRecovery.cpp and itch/ItchSequenceRecovery.cpp,
-- which differ only in what they recover. The source is a parameter: its result is the vector that
-- it fills, or `none` where it returns `false`.
use low_latency_trading.Base.{
  ℕ, ◌+◌, ◌-◌, ◌<◌, ◌≡◌, ◌^◌, ◌↔◌, refl, sym, ap, ◌∙◌, Bool, true, false, Option, none, some, List,
  [], ◌∷◌, arith, ltb, ◌==◌, if◌then◌else◌, length, u64,
}
use low_latency_trading.Feed.Types.{SequenceCheckResult, process, ignore, stop}

module _ {A : Type 0} (sequence_of : A → ℕ) where
  -- The loop over the recovered messages: each has the next sequence number.
  unfoldable pub in_sequence : ℕ → List A → Bool
  in_sequence e [] = true
  in_sequence e (x ∷ xs) =
      let rest = in_sequence (u64 (e + 1)) xs in if sequence_of x == e then rest else false

  -- `recover`, with what is left in the vector.
  unfoldable pub recover : (ℕ → ℕ → Option (List A)) → ℕ → ℕ → SequenceCheckResult × List A
  recover source expected received =
      if ltb expected received
      then elim (source expected received) [
        | none ↦ (stop, [])
        | some xs ↦
            if length xs == received - expected
            then if in_sequence expected xs then (process, xs) else (stop, [])
            else (stop, [])
      ]
      else (ignore, [])

  -- The sequence numbers run from `e` up to `r`, each once.
  abbrev pub Consecutive : ℕ → List A → ℕ → Type 0
  Consecutive e [] r = e ≡ r
  Consecutive e (x ∷ xs) r = (sequence_of x ≡ e) × Consecutive (e + 1) xs r

  in_sequence-Consecutive :
      (e r : ℕ) (xs : List A)
      → e + length xs ≡ r
      → r < 2 ^ 64
      → in_sequence e xs ≡ true
      → Consecutive e xs r
  unfolding in_sequence
  in_sequence-Consecutive e r [] len small h = omega (arith, len)
  in_sequence-Consecutive e r (x ∷ xs) len small h =
      let wraps : u64 (e + 1) ≡ e + 1 = omega (arith, len, small) in
      (
        ground (arith, h),
        in_sequence-Consecutive (e + 1) r xs (omega (arith, len)) small
            (ap (λ t. in_sequence t xs) (sym wraps) ∙ ground (arith, h)),
      )

  pub Consecutive-in_sequence :
      (e r : ℕ) (xs : List A)
      → r < 2 ^ 64
      → Consecutive e xs r
      → (in_sequence e xs ≡ true) × (e + length xs ≡ r)
  unfolding in_sequence
  Consecutive-in_sequence e r [] small h = (refl, omega (arith, h))
  Consecutive-in_sequence e r (x ∷ xs) small (a, h) =
      let (rest, len) = Consecutive-in_sequence (e + 1) r xs small h in
      let wraps : u64 (e + 1) ≡ e + 1 = omega (arith, len, small) in
      (ground (arith, a, rest, wraps, ap (λ t. in_sequence t xs) wraps), omega (arith, len))

  -- For a received number below 2 ^ 64, `recover` says to process some messages exactly when that
  -- number is beyond the expected one, the source returns these messages, and their numbers run
  -- from the expected one up to the received one, each once.
  pub recover_iff :
      (source : ℕ → ℕ → Option (List A)) (e r : ℕ) (xs : List A)
      → r < 2 ^ 64
      → (recover source e r ≡ (process, xs))
        ↔ ((e < r) × (source e r ≡ some xs) × Consecutive e xs r)
  unfolding recover
  recover_iff source e r xs small = (
    λ h.
        let forward : e < r = ground (arith, h) in
        let filled : source e r ≡ some xs = ground (arith, h) in
        let full : length xs ≡ r - e = ground (arith, h, filled) in
        let ordered : in_sequence e xs ≡ true = ground (arith, h, filled) in
        (
          forward,
          filled,
          in_sequence-Consecutive e r xs (omega (arith, forward, full)) small ordered,
        ),
    λ (forward, filled, run).
        let (ordered, full) = Consecutive-in_sequence e r xs small run in
        ground (arith, forward, filled, ordered, full),
  )
