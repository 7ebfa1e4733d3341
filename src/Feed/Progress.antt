-- ===== src/Feed/Progress.antt =====
-- What it means that a feed handler has delivered messages of successive numbers, each with the
-- number that it came with.
use mathlib.Core.Path.{subst}
use mathlib.Core.List.{Memᴰ}
use low_latency_trading.Base.{
  ℕ, zero, suc, ◌≤◌, All, Option, ◌+◌, ◌<◌, ◌^◌, ◌≡◌, ◌⊎◌, refl, sym, Bool, true, false, some, List,
  [], ◌∷◌, ◌++◌, inl, inr,
}
use low_latency_trading.Mold.Codec.{Span, read_u16, read_u64}
use low_latency_trading.Itch.Messages.{ItchMessage}
use low_latency_trading.Itch.Dispatcher.{dispatch}
use low_latency_trading.Feed.Types.{SequencedItchMessage}
use low_latency_trading.Feed.Recovery.{Consecutive}
use low_latency_trading.Feed.MoldItch.{Feed}

-- The sequence numbers of the datagram do not wrap around.
abbrev pub Unwrapped : Span → Type 0
Unwrapped s = read_u64 s.bytes 10 + read_u16 s.bytes 18 < 2 ^ 64

-- The bytes after the length at the offset.
abbrev pub payload_at : Span → ℕ → Span
payload_at s o = record { bytes = λ i. s.bytes (o + 2 + i); size = read_u16 s.bytes o }

abbrev pub Run : ℕ → List SequencedItchMessage → ℕ → Type 0
Run = Consecutive (λ x. x.sequence)

Run-append :
    (e m r : ℕ) (xs ys : List SequencedItchMessage) → Run e xs m → Run m ys r → Run e (xs ++ ys) r
Run-append e m r [] ys h k = subst (λ x. Run x ys r) (sym h) k
Run-append e m r (x ∷ xs) ys (a, h) k = (a, Run-append (e + 1) m r xs ys h k)

All-append :
    (P : SequencedItchMessage → Type 0) (xs ys : List SequencedItchMessage)
    → All P xs
    → All P ys
    → All P (xs ++ ys)
All-append P [] ys h k = k
All-append P (x ∷ xs) ys (a, h) k = (a, All-append P xs ys h k)

pub All-of :
    (P : SequencedItchMessage → Type 0) (xs : List SequencedItchMessage)
    → ((x : SequencedItchMessage) → Memᴰ x xs → P x)
    → All P xs
All-of P [] h = tt
All-of P (x ∷ xs) h = (h x (Memᴰ.head refl), All-of P xs (λ y d. h y (Memᴰ.tail d)))

-- `n` messages of the datagram, the first with the number `q` and behind its length at `o`.
abbrev pub items_from : Span → ℕ → ℕ → ℕ → List SequencedItchMessage
items_from s zero o q = []
items_from s (suc n) o q =
    record { sequence = q; payload = payload_at s o }
    ∷ items_from s n (o + 2 + read_u16 s.bytes o) (q + 1)

-- The messages that the header of the datagram counts, with their numbers.
abbrev pub items : Span → List SequencedItchMessage
items s = items_from s (read_u16 s.bytes 18) 20 (read_u64 s.bytes 10)

-- The messages of the datagrams.
abbrev pub wire : List Span → List SequencedItchMessage
wire [] = []
wire (s ∷ ss) = items s ++ wire ss

-- Where a message comes from, with its number: from the wire, or from what the source of lost
-- messages returned.
abbrev pub Sourced :
    (ℕ → ℕ → Option (List SequencedItchMessage))
    → List SequencedItchMessage
    → SequencedItchMessage
    → Type 0
Sourced source ws x =
    Memᴰ x ws
    ⊎ ((e : ℕ) × ((r : ℕ) × ((xs : List SequencedItchMessage) × (source e r ≡ some xs)
            × Memᴰ x xs)))

module _ {M : Type 0} (deliver : M → ItchMessage → M) where
  -- The market goes from `m` to `w` by the messages of `xs`, one after another.
  abbrev pub Delivered : M → List SequencedItchMessage → M → Type 0
  Delivered m [] w = m ≡ w
  Delivered m (x ∷ xs) w =
      (a : ItchMessage) × (dispatch (some x.payload) ≡ some a) × Delivered (deliver m a) xs w

  Delivered-append :
      (m w z : M) (xs ys : List SequencedItchMessage)
      → Delivered m xs w
      → Delivered w ys z
      → Delivered m (xs ++ ys) z
  Delivered-append m w z [] ys h k = subst (λ x. Delivered x ys z) (sym h) k
  Delivered-append m w z (x ∷ xs) ys (a, e, h) k =
      (a, e, Delivered-append (deliver m a) w z xs ys h k)

  -- From `m` to `w` by messages whose numbers run from `e` up to `r`, and which all satisfy `From`.
  abbrev pub Progress : (SequencedItchMessage → Type 0) → M → ℕ → M → ℕ → Type 0
  Progress From m e w r =
      (xs : List SequencedItchMessage) × Run e xs r × All From xs × Delivered m xs w

  pub Progress-none : (From : SequencedItchMessage → Type 0) (m : M) (e : ℕ) → Progress From m e m e
  Progress-none From m e = ([], refl, tt, refl)

  pub Progress-one :
      (From : SequencedItchMessage → Type 0) (m : M) (e : ℕ) (w : M) (r : ℕ) (s : Span)
      (a : ItchMessage)
      → Progress From m e w r
      → From (record { sequence = r; payload = s })
      → dispatch (some s) ≡ some a
      → Progress From m e (deliver w a) (r + 1)
  Progress-one From m e w r s a (xs, run, from, done) origin h =
      let x : SequencedItchMessage = record { sequence = r; payload = s } in
      (
        xs ++ x ∷ [],
        Run-append e r (r + 1) xs (x ∷ []) run (refl, refl),
        All-append From xs (x ∷ []) from (origin, tt),
        Delivered-append m w (deliver w a) xs (x ∷ []) done (a, h, refl),
      )

  module _ (From : SequencedItchMessage → Type 0) (m : M) where
    -- No message has come.
    abbrev pub Fresh : Feed M → Type 0
    Fresh f = (f.has_sequence ≡ false) × (f.expected_sequence ≡ 0) × (f.market ≡ m)

    -- All messages from `e` up to the next expected number have been delivered.
    abbrev pub Live : ℕ → Feed M → Type 0
    Live e f = (f.has_sequence ≡ true) × Progress From m e f.market f.expected_sequence

    -- All messages from `e` up to some number have been delivered.
    abbrev pub Halted : ℕ → Feed M → Type 0
    Halted e f = (r : ℕ) × Progress From m e f.market r

    -- Before a message with the number `q`, which is the first where nothing has come.
    abbrev pub Current : ℕ → ℕ → Feed M → Type 0
    Current e q f = (Fresh f × (e ≡ q)) ⊎ Live e f

    pub Current-Halted : (e q : ℕ) (f : Feed M) → Current e q f → Halted e f
    Current-Halted e q f (inl ((none', zero', same), at)) =
        (e, subst (λ w. Progress From m e w e) (sym same) (Progress-none From m e))
    Current-Halted e q f (inr (some', p)) = (f.expected_sequence, p)

    -- Going on, with all numbers below `q` and below `x` passed; or halted.
    abbrev pub Outcome : ℕ → ℕ → ℕ → Bool → Bool × Feed M → Type 0
    Outcome e q x running (true, g) =
        Live e g × (q ≤ g.expected_sequence) × (x ≤ g.expected_sequence) × (g.is_running ≡ running)
    Outcome e q x running (false, g) = Halted e g
