-- ===== src/Itch/Wire/Bounds.antt =====
-- The bounds that the numbers of itch/ItchDispatcher.cpp's messages keep.
use low_latency_trading.Base.{ℕ, zero, suc, ◌+◌, ◌^◌, ◌<◌, ◌≡◌, some, List, [], ◌∷◌, arith}
use native.Mathlib.Numerals.{unary_clauses}
use low_latency_trading.Mold.Codec.{Bytes, Span}
use low_latency_trading.Itch.Dispatcher.{dispatch}
use low_latency_trading.Itch.Messages.{ItchMessage}
use low_latency_trading.Itch.Wire.{Field, num, text, number, Laid, fields}
use low_latency_trading.Itch.Wire.Dispatch.{dispatch-Accepted}

number-lt : (w : ℕ) (d : Bytes) (o : ℕ) → ((i : ℕ) → d i < 256) → number w d o < 256 ^ w
unfolding number
number-lt zero d o h = omega arith
number-lt (suc w) d o h = simp unary_clauses (omega (arith, number-lt w d o h, h (o + w)))

-- Every number is below the power of 256 of its field.
abbrev pub Bounded : List Field → Type 0
Bounded [] = Unit {0}
Bounded (num w v ∷ fs) = (v < 256 ^ w) × Bounded fs
Bounded (text w xs ∷ fs) = Bounded fs

Laid-Bounded :
    (d : Bytes) (o : ℕ) (fs : List Field) → ((i : ℕ) → d i < 256) → Laid d o fs → Bounded fs
Laid-Bounded d o [] h laid = tt
Laid-Bounded d o (num w v ∷ fs) h (a, laid) =
    (omega (arith, number-lt w d o h, a), Laid-Bounded d (o + w) fs h laid)
Laid-Bounded d o (text w xs ∷ fs) h (a, laid) = Laid-Bounded d (o + w) fs h laid

-- Every number of a message that `dispatch` reads from bytes below 256 is below the power of 256
-- of its field.
pub dispatch-Bounded :
    (s : Span) (m : ItchMessage)
    → ((i : ℕ) → s.bytes i < 256)
    → dispatch (some s) ≡ some m
    → Bounded (fields m)
dispatch-Bounded s m h e = Laid-Bounded s.bytes 0 (fields m) h ((dispatch-Accepted s m).0 e).1
