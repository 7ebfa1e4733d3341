-- ===== src/Itch/Decoder/Words.antt =====
-- itch/ItchDecoder.cpp: the words, the character fields, and the guards that every decoder begins
-- with.
use low_latency_trading.Base.{
  ℕ, zero, suc, ◌+◌, ◌*◌, ◌^◌, Option, none, some, List, [], ◌∷◌, ◌==◌, if◌then◌else◌,
}
use low_latency_trading.Mold.Codec.{Bytes, Span}

-- The shifted bytes have no bit in common, so `|` is a sum.
unfoldable pub read_u16 : Bytes → ℕ → ℕ
read_u16 d o = d o * 2 ^ 8 + d (o + 1)

unfoldable pub read_u32 : Bytes → ℕ → ℕ
read_u32 d o = d o * 2 ^ 24 + d (o + 1) * 2 ^ 16 + d (o + 2) * 2 ^ 8 + d (o + 3)

unfoldable pub read_u48 : Bytes → ℕ → ℕ
read_u48 d o =
    d o * 2 ^ 40
    + d (o + 1) * 2 ^ 32
    + d (o + 2) * 2 ^ 24
    + d (o + 3) * 2 ^ 16
    + d (o + 4) * 2 ^ 8
    + d (o + 5)

unfoldable pub read_u64 : Bytes → ℕ → ℕ
read_u64 d o =
    d o * 2 ^ 56
    + d (o + 1) * 2 ^ 48
    + d (o + 2) * 2 ^ 40
    + d (o + 3) * 2 ^ 32
    + d (o + 4) * 2 ^ 24
    + d (o + 5) * 2 ^ 16
    + d (o + 6) * 2 ^ 8
    + d (o + 7)

-- `n` characters from the offset `o`, by `std::copy_n` or a loop.
unfoldable pub chars : ℕ → Bytes → ℕ → List ℕ
chars zero d o = []
chars (suc n) d o = d o ∷ chars n d (o + 1)

-- The null pointer, another size and another type are refused before any field is read.
unfoldable pub decoded : {A : Type 0} → Option Span → ℕ → ℕ → (Bytes → A) → Option A
decoded none size type f = none
decoded (some s) size type f =
    if s.size == size then if s.bytes 0 == type then some (f s.bytes) else none else none
