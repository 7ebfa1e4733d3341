-- ===== src/Itch/Wire/Numbers.antt =====
-- The words that itch/ItchDecoder.cpp reads are the numbers of the wire format.
use low_latency_trading.Base.{ℕ, ◌≡◌, arith}
use low_latency_trading.Mold.Codec.{Bytes}
use low_latency_trading.Itch.Decoder.{read_u16, read_u32, read_u48, read_u64}
use low_latency_trading.Itch.Wire.{number}

pub number-byte : (d : Bytes) (o : ℕ) → number 1 d o ≡ d o
unfolding number
number-byte d o = ground arith

pub number-u16 : (d : Bytes) (o : ℕ) → number 2 d o ≡ read_u16 d o
unfolding number read_u16
number-u16 d o = ground arith

pub number-u32 : (d : Bytes) (o : ℕ) → number 4 d o ≡ read_u32 d o
unfolding number read_u32
number-u32 d o = ground arith

pub number-u48 : (d : Bytes) (o : ℕ) → number 6 d o ≡ read_u48 d o
unfolding number read_u48
number-u48 d o = ground arith

pub number-u64 : (d : Bytes) (o : ℕ) → number 8 d o ≡ read_u64 d o
unfolding number read_u64
number-u64 d o = ground arith
