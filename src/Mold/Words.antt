-- ===== src/Mold/Words.antt =====
-- The words of moldudp64/MoldUdp64Codec.cpp: what is written is read back, and nothing else changes.
use low_latency_trading.Base.{ℕ, ◌+◌, ◌*◌, ◌/◌, ◌%◌, ◌^◌, ◌≤◌, ◌<◌, ◌≡◌, ◌⊎◌, arith}
use low_latency_trading.Mold.Codec.{Bytes, copy, write_u16, write_u64, read_u16, read_u64}

pub read-write_u16 : (d : Bytes) (o v : ℕ) → v < 2 ^ 16 → read_u16 (write_u16 d o v) o ≡ v
unfolding read_u16 write_u16
read-write_u16 d o v h = ground arith

-- Eight digits to the base 256 give the number back.
digits :
    (v : ℕ)
    → v < 2 ^ 64
    → v / 2 ^ 56 % 256 * 2 ^ 56
        + v / 2 ^ 48 % 256 * 2 ^ 48
        + v / 2 ^ 40 % 256 * 2 ^ 40
        + v / 2 ^ 32 % 256 * 2 ^ 32
        + v / 2 ^ 24 % 256 * 2 ^ 24
        + v / 2 ^ 16 % 256 * 2 ^ 16
        + v / 2 ^ 8 % 256 * 2 ^ 8
        + v % 256
      ≡ v
digits v h = omega arith

write_u64-bytes :
    (d : Bytes) (o v : ℕ)
    → (write_u64 d o v o ≡ v / 2 ^ 56 % 256)
      × (write_u64 d o v (o + 1) ≡ v / 2 ^ 48 % 256)
      × (write_u64 d o v (o + 2) ≡ v / 2 ^ 40 % 256)
      × (write_u64 d o v (o + 3) ≡ v / 2 ^ 32 % 256)
      × (write_u64 d o v (o + 4) ≡ v / 2 ^ 24 % 256)
      × (write_u64 d o v (o + 5) ≡ v / 2 ^ 16 % 256)
      × (write_u64 d o v (o + 6) ≡ v / 2 ^ 8 % 256)
      × (write_u64 d o v (o + 7) ≡ v % 256)
unfolding write_u64
write_u64-bytes d o v = (
  ground arith,
  ground arith,
  ground arith,
  ground arith,
  ground arith,
  ground arith,
  ground arith,
  ground arith,
)

pub read-write_u64 : (d : Bytes) (o v : ℕ) → v < 2 ^ 64 → read_u64 (write_u64 d o v) o ≡ v
unfolding read_u64
read-write_u64 d o v h =
    let (a, b, c, e, f, g, i, j) = write_u64-bytes d o v in
    omega (arith, a, b, c, e, f, g, i, j, digits v h)

pub write_u64-outside : (d : Bytes) (o v i : ℕ) → i < o ⊎ o + 8 ≤ i → write_u64 d o v i ≡ d i
unfolding write_u64
write_u64-outside d o v i h = ground (arith, h)

pub read_u64-same :
    (d e : Bytes) (o : ℕ) → ((i : ℕ) → o ≤ i → i < o + 8 → d i ≡ e i) → read_u64 d o ≡ read_u64 e o
unfolding read_u64
read_u64-same d e o h = omega (
  arith,
  h o (omega arith) (omega arith),
  h (o + 1) (omega arith) (omega arith),
  h (o + 2) (omega arith) (omega arith),
  h (o + 3) (omega arith) (omega arith),
  h (o + 4) (omega arith) (omega arith),
  h (o + 5) (omega arith) (omega arith),
  h (o + 6) (omega arith) (omega arith),
  h (o + 7) (omega arith) (omega arith),
)

pub read_u16-same :
    (d e : Bytes) (o : ℕ) → ((i : ℕ) → o ≤ i → i < o + 2 → d i ≡ e i) → read_u16 d o ≡ read_u16 e o
unfolding read_u16
read_u16-same d e o h =
    omega (arith, h o (omega arith) (omega arith), h (o + 1) (omega arith) (omega arith))

pub write_u16-above : (d : Bytes) (o v i : ℕ) → o + 2 ≤ i → write_u16 d o v i ≡ d i
unfolding write_u16
write_u16-above d o v i h = ground arith

pub write_u16-below : (d : Bytes) (o v i : ℕ) → i < o → write_u16 d o v i ≡ d i
unfolding write_u16
write_u16-below d o v i h = ground arith

pub copy-below : (d s : Bytes) (o n i : ℕ) → i < o → copy d o s n i ≡ d i
unfolding copy
copy-below d s o n i h = ground arith

pub copy-inside : (d s : Bytes) (o n i : ℕ) → i < n → copy d o s n (o + i) ≡ s i
unfolding copy
copy-inside d s o n i h = ground arith

pub copy-start : (d s : Bytes) (n i : ℕ) → i < n → copy d 0 s n i ≡ s i
unfolding copy
copy-start d s n i h = ground arith
