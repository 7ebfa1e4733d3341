-- ===== src/Archive/Slices.antt =====
-- What `recover` of moldudp64/FileMoldItchRecoverySource.cpp returns.
use mathlib.Core.Path.{subst}
use low_latency_trading.Base.{
  ℕ, zero, suc, ◌+◌, ◌-◌, ◌≤◌, ◌<◌, ◌≡◌, ◌≢◌, ◌^◌, refl, sym, ap, ◌∙◌, Option, some, List, [], ◌∷◌,
  arith, length, drop, take, All, u64, true, false,
}
use low_latency_trading.Mold.Codec.{Span}
use low_latency_trading.Feed.Types.{SequencedItchMessage, max_payload_size}
use low_latency_trading.Feed.Recovery.{Consecutive, Consecutive-in_sequence}
use low_latency_trading.Archive.{
  File, Source, Checkpoint, read_u16, pushed, read_records, skip_records, verified, recovered_from,
  recover, open_source, new_source,
}
use low_latency_trading.Archive.Records.{Records, read_next-message, Records-drop, Records-length}
use low_latency_trading.Archive.Index.{Marks, build_index_lem}

-- The records with the sequence numbers from `q` on.
abbrev pub numbered : ℕ → List Span → List SequencedItchMessage
numbered q [] = []
numbered q (r ∷ rs) = record { sequence = q; payload = r } ∷ numbered (q + 1) rs

abbrev pub Short : Span → Type 0
Short r = r.size ≤ max_payload_size

length-numbered : (q : ℕ) (rs : List Span) → length (numbered q rs) ≡ length rs
length-numbered q [] = refl
length-numbered q (r ∷ rs) = ap suc (length-numbered (q + 1) rs)

numbered-Consecutive :
    (q : ℕ) (rs : List Span) → Consecutive (λ x. x.sequence) q (numbered q rs) (q + length rs)
numbered-Consecutive q [] = omega arith
numbered-Consecutive q (r ∷ rs) = (
  refl,
  subst (Consecutive (λ x. x.sequence) (q + 1) (numbered (q + 1) rs)) (omega arith)
      (numbered-Consecutive (q + 1) rs),
)

length-take : (n : ℕ) (rs : List Span) → n ≤ length rs → length (take n rs) ≡ n
length-take zero rs h = refl
length-take (suc n) [] h = absurd (omega (arith, h))
length-take (suc n) (r ∷ rs) h = ap suc (length-take n rs (omega (arith, h)))

drop-nil : {A : Type 0} (n : ℕ) → drop {A = A} n [] ≡ []
drop-nil zero = refl
drop-nil (suc n) = refl

drop-drop : (a b : ℕ) (rs : List Span) → drop b (drop a rs) ≡ drop (a + b) rs
drop-drop zero b rs = ap (λ t. drop t rs) (omega arith)
drop-drop (suc a) b [] = drop-nil b ∙ sym (drop-nil (suc a + b))
drop-drop (suc a) b (r ∷ rs) =
    let shift : suc (a + b) ≡ suc a + b = omega arith in
    drop-drop a b rs ∙ ap (λ t. drop t (r ∷ rs)) shift

length-drop : (a : ℕ) (rs : List Span) → length (drop a rs) ≡ length rs - a
length-drop zero rs = omega arith
length-drop (suc a) [] = omega arith
length-drop (suc a) (r ∷ rs) = length-drop a rs ∙ omega arith

read_records-take :
    (f : File) (n q o : ℕ) (rs : List Span)
    → Records f.contents o rs
    → n ≤ length rs
    → q + n < 2 ^ 64
    → All Short (take n rs)
    → read_records n f q o ≡ some (numbered q (take n rs))
unfolding read_records pushed
read_records-take f zero q o rs h le small short = refl
read_records-take f (suc n) q o [] h le small short = absurd (omega (arith, le))
read_records-take f (suc n) q o (r ∷ rs) (has, same, h) le small (fits, short) =
    let e = o + 2 + read_u16 f.contents.bytes o in
    let wraps : u64 (q + 1) ≡ q + 1 = omega (arith, small) in
    let rest : read_records n f (u64 (q + 1)) e ≡ some (numbered (q + 1) (take n rs)) =
      ap (λ t. read_records n f t e) wraps
      ∙ read_records-take f n (q + 1) e rs h (omega (arith, le)) (omega (arith, small)) short in
    let limit : read_u16 f.contents.bytes o ≤ 2048 = omega (arith, ap (λ t. t.size) same, fits) in
    let k : ℕ → Option (List SequencedItchMessage) = λ x. read_records n f (u64 (q + 1)) x in
    ap (λ t. pushed t q k) (read_next-message f o has)
    ∙ ground (arith, has, limit, rest)
    ∙ ap (λ t. some (record { sequence = q; payload = t } ∷ numbered (q + 1) (take n rs)))
        (sym same)

numbered-verified :
    (q n : ℕ) (rs : List Span)
    → length rs ≡ n
    → q + n < 2 ^ 64
    → verified q n (some (numbered q rs)) ≡ some (numbered q rs)
unfolding verified
numbered-verified q n rs len small =
    let (ordered, full) =
      Consecutive-in_sequence (λ x. x.sequence) q (q + length rs) (numbered q rs)
        (omega (arith, len, small)) (numbered-Consecutive q rs) in
    let count : length (numbered q rs) ≡ n = length-numbered q rs ∙ len in
    ground (arith, ordered, count)

Records-unique : (s : Span) (o : ℕ) (rs ts : List Span) → Records s o rs → Records s o ts → rs ≡ ts
Records-unique s o [] [] h k = refl
Records-unique s o [] (t ∷ ts) h (has, at, k) = absurd (h has)
Records-unique s o (r ∷ rs) [] (has, at, h) k = absurd (k has)
Records-unique s o (r ∷ rs) (t ∷ ts) (has, same, h) (has', same', k) =
    ap (λ x. x ∷ rs) (same ∙ sym same')
    ∙ ap (λ xs. t ∷ xs) (Records-unique s (o + 2 + read_u16 s.bytes o) rs ts h k)

Records-bound : (s : Span) (o : ℕ) (rs : List Span) → Records s o rs → 0 < length rs → o < s.size
Records-bound s o [] h some' = absurd (omega (arith, some'))
Records-bound s o (r ∷ rs) (has, same, h) some' = omega (arith, has.1)

-- From a checkpoint of the records on.
marked-slice :
    (f : File) (d : Checkpoint) (first last : ℕ) (rs : List Span)
    → Marks f.contents 1 rs d
    → d.sequence ≤ first
    → first < last
    → last ≤ length rs + 1
    → last < 2 ^ 64
    → All Short (take (last - first) (drop (first - 1) rs))
    → (o : ℕ) × (skip_records (first - d.sequence) f d.file_offset ≡ some o)
      × (verified first (last - first) (read_records (last - first) f first o)
          ≡ some (numbered first (take (last - first) (drop (first - 1) rs))))
marked-slice f d first last rs (k, at, in', h) le forward within small short =
    let len = length-drop k rs in
    let (o, past, left) =
      Records-drop f (first - d.sequence) d.file_offset (drop k rs) h
        (omega (arith, len, at, le, forward, within)) in
    let shift : k + (first - d.sequence) ≡ first - 1 = omega (arith, at, le) in
    let same : drop (first - d.sequence) (drop k rs) ≡ drop (first - 1) rs =
      drop-drop k (first - d.sequence) rs ∙ ap (λ t. drop t rs) shift in
    let rest : Records f.contents o (drop (first - 1) rs) =
      subst (Records f.contents o) same left in
    let enough : last - first ≤ length (drop (first - 1) rs) =
      omega (arith, length-drop (first - 1) rs, forward, within) in
    let below : first + (last - first) < 2 ^ 64 = omega (arith, small, forward) in
    let read =
      read_records-take f (last - first) first o (drop (first - 1) rs) rest enough below short in
    (
      o,
      past,
      ap (verified first (last - first)) read
          ∙ numbered-verified first (last - first) (take (last - first) (drop (first - 1) rs))
              (length-take (last - first) (drop (first - 1) rs) enough) below,
    )

-- For a file below 2 ^ 63 bytes whose reads do not go bad, a checkpoint interval above 0, no
-- usable stored index and a new one that is saved and opened: `recover` of the numbers from a
-- first one above 0 up to a later one, at most one more than the number of records of the file,
-- returns exactly the records with these numbers, in order and numbered, when none of them is
-- longer than a message may be.
pub recover-slice :
    (f : File) (interval first last : ℕ) (rs : List Span)
    → interval ≢ 0
    → f.contents.size < 2 ^ 63
    → ((x : ℕ) → f.bad x ≡ false)
    → Records f.contents 0 rs
    → 0 < first
    → first < last
    → last ≤ length rs + 1
    → All Short (take (last - first) (drop (first - 1) rs))
    → (recover (open_source f interval true true) first last).0
      ≡ some (numbered first (take (last - first) (drop (first - 1) rs)))
unfolding recover recovered_from open_source new_source
recover-slice f interval first last [] some' small good h pos forward within short =
    absurd (omega (arith, pos, forward, within))
recover-slice f interval first last (r ∷ rs) some' small good (has, at, h) pos forward within
      short =
    let s = new_source f interval in
    let (ts, cs, recs, built, finds) = build_index_lem s small good has in
    let same : ts ≡ r ∷ rs = Records-unique f.contents 0 ts (r ∷ rs) recs (has, at, h) in
    let (d, found, mark, le) = finds first pos in
    let mark' : Marks f.contents 1 (r ∷ rs) d = subst (λ xs. Marks f.contents 1 xs d) same mark in
    let bound = Records-length f.contents 0 (r ∷ rs) (has, at, h) (omega arith) in
    let (o, past, done) =
      marked-slice f d first last (r ∷ rs) mark' le forward within
        (omega (arith, within, bound, small)) short in
    let near : d.file_offset < f.contents.size =
      Records-bound f.contents d.file_offset (drop (mark'.0) (r ∷ rs)) mark'.3
        (omega (arith, length-drop (mark'.0) (r ∷ rs), mark'.2)) in
    let t : Source = record s {
      checkpoints = cs;
      indexed_messages = length ts;
      index_ready = true;
    } in
    let opened : open_source f interval true true ≡ t = ground (arith, some', built) in
    let many : length ts ≡ length (r ∷ rs) = ap length same in
    let got : recovered_from t first last
        ≡ some (numbered first (take (last - first) (drop (first - 1) (r ∷ rs)))) =
      ground (arith, pos, forward, within, many, found, near, small, past, done) in
    ap (λ u. (recover u first last).0) opened ∙ ground (arith, got)
