-- ===== src/Archive.antt =====
-- common/market_data: the recovery of lost messages from a file, moldudp64/FileMoldItchRecoverySource
-- over itch/ItchStreamReader. The file is a span of memory; `bad o` says whether a read that comes
-- short from the offset `o` on leaves the stream bad.
pub mod Records
pub mod Index
pub mod Slices
use low_latency_trading.Base.{
  ℕ, zero, suc, ◌+◌, ◌-◌, ◌*◌, ◌%◌, ◌^◌, Bool, true, false, not, ◌||◌, ◌&&◌, Option, none, some,
  List, [], ◌∷◌, ltb, ◌==◌, if◌then◌else◌, u64, length,
}
use low_latency_trading.Mold.Codec.{Bytes, Span}
use low_latency_trading.Feed.Types.{SequencedItchMessage, max_payload_size}
use low_latency_trading.Feed.Recovery.{in_sequence}

pub record File : Type 0 where
  pub contents : Span
  pub bad : ℕ → Bool

pub data ReadResult : Type 0 where
  message : Span → ReadResult
  end_of_session incomplete error : ReadResult

unfoldable pub read_u16 : Bytes → ℕ → ℕ
read_u16 d o = d o * 256 + d (o + 1)

-- `readNext` with the stream at the offset `o`, and where it leaves the stream.
unfoldable pub read_next : File → ℕ → ReadResult × ℕ
unfolding read_u16
read_next f o =
    let s = f.contents in
    if ltb s.size (o + 2)
    then (if not (ltb o s.size) then if f.bad o then error else incomplete else incomplete, o)
    else (let n = read_u16 s.bytes o in
        if n == 0
        then (end_of_session, o + 2)
        else if ltb s.size (o + 2 + n)
        then (if f.bad (o + 2) then error else incomplete, o)
        else (message (record { bytes = λ i. s.bytes (o + 2 + i); size = n }), o + 2 + n))

pub record Checkpoint : Type 0 where
  pub sequence : ℕ
  pub file_offset : ℕ

-- A record in the index: a checkpoint where its number is one more than a multiple.
unfoldable pub counted : ℕ → ℕ → ℕ → Option (List Checkpoint × ℕ) → Option (List Checkpoint × ℕ)
counted interval q o none = none
counted interval q o (some (cs, n)) = some (
  if (q - 1) % interval == 0 then record { sequence = q; file_offset = o } ∷ cs else cs,
  u64 (n + 1),
)

unfoldable pub indexed :
    ReadResult × ℕ → ℕ → ℕ → ℕ → (ℕ → Option (List Checkpoint × ℕ)) → Option (List Checkpoint × ℕ)
unfolding counted
indexed (message s, e) interval q o k = counted interval q o (k e)
indexed (end_of_session, e) interval q o k = some ([], 0)
indexed (incomplete, e) interval q o k = some ([], 0)
indexed (error, e) interval q o k = none

-- The loop of `buildIndex`: the checkpoints and the number of records from the offset `o` on.
unfoldable pub build_from : ℕ → File → ℕ → ℕ → ℕ → Option (List Checkpoint × ℕ)
unfolding indexed
build_from zero f interval q o = none
build_from (suc fuel) f interval q o =
    indexed (read_next f o) interval q o (λ e. build_from fuel f interval (u64 (q + 1)) e)

pub record Source : Type 0 where
  pub file : File
  pub checkpoint_interval : ℕ
  pub checkpoints : List Checkpoint
  pub indexed_messages : ℕ
  pub index_ready : Bool
  pub recovery_requests : ℕ
  pub recovered_messages : ℕ

unfoldable pub is_empty : List Checkpoint → Bool
is_empty [] = true
is_empty (c ∷ cs) = false

-- `buildIndex`. A record takes at least three bytes, so the size of the file is fuel enough.
unfoldable pub build_index : Source → Bool × Source
unfolding build_from is_empty
build_index s = elim (build_from (suc s.file.contents.size) s.file s.checkpoint_interval 1 0) [
  | none ↦ (false, record s { checkpoints = []; indexed_messages = 0 })
  | some (cs, n) ↦ (not (is_empty cs), record s { checkpoints = cs; indexed_messages = n })
]

unfoldable pub new_source : File → ℕ → Source
new_source f interval = record {
  file = f;
  checkpoint_interval = interval;
  checkpoints = [];
  indexed_messages = 0;
  index_ready = false;
  recovery_requests = 0;
  recovered_messages = 0;
}

-- The constructor where no stored index is usable. What `saveIndex` and `openRecoveryFile` return
-- is up to the file system.
unfoldable pub open_source : File → ℕ → (saved is_open : Bool) → Source
unfolding new_source build_index
open_source f interval saved is_open =
    let s = new_source f interval in
    if interval == 0
    then s
    else record (build_index s).1 { index_ready = (build_index s).0 && saved && is_open }

-- The last checkpoint before the first one beyond the sequence number.
unfoldable pub before : Option Checkpoint → List Checkpoint → ℕ → Option Checkpoint
before c [] q = c
before c (d ∷ ds) q = let rest = before (some d) ds q in if ltb q d.sequence then c else rest

unfoldable pub find_checkpoint : List Checkpoint → ℕ → Option Checkpoint
unfolding before is_empty
find_checkpoint cs q = if is_empty cs || q == 0 then none else before none cs q

-- Past `n` records.
unfoldable pub skipped : ReadResult × ℕ → (ℕ → Option ℕ) → Option ℕ
skipped (message s, e) k = k e
skipped (other, e) k = none

unfoldable pub skip_records : ℕ → File → ℕ → Option ℕ
unfolding skipped
skip_records zero f o = some o
skip_records (suc n) f o = skipped (read_next f o) (λ e. skip_records n f e)

-- One more message of the result.
unfoldable pub pushed :
    ReadResult × ℕ
    → ℕ
    → (ℕ → Option (List SequencedItchMessage))
    → Option (List SequencedItchMessage)
pushed (message s, e) q k =
    let rest = k e in
    if s.size == 0 || ltb max_payload_size s.size
    then none
    else elim rest [ none ↦ none | some xs ↦ some (record { sequence = q; payload = s } ∷ xs) ]
pushed (other, e) q k = none

unfoldable pub read_records : ℕ → File → ℕ → ℕ → Option (List SequencedItchMessage)
unfolding pushed
read_records zero f q o = some []
read_records (suc n) f q o = pushed (read_next f o) q (λ e. read_records n f (u64 (q + 1)) e)

-- The checks after the loops of `recover`.
unfoldable pub verified :
    ℕ → ℕ → Option (List SequencedItchMessage) → Option (List SequencedItchMessage)
verified first count none = none
verified first count (some xs) =
    if length xs == count
    then if in_sequence (λ x. x.sequence) first xs then some xs else none
    else none

-- The messages from `first` up to `last` exclusively, where the index allows it.
unfoldable pub recovered_from : Source → ℕ → ℕ → Option (List SequencedItchMessage)
unfolding verified
recovered_from s first last =
    if not (ltb first last) || first == 0 || not s.index_ready
    then none
    else if ltb s.indexed_messages (last - 1)
    then none
    else elim (find_checkpoint s.checkpoints first) [
      | none ↦ none
      | some c ↦
          if ltb (2 ^ 63 - 1) c.file_offset
          then none
          else elim (skip_records (first - c.sequence) s.file c.file_offset) [
            | none ↦ none
            | some o ↦ verified first (last - first) (read_records (last - first) s.file first o)
          ]
    ]

-- `recover`, with what is left in the vector.
unfoldable pub recover : Source → ℕ → ℕ → Option (List SequencedItchMessage) × Source
unfolding recovered_from
recover s first last =
    let t : Source = record s { recovery_requests = u64 (s.recovery_requests + 1) } in
    elim (recovered_from s first last) [
      | none ↦ (none, t)
      | some xs ↦
          (some xs, record t { recovered_messages = u64 (t.recovered_messages + length xs) })
    ]
