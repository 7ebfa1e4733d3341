-- ===== src/Archive/Index.antt =====
-- What `buildIndex` of moldudp64/FileMoldItchRecoverySource.cpp stores.
use native.Mathlib.Nat.{zero-mod}
use mathlib.Core.Path.{subst}
use low_latency_trading.Base.{
  ℕ, zero, suc, ◌+◌, ◌-◌, ◌%◌, ◌≤◌, ◌<◌, ◌≡◌, ◌^◌, refl, sym, ap, ◌∙◌, inl, inr, Bool-cases,
  Option-cases, Option, none, some, List, [], ◌∷◌, arith, length, drop, All, ltb, ◌==◌, u64, true,
  false,
}
use low_latency_trading.Mold.Codec.{Span}
use low_latency_trading.Archive.{
  File, read_next, read_u16, Checkpoint, Source, counted, indexed, build_from, build_index,
  is_empty, before, find_checkpoint,
}
use low_latency_trading.Archive.Records.{
  HasRecord, Records, record_at, read_next-message, read_next-other, HasRecord-cases,
  Records-length,
}

-- A checkpoint of the records `rs`, the first of which has the number `q`.
abbrev pub Marks : Span → ℕ → List Span → Checkpoint → Type 0
Marks s q rs c =
    (k : ℕ) × (c.sequence ≡ q + k) × (k < length rs) × Records s c.file_offset (drop k rs)

Marks-later :
    (s : Span) (q : ℕ) (r : Span) (rs : List Span) (cs : List Checkpoint)
    → All (Marks s (q + 1) rs) cs
    → All (Marks s q (r ∷ rs)) cs
Marks-later s q r rs [] h = tt
Marks-later s q r rs (c ∷ cs) ((k, at, in', h), hs) =
    ((suc k, omega (arith, at), omega (arith, in'), h), Marks-later s q r rs cs hs)

-- What the loop has found from the offset `o` on.
abbrev pub Found : Span → ℕ → ℕ → List Checkpoint → ℕ → Type 0
Found s q o cs n = (rs : List Span) × Records s o rs × (length rs ≡ n) × All (Marks s q rs) cs

counted-Found :
    (s : Span) (interval q o : ℕ) (b : Option (List Checkpoint × ℕ)) (cs : List Checkpoint) (n : ℕ)
    → HasRecord s o
    → s.size < 2 ^ 63
    → ((ds : List Checkpoint) (m : ℕ)
        → b ≡ some (ds, m)
        → Found s (q + 1) (o + 2 + read_u16 s.bytes o) ds m)
    → counted interval q o b ≡ some (cs, n)
    → Found s q o cs n
unfolding counted
counted-Found s interval q o none cs n has small h e = ground (arith, e)
counted-Found s interval q o (some (ds, m)) cs n has small h e =
    let (rs, recs, len, marks) = h ds m refl in
    let all : Records s o (record_at s o ∷ rs) = (has, refl, recs) in
    let later = Marks-later s q (record_at s o) rs ds marks in
    let bound = Records-length s (o + 2 + read_u16 s.bytes o) rs recs has.1 in
    let count : u64 (m + 1) ≡ n = ground (arith, e) in
    let longer : suc (length rs) ≡ n = omega (arith, count, len, bound, small) in
    let c : Checkpoint = record { sequence = q; file_offset = o } in
    elim (Bool-cases ((q - 1) % interval == 0)) [
      | inl mark ↦
          let same : c ∷ ds ≡ cs = ground (arith, e, mark) in
          (
            record_at s o ∷ rs,
            all,
            longer,
            subst (All (Marks s q (record_at s o ∷ rs))) same
                ((0, omega arith, omega arith, all), later),
          )
      | inr skip ↦
          let same : ds ≡ cs = ground (arith, e, skip) in
          (record_at s o ∷ rs, all, longer, subst (All (Marks s q (record_at s o ∷ rs))) same later)
    ]

none-Found :
    (s : Span) (q o : ℕ) (b : Option (List Checkpoint × ℕ)) (cs : List Checkpoint) (n : ℕ)
    → ¬ HasRecord s o
    → b ≡ some ([], 0)
    → b ≡ some (cs, n)
    → Found s q o cs n
none-Found s q o b cs n other nothing e =
    let nil : [] ≡ cs = ground (arith, nothing, e) in
    let zero' : 0 ≡ n = ground (arith, nothing, e) in
    ([], other, zero', subst (All (Marks s q [])) nil tt)

pub build_from-Found :
    (fuel : ℕ) (f : File) (interval q o : ℕ) (cs : List Checkpoint) (n : ℕ)
    → f.contents.size < 2 ^ 63
    → q ≤ o + 1
    → build_from fuel f interval q o ≡ some (cs, n)
    → Found f.contents q o cs n
unfolding build_from indexed
build_from-Found zero f interval q o cs n small le e = ground (arith, e)
build_from-Found (suc fuel) f interval q o cs n small le e =
    let k : ℕ → Option (List Checkpoint × ℕ) = λ x. build_from fuel f interval (u64 (q + 1)) x in
    elim (HasRecord-cases f.contents o) [
      | inl has ↦
          let x = o + 2 + read_u16 f.contents.bytes o in
          let wraps : u64 (q + 1) ≡ q + 1 = omega (arith, le, has.1, small) in
          let step : counted interval q o (k x) ≡ some (cs, n) =
            sym (ap (λ t. indexed t interval q o k) (read_next-message f o has)) ∙ e in
          counted-Found f.contents interval q o (k x) cs n has small
            (λ ds m done.
              build_from-Found fuel f interval (q + 1) x ds m small (omega (arith, le))
                (ap (λ t. build_from fuel f interval t x) (sym wraps) ∙ done))
            step
      | inr other ↦ elim (read_next-other f o other) [
        | inl (x, at) ↦
            none-Found f.contents q o (indexed (read_next f o) interval q o k) cs n other
              (ap (λ t. indexed t interval q o k) at) e
        | inr (inl (x, at)) ↦
            none-Found f.contents q o (indexed (read_next f o) interval q o k) cs n other
              (ap (λ t. indexed t interval q o k) at) e
        | inr (inr (x, at, bad)) ↦
            let b : Option (List Checkpoint × ℕ) = indexed (read_next f o) interval q o k in
            let gone : b ≡ none = ap (λ t. indexed t interval q o k) at in ground (arith, gone, e)
      ]
    ]

-- With as much fuel as there are bytes, and no bad read, the loop ends.
pub build_from-some :
    (fuel : ℕ) (f : File) (interval q o : ℕ)
    → ((x : ℕ) → f.bad x ≡ false)
    → o ≤ f.contents.size
    → f.contents.size < o + fuel
    → (cs : List Checkpoint) × (n : ℕ) × (build_from fuel f interval q o ≡ some (cs, n))
unfolding build_from indexed counted
build_from-some zero f interval q o good le enough = absurd (omega (arith, le, enough))
build_from-some (suc fuel) f interval q o good le enough =
    let k : ℕ → Option (List Checkpoint × ℕ) = λ x. build_from fuel f interval (u64 (q + 1)) x in
    elim (HasRecord-cases f.contents o) [
      | inl has ↦
          let x = o + 2 + read_u16 f.contents.bytes o in
          let (cs, n, done) =
            build_from-some fuel f interval (u64 (q + 1)) x good has.1 (omega (arith, enough)) in
          (
            _,
            _,
            ap (λ t. indexed t interval q o k) (read_next-message f o has)
                ∙ ap (λ t. counted interval q o t) done,
          )
      | inr other ↦ elim (read_next-other f o other) [
        | inl (x, at) ↦ ([], 0, ap (λ t. indexed t interval q o k) at)
        | inr (inl (x, at)) ↦ ([], 0, ap (λ t. indexed t interval q o k) at)
        | inr (inr (x, at, (y, bad))) ↦ ground (arith, good y, bad)
      ]
    ]

-- The first record is a checkpoint.
first-checkpoint :
    (fuel : ℕ) (f : File) (interval : ℕ) (cs : List Checkpoint) (n : ℕ)
    → HasRecord f.contents 0
    → build_from fuel f interval 1 0 ≡ some (cs, n)
    → (ds : List Checkpoint) × (cs ≡ record { sequence = 1; file_offset = 0 } ∷ ds)
unfolding build_from indexed counted
first-checkpoint zero f interval cs n has e = ground (arith, e)
first-checkpoint (suc fuel) f interval cs n has e =
    let x = 2 + read_u16 f.contents.bytes 0 in
    let k : ℕ → Option (List Checkpoint × ℕ) = λ x. build_from fuel f interval 2 x in
    let step : counted interval 1 0 (k x) ≡ some (cs, n) =
      sym (ap (λ t. indexed t interval 1 0 k) (read_next-message f 0 has)) ∙ e in
    elim (Option-cases (k x)) [
      | inl gone ↦ ground (arith, step, gone)
      | inr ((ds, m), rest) ↦ (ds, ground (arith, step, rest, zero-mod interval))
    ]

-- The checkpoint that is found.
before_lem :
    (P : Checkpoint → Type 0) (c : Checkpoint) (cs : List Checkpoint) (q : ℕ)
    → P c
    → c.sequence ≤ q
    → All P cs
    → (d : Checkpoint) × (before (some c) cs q ≡ some d) × P d × (d.sequence ≤ q)
unfolding before
before_lem P c [] q h le hs = (c, refl, h, le)
before_lem P c (d ∷ ds) q h le (k, ks) = elim (Bool-cases (ltb q d.sequence)) [
  | inl beyond ↦ (c, ground (arith, beyond), h, le)
  | inr within ↦
      let (x, found, p, small) = before_lem P d ds q k (ground (arith, within)) ks in
      (x, ground (arith, within, found), p, small)
]

-- The index of a file with a record and without bad reads.
pub build_index_lem :
    (s : Source)
    → s.file.contents.size < 2 ^ 63
    → ((x : ℕ) → s.file.bad x ≡ false)
    → HasRecord s.file.contents 0
    → (rs : List Span) × (cs : List Checkpoint) × Records s.file.contents 0 rs
      × (build_index s ≡ (true, record s { checkpoints = cs; indexed_messages = length rs }))
      × ((q : ℕ)
          → 0 < q
          → (d : Checkpoint) × (find_checkpoint cs q ≡ some d)
            × Marks s.file.contents 1 rs d
            × (d.sequence ≤ q))
unfolding build_index find_checkpoint is_empty before
build_index_lem s small good has =
    let f = s.file in
    let (cs, n, done) =
      build_from-some (suc f.contents.size) f s.checkpoint_interval 1 0 good (omega arith)
        (omega arith) in
    let (rs, recs, len, marks) =
      build_from-Found (suc f.contents.size) f s.checkpoint_interval 1 0 cs n small (omega arith)
        done in
    let (ds, first) =
      first-checkpoint (suc f.contents.size) f s.checkpoint_interval cs n has done in
    let c : Checkpoint = record { sequence = 1; file_offset = 0 } in
    let (mark, others) = subst (All (Marks f.contents 1 rs)) first marks in
    let result : build_index s ≡ (true, record s { checkpoints = cs; indexed_messages = n }) =
      ground (arith, done, first) in
    (
      rs,
      cs,
      recs,
      subst (λ t. build_index s ≡ (true, record s { checkpoints = cs; indexed_messages = t }))
          (sym len) result,
      λ q pos.
          let (d, found, p, le) = before_lem (Marks f.contents 1 rs) c ds q mark pos others in
          let there : find_checkpoint cs q ≡ some d = ground (arith, first, found, pos) in
          (d, there, p, le),
    )
