-- ===== src/Archive/Records.antt =====
-- The records of a file, apart from any reader: each is a length of two bytes, which is not 0, and
-- as many bytes.
use low_latency_trading.Base.{
  ℕ, zero, suc, ◌+◌, ◌≤◌, ◌<◌, ◌≡◌, ◌⊎◌, true, refl, ap, ◌∙◌, inl, inr, Bool-cases, some, List, [],
  ◌∷◌, arith, length, drop, ltb, ◌==◌,
}
use low_latency_trading.Mold.Codec.{Span}
use low_latency_trading.Archive.{
  File, message, end_of_session, incomplete, error, read_next, read_u16, skip_records, skipped,
}

-- A whole record stands at the offset.
abbrev pub HasRecord : Span → ℕ → Type 0
HasRecord s o = (0 < read_u16 s.bytes o) × (o + 2 + read_u16 s.bytes o ≤ s.size)

abbrev pub record_at : Span → ℕ → Span
record_at s o = record { bytes = λ i. s.bytes (o + 2 + i); size = read_u16 s.bytes o }

-- From the offset `o` on there are exactly the records `rs`.
abbrev pub Records : Span → ℕ → List Span → Type 0
Records s o [] = ¬ HasRecord s o
Records s o (r ∷ rs) =
    HasRecord s o × (r ≡ record_at s o) × Records s (o + 2 + read_u16 s.bytes o) rs

pub read_next-message :
    (f : File) (o : ℕ)
    → HasRecord f.contents o
    → read_next f o ≡ (message (record_at f.contents o), o + 2 + read_u16 f.contents.bytes o)
unfolding read_next
read_next-message f o (some', fits) = ground (arith, some', fits)

-- What `readNext` returns where no whole record stands.
pub read_next-other :
    (f : File) (o : ℕ)
    → ¬ HasRecord f.contents o
    → ((e : ℕ) × (read_next f o ≡ (end_of_session, e)))
      ⊎ (((e : ℕ) × (read_next f o ≡ (incomplete, e)))
          ⊎ ((e : ℕ) × (read_next f o ≡ (error, e)) × ((x : ℕ) × (f.bad x ≡ true))))
unfolding read_next
read_next-other f o other =
    let n = read_u16 f.contents.bytes o in
    elim (Bool-cases (ltb f.contents.size (o + 2))) [
      | inl short ↦ elim (Bool-cases (ltb o f.contents.size)) [
        | inl one ↦ inr (inl (o, ground (arith, short, one)))
        | inr no_byte ↦ elim (Bool-cases (f.bad o)) [
          | inl bad ↦ inr (inr (o, ground (arith, short, no_byte, bad), (o, bad)))
          | inr good ↦ inr (inl (o, ground (arith, short, no_byte, good)))
        ]
      ]
      | inr long ↦ elim (Bool-cases (n == 0)) [
        | inl zero' ↦ inl (o + 2, ground (arith, long, zero'))
        | inr some' ↦ elim (Bool-cases (ltb f.contents.size (o + 2 + n))) [
          | inl cut ↦ elim (Bool-cases (f.bad (o + 2))) [
            | inl bad ↦ inr (inr (o, ground (arith, long, some', cut, bad), (o + 2, bad)))
            | inr good ↦ inr (inl (o, ground (arith, long, some', cut, good)))
          ]
          | inr whole ↦
              let has : HasRecord f.contents o = (ground (arith, some'), ground (arith, whole)) in
              absurd (other has)
        ]
      ]
    ]

-- There is a record at the offset, or there is not.
pub HasRecord-cases : (s : Span) (o : ℕ) → HasRecord s o ⊎ (¬ HasRecord s o)
HasRecord-cases s o = elim (Bool-cases (ltb 0 (read_u16 s.bytes o))) [
  | inl some' ↦ elim (Bool-cases (ltb s.size (o + 2 + read_u16 s.bytes o))) [
    | inl cut ↦ inr (λ h. ground (arith, cut, h.1))
    | inr whole ↦ inl (ground (arith, some'), ground (arith, whole))
  ]
  | inr zero' ↦ inr (λ h. ground (arith, zero', h.0))
]

pub Records-length :
    (s : Span) (o : ℕ) (rs : List Span) → Records s o rs → o ≤ s.size → o + length rs ≤ s.size
Records-length s o [] h le = omega (arith, le)
Records-length s o (r ∷ rs) (has, same, h) le =
    omega (arith, has.1, Records-length s (o + 2 + read_u16 s.bytes o) rs h has.1)

-- After `k` records.
pub Records-drop :
    (f : File) (k o : ℕ) (rs : List Span)
    → Records f.contents o rs
    → k ≤ length rs
    → (e : ℕ) × (skip_records k f o ≡ some e) × Records f.contents e (drop k rs)
unfolding skip_records skipped
Records-drop f zero o rs h le = (o, refl, h)
Records-drop f (suc k) o [] h le = absurd (omega (arith, le))
Records-drop f (suc k) o (r ∷ rs) (has, same, h) le =
    let e = o + 2 + read_u16 f.contents.bytes o in
    let (z, done, left) = Records-drop f k e rs h (omega (arith, le)) in
    (z, ap (λ t. skipped t (λ x. skip_records k f x)) (read_next-message f o has) ∙ done, left)
