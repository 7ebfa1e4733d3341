-- ===== src/Tests/Archive.antt =====
-- Recovery from a file at small inputs.
use low_latency_trading.Base.{
  ◌-◌, ◌≡◌, refl, false, true, some, List, [], ◌∷◌, arith, take, drop, ◌==◌, if◌then◌else◌,
}
use low_latency_trading.Mold.Codec.{Span}
use low_latency_trading.Archive.{File, recover, open_source, read_u16}
use low_latency_trading.Archive.Records.{Records, record_at}
use low_latency_trading.Archive.Slices.{numbered, recover-slice}

-- Two records, of three bytes and of one.
abbrev contents : Span
contents = record { bytes = λ i. if i == 1 then 3 else if i == 6 then 1 else 0; size = 8 }

abbrev file : File
file = record { contents = contents; bad = λ x. false }

abbrev records : List Span
records = record_at contents 0 ∷ record_at contents 5 ∷ []

contents-Records : Records contents 0 records
unfolding read_u16
contents-Records =
    ((omega arith, omega arith), refl, ((omega arith, omega arith), refl, λ h. omega (arith, h.1)))

recover-slice_example :
    (recover (open_source file 1000 true true) 2 3).0
    ≡ some (numbered 2 (take (3 - 2) (drop (2 - 1) records)))
unfolding read_u16
recover-slice_example =
    recover-slice file 1000 2 3 records (omega arith) (omega arith) (λ x. refl) contents-Records
      (omega arith) (omega arith) (omega arith) (omega arith, tt)
