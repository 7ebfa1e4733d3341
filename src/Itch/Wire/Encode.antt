-- ===== src/Itch/Wire/Encode.antt =====
-- Memory that holds given fields, and the messages of itch/ItchDispatcher.cpp read back from it.
use low_latency_trading.Base.{
  ℕ, zero, suc, ◌+◌, ◌-◌, ◌*◌, ◌/◌, ◌%◌, ◌^◌, ◌<◌, ◌≡◌, refl, sym, ap, ◌∙◌, some, List, [], ◌∷◌,
  ◌++◌, arith, ◌==◌, if◌then◌else◌, length, length-append,
}
use low_latency_trading.Mold.Codec.{Bytes, Span}
use low_latency_trading.Itch.Decoder.{chars}
use low_latency_trading.Itch.Dispatcher.{dispatch}
use low_latency_trading.Itch.Messages.{ItchMessage}
use low_latency_trading.Itch.Wire.{Field, num, text, number, Laid, Fits, width, fields}
use low_latency_trading.Itch.Wire.Dispatch.{dispatch-Accepted}
use native.Mathlib.Numerals.{unary_clauses}

-- The bytes, and then the memory.
unfoldable pub joined : List ℕ → Bytes → Bytes
joined [] d i = d i
joined (x ∷ xs) d i = if i == 0 then x else joined xs d (i - 1)

-- A number's digits to the base 256, the most significant first.
unfoldable pub digits : ℕ → ℕ → List ℕ
digits zero v = []
digits (suc w) v = digits w (v / 256) ++ v % 256 ∷ []

unfoldable pub encode : List Field → Bytes
encode [] = λ i. 0
encode (num w v ∷ fs) = joined (digits w v) (encode fs)
encode (text w xs ∷ fs) = joined xs (encode fs)

joined-append :
    (xs ys : List ℕ) (d : Bytes) (i : ℕ) → joined (xs ++ ys) d i ≡ joined xs (joined ys d) i
unfolding joined
joined-append [] ys d i = refl
joined-append (x ∷ xs) ys d i = ground (arith, joined-append xs ys d (i - 1))

joined-after : (xs : List ℕ) (d : Bytes) (i : ℕ) → joined xs d (length xs + i) ≡ d i
unfolding joined
joined-after [] d i = ap d (omega arith)
joined-after (x ∷ xs) d i =
    let same : suc (length xs) + i - 1 ≡ length xs + i = omega arith in
    ground (arith, ap (joined xs d) same, joined-after xs d i)

length-digits : (w v : ℕ) → length (digits w v) ≡ w
unfolding digits
length-digits zero v = refl
length-digits (suc w) v =
    omega (arith, length-append (digits w (v / 256)) (v % 256 ∷ []), length-digits w (v / 256))

number-same :
    (w : ℕ) (d e : Bytes) (o p : ℕ)
    → ((i : ℕ) → i < w → d (o + i) ≡ e (p + i))
    → number w d o ≡ number w e p
unfolding number
number-same zero d e o p h = refl
number-same (suc w) d e o p h =
    omega (arith, number-same w d e o p (λ i k. h i (omega arith)), h w (omega arith))

power_suc : (w : ℕ) → 256 ^ suc w ≡ 256 * 256 ^ w
power_suc w = simp unary_clauses (omega arith)

joined-here : (x : ℕ) (d : Bytes) → joined (x ∷ []) d 0 ≡ x
unfolding joined
joined-here x d = refl

joined-later :
    (x : ℕ) (xs : List ℕ) (d : Bytes) (i : ℕ) → joined (x ∷ xs) d (0 + 1 + i) ≡ joined xs d (0 + i)
unfolding joined
joined-later x xs d i =
    let same : 0 + 1 + i - 1 ≡ 0 + i = omega arith in ground (arith, ap (joined xs d) same)

number-digits : (w v : ℕ) (d : Bytes) → v < 256 ^ w → number w (joined (digits w v) d) 0 ≡ v
unfolding number digits
number-digits zero v d h = omega (arith, h)
number-digits (suc w) v d h =
    let bytes = digits w (v / 256) in
    let rest = joined (v % 256 ∷ []) d in
    let front : number w (joined (bytes ++ v % 256 ∷ []) d) 0 ≡ v / 256 =
      number-same w (joined (bytes ++ v % 256 ∷ []) d) (joined bytes rest) 0 0
        (λ i k. joined-append bytes (v % 256 ∷ []) d (0 + i))
      ∙ number-digits w (v / 256) rest (omega (arith, h, power_suc w)) in
    let last : joined (bytes ++ v % 256 ∷ []) d (0 + w) ≡ v % 256 =
      joined-append bytes (v % 256 ∷ []) d (0 + w)
      ∙ ap (joined bytes rest) (omega (arith, length-digits w (v / 256)))
      ∙ joined-after bytes rest 0
      ∙ joined-here (v % 256) d in
    omega (arith, front, last)

chars-same :
    (w : ℕ) (d e : Bytes) (o p : ℕ)
    → ((i : ℕ) → i < w → d (o + i) ≡ e (p + i))
    → chars w d o ≡ chars w e p
unfolding chars
chars-same zero d e o p h = refl
chars-same (suc w) d e o p h =
    let head : d o ≡ e p = ap d (omega arith) ∙ h 0 (omega arith) ∙ ap e (omega arith) in
    let tail : chars w d (o + 1) ≡ chars w e (p + 1) =
      chars-same w d e (o + 1) (p + 1)
        (λ i k. ap d (omega arith) ∙ h (1 + i) (omega arith) ∙ ap e (omega arith)) in
    cc

Laid-same :
    (d e : Bytes) (o p : ℕ) (fs : List Field)
    → ((i : ℕ) → d (o + i) ≡ e (p + i))
    → Laid e p fs
    → Laid d o fs
Laid-same d e o p [] h laid = tt
Laid-same d e o p (num w v ∷ fs) h (a, laid) = (
  number-same w d e o p (λ i k. h i) ∙ a,
  Laid-same d e (o + w) (p + w) fs (λ i. ap d (omega arith) ∙ h (w + i) ∙ ap e (omega arith)) laid,
)
Laid-same d e o p (text w xs ∷ fs) h (a, laid) = (
  chars-same w d e o p (λ i k. h i) ∙ a,
  Laid-same d e (o + w) (p + w) fs (λ i. ap d (omega arith) ∙ h (w + i) ∙ ap e (omega arith)) laid,
)

chars-joined : (xs : List ℕ) (d : Bytes) → chars (length xs) (joined xs d) 0 ≡ xs
unfolding chars joined
chars-joined [] d = refl
chars-joined (x ∷ xs) d =
    ap (λ ys. x ∷ ys)
      (chars-same (length xs) (joined (x ∷ xs) d) (joined xs d) (0 + 1) 0
          (λ i k. joined-later x xs d i)
        ∙ chars-joined xs d)

-- What is encoded stands in the memory.
Laid-encode : (fs : List Field) → Fits fs → Laid (encode fs) 0 fs
unfolding encode
Laid-encode [] h = tt
Laid-encode (num w v ∷ fs) (h, hs) = (
  number-digits w v (encode fs) h,
  Laid-same (encode (num w v ∷ fs)) (encode fs) (0 + w) 0 fs
      (λ i.
        ap (joined (digits w v) (encode fs)) (omega (arith, length-digits w v))
        ∙ joined-after (digits w v) (encode fs) i
        ∙ ap (encode fs) (omega arith))
      (Laid-encode fs hs),
)
Laid-encode (text w xs ∷ fs) (h, hs) = (
  ap (λ n. chars n (joined xs (encode fs)) 0) (sym h) ∙ chars-joined xs (encode fs),
  Laid-same (encode (text w xs ∷ fs)) (encode fs) (0 + w) 0 fs
      (λ i.
        ap (joined xs (encode fs)) (omega (arith, h))
        ∙ joined-after xs (encode fs) i
        ∙ ap (encode fs) (omega arith))
      (Laid-encode fs hs),
)

-- The memory that holds a message.
abbrev pub encoded : ItchMessage → Span
encoded m = record { bytes = encode (fields m); size = width (fields m) }

-- A message whose numbers and characters fit their fields, written to memory in the wire format,
-- is dispatched to the same message.
pub dispatch-encoded : (m : ItchMessage) → Fits (fields m) → dispatch (some (encoded m)) ≡ some m
dispatch-encoded m h = (dispatch-Accepted (encoded m) m).1 (refl, Laid-encode (fields m) h)
