-- ===== src/Base/Tables.antt =====
-- Arrays that are indexed by an identifier, as functions, and the number of flags that are set.
use Prim.Native.Nat.{ℕ, zero, suc, ◌+◌, ◌≤◌, ◌<◌}
use mathlib.Core.Path.{◌≡◌, refl}
use mathlib.Core.Bool.{Bool, true, false}
use native.Mathlib.Omega.{arith}
use low_latency_trading.Base.Tests.{◌==◌, if◌then◌else◌}

abbrev pub update {ℓ} : {A : Type ℓ} → (ℕ → A) → ℕ → A → ℕ → A
update f i v j = if i == j then v else f j

-- How many of the first `n` flags are set.
unfoldable pub count_set : ℕ → (ℕ → Bool) → ℕ
count_set zero f = 0
count_set (suc n) f = if f n then suc (count_set n f) else count_set n f

count_set-update_above :
    (n : ℕ) (f : ℕ → Bool) (i : ℕ) (b : Bool) → n ≤ i → count_set n (update f i b) ≡ count_set n f
unfolding count_set
count_set-update_above zero f i b h = refl
count_set-update_above (suc n) f i b h = ground (arith, count_set-update_above n f i b)

-- Setting a clear flag adds one.
pub count_set-update :
    (n : ℕ) (f : ℕ → Bool) (i : ℕ)
    → i < n
    → f i ≡ false
    → count_set n (update f i true) ≡ count_set n f + 1
unfolding count_set
count_set-update zero f i h e = absurd (omega arith)
count_set-update (suc n) f i h e =
    ground (arith, count_set-update n f i, count_set-update_above n f i true)

pub count_set-none : (n : ℕ) → count_set n (λ i. false) ≡ 0
unfolding count_set
count_set-none zero = refl
count_set-none (suc n) = ground (arith, count_set-none n)
