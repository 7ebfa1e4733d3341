-- ===== src/Ring/Layout.antt =====
-- How the indices of common/ring_buffer/SpscRingBuffer.h and the objects that are alive lie.
use native.Mathlib.Nat.{mod-eq_of_lt, mod_self}
use low_latency_trading.Base.{
  ℕ, zero, suc, ◌+◌, ◌%◌, ◌≤◌, ◌<◌, ◌≡◌, ◌≢◌, ◌⊎◌, refl, sym, ap, ◌∙◌, inl, inr, Option, none, some,
  List, [], ◌∷◌, ◌++◌, arith, length, update, ◌==◌, Bool-cases,
}
use low_latency_trading.Ring.{increment}

-- The entry at a position, if there is one.
unfoldable pub entry : {A : Type 0} → List A → ℕ → Option A
entry [] k = none
entry (x ∷ xs) zero = some x
entry (x ∷ xs) (suc k) = entry xs k

entry-beyond : {A : Type 0} (xs : List A) (k : ℕ) → length xs ≤ k → entry xs k ≡ none
unfolding entry
entry-beyond [] k h = refl
entry-beyond (x ∷ xs) zero h = absurd (omega (arith, h))
entry-beyond (x ∷ xs) (suc k) h = entry-beyond xs k (omega (arith, h))

entry-last : {A : Type 0} (xs : List A) (x : A) → entry (xs ++ x ∷ []) (length xs) ≡ some x
unfolding entry
entry-last [] x = refl
entry-last (y ∷ xs) x = entry-last xs x

entry-others :
    {A : Type 0} (xs : List A) (x : A) (k : ℕ) → k ≢ length xs → entry (xs ++ x ∷ []) k ≡ entry xs k
unfolding entry
entry-others [] x zero h = absurd (h refl)
entry-others [] x (suc k) h = refl
entry-others (y ∷ xs) x zero h = refl
entry-others (y ∷ xs) x (suc k) h = entry-others xs x k (λ e. h (ap suc e))

module _ (c : ℕ) where
  -- `b` is `k` slots after `a`.
  abbrev pub After : ℕ → ℕ → ℕ → Type 0
  After a k b = (k < c) × ((b ≡ a + k) ⊎ (b + c ≡ a + k))

  pub increment_lem :
      (i : ℕ)
      → i < c
      → ((i + 1 < c) × (increment c i ≡ i + 1)) ⊎ ((i + 1 ≡ c) × (increment c i ≡ 0))
  unfolding increment
  increment_lem i h = elim (Bool-cases (i + 1 == c)) [
    | inl last ↦ let e : i + 1 ≡ c = ground (arith, last) in inr (e, ap (λ t. t % c) e ∙ mod_self c)
    | inr more ↦ let e : i + 1 < c = ground (arith, more, h) in inl (e, mod-eq_of_lt e)
  ]

  -- What is behind the next slot is one slot further behind this one.
  pub After-increment :
      (lo k i : ℕ) → lo < c → i < c → i ≢ lo → After (increment c lo) k i → After lo (suc k) i
  After-increment lo k i small below other (near, at) =
      let bound : suc k < c =
        omega (arith, near, at, increment_lem lo small, small, below, other) in
      elim (increment_lem lo small) [
        | inl (more, e) ↦ elim at [
          | inl f ↦ (bound, inl (omega (arith, e, f)))
          | inr f ↦ (bound, inr (omega (arith, e, f)))
        ]
        | inr (last, e) ↦ elim at [
          | inl f ↦ (bound, inr (omega (arith, last, e, f)))
          | inr f ↦ absurd (omega (arith, last, e, f, near))
        ]
      ]

  -- One slot further.
  pub increment-After :
      (a k b : ℕ) → a < c → b < c → k + 1 < c → After a k b → After a (k + 1) (increment c b)
  increment-After a k b small below room (near, at) = elim (increment_lem b below) [
    | inl (more, e) ↦ elim at [
      | inl f ↦ (room, inl (omega (arith, e, f)))
      | inr f ↦ (room, inr (omega (arith, e, f)))
    ]
    | inr (last, e) ↦ elim at [
      | inl f ↦ (room, inr (omega (arith, last, e, f)))
      | inr f ↦ absurd (omega (arith, last, f, room, small))
    ]
  ]

  -- From one slot further on it is one less.
  pub After-shorter : (a k b : ℕ) → a < c → b < c → After a (suc k) b → After (increment c a) k b
  After-shorter a k b small below (near, at) =
      let bound : k < c = omega (arith, near) in
      elim (increment_lem a small) [
        | inl (more, e) ↦ elim at [
          | inl f ↦ (bound, inl (omega (arith, e, f)))
          | inr f ↦ (bound, inr (omega (arith, e, f)))
        ]
        | inr (last, e) ↦ elim at [
          | inl f ↦ absurd (omega (arith, last, f, below))
          | inr f ↦ (bound, inl (omega (arith, last, e, f)))
        ]
      ]

  pub increment_lt : (i : ℕ) → i < c → increment c i < c
  increment_lt i h = omega (arith, increment_lem i h, h)

  module _ {A : Type 0} where
    -- From the slot `lo` on the objects of `xs` are alive, and no other is.
    abbrev pub Contents : (ℕ → Option A) → ℕ → List A → Type 0
    Contents d lo xs = (k i : ℕ) → i < c → After lo k i → d i ≡ entry xs k

    pub Contents-construct :
        (d : ℕ → Option A) (lo w : ℕ) (xs : List A) (v : A)
        → lo < c
        → w < c
        → After lo (length xs) w
        → Contents d lo xs
        → (d w ≡ none) × Contents (update d w (some v)) lo (xs ++ v ∷ [])
    Contents-construct d lo w xs v small within at h = (
      h (length xs) w within at ∙ entry-beyond xs (length xs) (omega arith),
      λ k i below after. elim (Bool-cases (i == w)) [
        | inl same ↦
            let e : i ≡ w = ground (arith, same) in
            let e' : k ≡ length xs = omega (arith, e, after, at) in
            ground (arith, same, sym (ap (entry (xs ++ v ∷ [])) e' ∙ entry-last xs v))
        | inr other ↦
            let e : i ≢ w = ground (arith, other) in
            let e' : k ≢ length xs = λ f. e (omega (arith, f, after, at)) in
            ground (arith, other, h k i below after, entry-others xs v k e')
      ],
    )

    pub Contents-destroy :
        (d : ℕ → Option A) (lo : ℕ) (x : A) (xs : List A)
        → lo < c
        → length xs + 1 < c
        → Contents d lo (x ∷ xs)
        → (d lo ≡ some x) × Contents (update d lo none) (increment c lo) xs
    unfolding entry
    Contents-destroy d lo x xs small room h = (
      h 0 lo small (omega (arith, small), inl (omega arith)),
      λ k i below after. elim (Bool-cases (i == lo)) [
        | inl same ↦
            let e : i ≡ lo = ground (arith, same) in
            let far : length xs ≤ k = omega (arith, e, after, increment_lem lo small, room) in
            ground (arith, same, entry-beyond xs k far)
        | inr other ↦
            let e : i ≢ lo = ground (arith, other) in
            let next : After lo (suc k) i = After-increment lo k i small below e after in
            ground (arith, other, h (suc k) i below next)
      ],
    )
