-- ===== src/Ring/Calls.antt =====
-- Whole calls of common/ring_buffer/SpscRingBuffer.h, one after another, as a bounded queue.
use mathlib.Core.Path.{subst}
use low_latency_trading.Base.{
  ℕ, ◌+◌, ◌<◌, ◌≡◌, ◌≢◌, ◌⊎◌, ◌↔◌, refl, sym, inl, inr, Bool, true, false, Option, none, some, List,
  [], ◌∷◌, ◌++◌, length, length-append, arith, Bool-cases, ◌==◌, update,
}
use low_latency_trading.Ring.{
  Ring, increment, reread, reload, push, publish, take, pop, size, empty, full,
}
use low_latency_trading.Ring.Layout.{Contents, Contents-construct, Contents-destroy, increment_lem}
use low_latency_trading.Ring.Moves.{
  Indices, reread-Indices, reload-Indices, Indices-room, Indices-need, publish-Indices,
  release-Indices,
}

module _ (c : ℕ) {A : Type 0} where
  -- The queue holds the values of `ys`, the oldest first.
  pub record Stores (r : Ring A) (ys : List A) : Type 0 where
    pub indices : Indices c r (length ys) 0 0
    pub contents : Contents c r.storage r.read_index ys

  publish-Stores :
      (r : Ring A) (ys : List A) (v : A)
      → Indices c r (length ys) 1 0
      → Contents c r.storage r.read_index ys
      → (length ys + 1 < c) × Stores (publish c r v) (ys ++ v ∷ [])
  unfolding publish
  publish-Stores r ys v h d =
      let (vacant, filled) =
        Contents-construct c r.storage r.read_index r.write_index ys v h.read_small h.write_small
          h.span d in
      let (m, at, most, room) = h.behind in
      let t = publish-Indices c r (length ys) 0 h in
      let u = record r { write_index = increment c r.write_index } in
      let t' : Indices c u (length (ys ++ v ∷ [])) 0 0 =
        subst (λ p. Indices c u p 0 0) (sym (length-append ys (v ∷ []))) t in
      (
        omega (arith, most, room),
        record {
          indices = record {
            write_small = t'.write_small;
            read_small = t'.read_small;
            cached_read_small = t'.cached_read_small;
            cached_write_small = t'.cached_write_small;
            span = t'.span;
            behind = t'.behind;
            ahead = t'.ahead;
          };
          contents = filled;
        },
      )

  -- What `push` of a value does to a queue: it appends the value, or the queue is full.
  abbrev pub Pushed : List A → A → Bool × Ring A → Type 0
  Pushed ys v b =
      ((length ys + 1 < c) × (b.0 ≡ true) × Stores b.1 (ys ++ v ∷ []))
      ⊎ ((length ys + 1 ≡ c) × (b.0 ≡ false) × Stores b.1 ys)

  -- On a queue that holds given values, `push` returns true and the queue then holds the new value
  -- after them, when there are at least two fewer of them than the capacity; otherwise there is
  -- one fewer, and it returns false and the queue holds the same values.
  pub push-Pushed : (r : Ring A) (ys : List A) (v : A) → Stores r ys → Pushed ys v (push c r v)
  unfolding push reread
  push-Pushed r ys v h =
      let t = reread-Indices c r (length ys) 0 h.indices in
      elim (Bool-cases (increment c r.write_index == r.cached_read_index)) [
        | inl old ↦ elim (Bool-cases (increment c r.write_index == r.read_index)) [
          | inl none' ↦
              let result : push c r v ≡ (false, reread r) = ground (arith, old, none') in
              let e : increment c r.write_index ≡ r.read_index = ground (arith, none') in
              let i = h.indices in
              let count : length ys + 1 ≡ c = omega (
                arith,
                e,
                i.span,
                increment_lem c r.write_index i.write_small,
                i.read_small,
                i.write_small,
              ) in
              subst (Pushed ys v) (sym result)
                (inr (count, refl, record { indices = t; contents = h.contents }))
          | inr free ↦
              let result : push c r v ≡ (true, publish c (reread r) v) =
                ground (arith, old, free) in
              let other : increment c r.write_index ≢ r.read_index = ground (arith, free) in
              let (fits, stored) =
                publish-Stores (reread r) ys v (Indices-room c (reread r) (length ys) 0 other t)
                  h.contents in
              subst (Pushed ys v) (sym result) (inl (fits, refl, stored))
        ]
        | inr free ↦
            let result : push c r v ≡ (true, publish c r v) = ground (arith, free) in
            let other : increment c r.write_index ≢ r.cached_read_index = ground (arith, free) in
            let (fits, stored) =
              publish-Stores r ys v (Indices-room c r (length ys) 0 other h.indices) h.contents in
            subst (Pushed ys v) (sym result) (inl (fits, refl, stored))
      ]

  -- What `pop` does to a queue: it takes the oldest value off, or the queue is empty.
  abbrev pub Popped : List A → Option (Option A × Ring A) → Type 0
  Popped ys o =
      ((u : Ring A) × (ys ≡ []) × (o ≡ some (none, u)) × Stores u [])
      ⊎ ((u : Ring A) × (y : A) × (zs : List A) × (ys ≡ y ∷ zs)
          × (o ≡ some (some y, u))
          × Stores u zs)

  take-Popped :
      (r : Ring A) (ys : List A)
      → Indices c r (length ys) 0 1
      → Contents c r.storage r.read_index ys
      → Popped ys (take c r)
  unfolding take
  take-Popped r [] h d = let (j, near, least, most) = h.ahead in absurd (omega (arith, least, most))
  take-Popped r (y ∷ ys) h d =
      let fits : length ys + 1 < c = omega (arith, h.span) in
      let (alive, left) = Contents-destroy c r.storage r.read_index y ys h.read_small fits d in
      let u : Ring A = record r {
        storage = update r.storage r.read_index none;
        read_index = increment c r.read_index;
      } in
      let result : take c r ≡ some (some y, u) = ground (arith, alive) in
      let t = release-Indices c r (length ys) 0 h in
      inr (
        u,
        y,
        ys,
        refl,
        result,
        record {
          indices = record {
            write_small = t.write_small;
            read_small = t.read_small;
            cached_read_small = t.cached_read_small;
            cached_write_small = t.cached_write_small;
            span = t.span;
            behind = t.behind;
            ahead = t.ahead;
          };
          contents = left;
        },
      )

  drained-nil : (r : Ring A) (ys : List A) → Stores r ys → r.read_index ≡ r.write_index → ys ≡ []
  drained-nil r [] h e = refl
  drained-nil r (y ∷ ys) h e = absurd (omega (arith, e, h.indices.span))

  -- On a queue that holds given values, `pop` is defined: it returns no value when there are none,
  -- and otherwise the first of them, and the queue then holds the others.
  pub pop-Popped : (r : Ring A) (ys : List A) → Stores r ys → Popped ys (pop c r)
  unfolding pop reload
  pop-Popped r ys h =
      let t = reload-Indices c r (length ys) 0 h.indices in
      elim (Bool-cases (r.read_index == r.cached_write_index)) [
        | inl old ↦ elim (Bool-cases (r.read_index == r.write_index)) [
          | inl drained ↦
              let result : pop c r ≡ some (none, reload r) = ground (arith, old, drained) in
              let e : r.read_index ≡ r.write_index = ground (arith, drained) in
              let none' : ys ≡ [] = drained-nil r ys h e in
              let same : Stores (reload r) ys = record { indices = t; contents = h.contents } in
              inl (reload r, none', result, subst (Stores (reload r)) none' same)
          | inr more ↦
              let result : pop c r ≡ take c (reload r) = ground (arith, old, more) in
              let other : r.read_index ≢ r.write_index = ground (arith, more) in
              subst (Popped ys) (sym result) (
                take-Popped (reload r) ys (Indices-need c (reload r) (length ys) 0 other t)
                  h.contents)
        ]
        | inr more ↦
            let result : pop c r ≡ take c r = ground (arith, more) in
            let other : r.read_index ≢ r.cached_write_index = ground (arith, more) in
            subst (Popped ys) (sym result)
              (take-Popped r ys (Indices-need c r (length ys) 0 other h.indices) h.contents)
      ]

  -- On a queue that holds given values, `size()` is their number, `empty()` is true exactly when
  -- there are none, and `full()` is true exactly when there is one fewer than the capacity.
  pub size-length :
      (r : Ring A) (ys : List A)
      → Stores r ys
      → (size c r ≡ length ys)
        × ((empty r ≡ true) ↔ (length ys ≡ 0))
        × ((full c r ≡ true) ↔ (length ys + 1 ≡ c))
  unfolding size empty full
  size-length r ys h =
      let i = h.indices in
      let span = i.span in
      let next = increment_lem c r.write_index i.write_small in
      (
        ground (arith, span, i.read_small, i.write_small),
        (
          λ e. let e' : r.read_index ≡ r.write_index = ground (arith, e) in omega (arith, e', span),
          λ e.
              let e' : r.read_index ≡ r.write_index =
                omega (arith, e, span, i.read_small, i.write_small) in
              ground (arith, e'),
        ),
        (
          λ e.
              let e' : increment c r.write_index ≡ r.read_index = ground (arith, e) in
              omega (arith, e', span, next, i.read_small, i.write_small),
          λ e.
              let e' : increment c r.write_index ≡ r.read_index =
                omega (arith, e, span, next, i.read_small, i.write_small) in
              ground (arith, e'),
        ),
      )
