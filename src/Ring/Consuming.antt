-- ===== src/Ring/Consuming.antt =====
-- The consumer of common/ring_buffer/SpscRingBuffer.h keeps the queue well-formed.
use mathlib.Core.Path.{subst}
use mathlib.Core.List.{append_assoc}
use low_latency_trading.Base.{
  ℕ, suc, ◌+◌, ◌<◌, ◌≡◌, ◌≢◌, sym, ◌∙◌, inl, inr, Option, none, some, List, [], ◌∷◌, ◌++◌, length,
  length-append, arith, Bool-cases, ◌==◌, if◌then◌else◌, update,
}
use low_latency_trading.Ring.{Ring, reload}
use low_latency_trading.Ring.Layout.{Contents-destroy}
use low_latency_trading.Ring.Moves.{Indices, reload-Indices, Indices-need, release-Indices}
use low_latency_trading.Ring.Phases.{Inv, pending, room}
use low_latency_trading.Ring.Threads.{
  Producer, push_returned, rereading, constructing, publishing, Consumer, pop_returned, reloading,
  moving, releasing, System, consumed, begin_pop,
}

module _ (c : ℕ) {A : Type 0} where
  pub begin_pop-Inv :
      (s : System A) (o : Option A) (p : Producer A) (ys : List A)
      → Inv c s p (pop_returned o) ys
      → Inv c s p (begin_pop c s.ring) ys
  unfolding begin_pop
  begin_pop-Inv s o p ys h = elim (Bool-cases (s.ring.read_index == s.ring.cached_write_index)) [
    | inl drained ↦
        let result : begin_pop c s.ring ≡ reloading = ground (arith, drained) in
        subst (λ k. Inv c s p k ys) (sym result)
          (record { indices = h.indices; contents = h.contents; order = h.order; sound = h.sound })
    | inr more ↦
        let result : begin_pop c s.ring ≡ moving = ground (arith, more) in
        let other : s.ring.read_index ≢ s.ring.cached_write_index = ground (arith, more) in
        subst (λ k. Inv c s p k ys) (sym result)
          (record {
            indices = Indices-need c s.ring (length ys) (room p) other h.indices;
            contents = h.contents;
            order = h.order;
            sound = h.sound;
          })
  ]

  reloading-Inv :
      (s : System A) (p : Producer A) (ys : List A)
      → Inv c s p reloading ys
      → Inv c (consumed c s reloading) p (consumed c s reloading).consumer ys
  unfolding consumed reload
  reloading-Inv s p ys h =
      let i = reload-Indices c s.ring (length ys) (room p) h.indices in
      let q : Consumer A =
        if s.ring.read_index == s.ring.write_index then pop_returned none else moving in
      let u : System A = record s { ring = reload s.ring; consumer = q } in
      elim (Bool-cases (s.ring.read_index == s.ring.write_index)) [
        | inl drained ↦
            let result : q ≡ pop_returned none = ground (arith, drained) in
            subst (λ k. Inv c u p k ys) (sym result)
              (record { indices = i; contents = h.contents; order = h.order; sound = h.sound })
        | inr more ↦
            let result : q ≡ moving = ground (arith, more) in
            let other : s.ring.read_index ≢ s.ring.write_index = ground (arith, more) in
            subst (λ k. Inv c u p k ys) (sym result)
              (record {
                indices = Indices-need c (reload s.ring) (length ys) (room p) other i;
                contents = h.contents;
                order = h.order;
                sound = h.sound;
              })
      ]

  -- With a pending value there is room for it.
  pending-room :
      (r : Ring A) (p : Producer A) (n m : ℕ)
      → Indices c r n (room p) m
      → n + length (pending p) < c
  pending-room r (push_returned b) n m h =
      let (k, at, most, fits) = h.behind in omega (arith, most, fits)
  pending-room r (rereading v) n m h =
      let (k, at, most, fits) = h.behind in omega (arith, most, fits)
  pending-room r (constructing v) n m h =
      let (k, at, most, fits) = h.behind in omega (arith, most, fits)
  pending-room r (publishing v) n m h =
      let (k, at, most, fits) = h.behind in omega (arith, most, fits)

  moving-Inv :
      (s : System A) (p : Producer A) (ys : List A)
      → Inv c s p moving ys
      → (zs : List A) × Inv c (consumed c s moving) p (consumed c s moving).consumer zs
  unfolding consumed
  moving-Inv s p [] h =
      let (j, near, least, most) = h.indices.ahead in absurd (omega (arith, least, most))
  moving-Inv s p (y ∷ ys) h =
      let r = s.ring in
      let fits : length (ys ++ pending p) + 1 < c =
        omega
          (arith, pending-room r p (suc (length ys)) 1 h.indices, length-append ys (pending p)) in
      let (alive, left) =
        Contents-destroy c r.storage r.read_index y (ys ++ pending p) h.indices.read_small fits
          h.contents in
      let u : System A = record s {
        ring = record r { storage = update r.storage r.read_index none };
        consumer = releasing y;
      } in
      let result : consumed c s moving ≡ u = ground (arith, alive) in
      (
        ys,
        subst (λ t. Inv c t p t.consumer ys) (sym result)
            (record {
              indices = record {
                write_small = h.indices.write_small;
                read_small = h.indices.read_small;
                cached_read_small = h.indices.cached_read_small;
                cached_write_small = h.indices.cached_write_small;
                span = h.indices.span;
                behind = h.indices.behind;
                ahead = h.indices.ahead;
              };
              contents = left;
              order = h.order;
              sound = h.sound;
            }),
      )

  releasing-Inv :
      (s : System A) (p : Producer A) (ys : List A) (v : A)
      → Inv c s p (releasing v) ys
      → Inv c (consumed c s (releasing v)) p (pop_returned (some v)) ys
  unfolding consumed
  releasing-Inv s p ys v h = record {
    indices = release-Indices c s.ring (length ys) (room p) h.indices;
    contents = h.contents;
    order = h.order ∙ sym (append_assoc s.popped (v ∷ []) ys);
    sound = h.sound;
  }

  pub consumed-Inv :
      (s : System A) (p : Producer A) (k : Consumer A) (ys : List A)
      → s.consumer ≡ k
      → Inv c s p k ys
      → (zs : List A) × Inv c (consumed c s k) p (consumed c s k).consumer zs
  unfolding consumed
  consumed-Inv s p (pop_returned v) ys e h = (ys, subst (λ k. Inv c s p k ys) (sym e) h)
  consumed-Inv s p reloading ys e h = (ys, reloading-Inv s p ys h)
  consumed-Inv s p moving ys e h = moving-Inv s p ys h
  consumed-Inv s p (releasing v) ys e h = (ys, releasing-Inv s p ys v h)
