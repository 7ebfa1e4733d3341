-- ===== src/Ring/Producing.antt =====
-- The producer of common/ring_buffer/SpscRingBuffer.h keeps the queue well-formed.
use mathlib.Core.Path.{subst}
use low_latency_trading.Base.{
  ℕ, ◌+◌, ◌<◌, ◌≡◌, ◌≢◌, sym, ap, ◌∙◌, inl, inr, Bool, true, false, List, [], ◌∷◌, ◌++◌, length,
  length-append, arith, Bool-cases, ◌==◌, if◌then◌else◌,
}
use mathlib.Core.List.{append_assoc, append-nil}
use low_latency_trading.Ring.{Ring, increment, reread}
use low_latency_trading.Ring.Layout.{
  Contents, Contents-construct, After, After-shorter, increment_lt,
}
use low_latency_trading.Ring.Moves.{Indices, reread-Indices, Indices-room, publish-Indices}
use low_latency_trading.Ring.Phases.{Inv, held, need, base}
use low_latency_trading.Ring.Threads.{
  Producer, push_returned, rereading, constructing, publishing, Consumer, pop_returned, reloading,
  moving, releasing, System, produced, begin_push, is_alive,
}

module _ (c : ℕ) {A : Type 0} where
  -- The objects that are in the queue reach up to the write index.
  base-After :
      (r : Ring A) (k : Consumer A) (ys : List A) (m : ℕ)
      → Indices c r (length (held k ++ ys)) m (need k)
      → (base c r.read_index k < c) × After c (base c r.read_index k) (length ys) r.write_index
  base-After r (pop_returned v) ys m h = (h.read_small, h.span)
  base-After r reloading ys m h = (h.read_small, h.span)
  base-After r moving ys m h = (h.read_small, h.span)
  base-After r (releasing v) ys m h = (
    increment_lt c r.read_index h.read_small,
    After-shorter c r.read_index (length ys) r.write_index h.read_small h.write_small h.span,
  )

  pub begin_push-Inv :
      (s : System A) (b : Bool) (k : Consumer A) (ys : List A) (v : A)
      → Inv c s (push_returned b) k ys
      → Inv c s (begin_push c s.ring v) k ys
  unfolding begin_push
  begin_push-Inv s b k ys v h =
      elim (Bool-cases (increment c s.ring.write_index == s.ring.cached_read_index)) [
        | inl full ↦
            let result : begin_push c s.ring v ≡ rereading v = ground (arith, full) in
            subst (λ p. Inv c s p k ys) (sym result)
              (record {
                indices = h.indices;
                contents = h.contents;
                order = h.order;
                sound = h.sound;
              })
        | inr free ↦
            let result : begin_push c s.ring v ≡ constructing v = ground (arith, free) in
            let other : increment c s.ring.write_index ≢ s.ring.cached_read_index =
              ground (arith, free) in
            subst (λ p. Inv c s p k ys) (sym result)
              (record {
                indices = Indices-room c s.ring (length (held k ++ ys)) (need k) other h.indices;
                contents = h.contents;
                order = h.order;
                sound = h.sound;
              })
      ]

  rereading-Inv :
      (s : System A) (k : Consumer A) (ys : List A) (v : A)
      → Inv c s (rereading v) k ys
      → Inv c (produced c s (rereading v)) (produced c s (rereading v)).producer k ys
  unfolding produced reread
  rereading-Inv s k ys v h =
      let i = reread-Indices c s.ring (length (held k ++ ys)) (need k) h.indices in
      let q : Producer A =
        if increment c s.ring.write_index == s.ring.read_index
        then push_returned false
        else constructing v in
      let u : System A = record s { ring = reread s.ring; producer = q } in
      elim (Bool-cases (increment c s.ring.write_index == s.ring.read_index)) [
        | inl full ↦
            let result : q ≡ push_returned false = ground (arith, full) in
            subst (λ p. Inv c u p k ys) (sym result)
              (record { indices = i; contents = h.contents; order = h.order; sound = h.sound })
        | inr free ↦
            let result : q ≡ constructing v = ground (arith, free) in
            let other : increment c s.ring.write_index ≢ s.ring.read_index = ground (arith, free) in
            subst (λ p. Inv c u p k ys) (sym result)
              (record {
                indices = Indices-room c (reread s.ring) (length (held k ++ ys)) (need k) other i;
                contents = h.contents;
                order = h.order;
                sound = h.sound;
              })
      ]

  constructing-Inv :
      (s : System A) (k : Consumer A) (ys : List A) (v : A)
      → Inv c s (constructing v) k ys
      → Inv c (produced c s (constructing v)) (publishing v) k ys
  unfolding produced is_alive
  constructing-Inv s k ys v h =
      let r = s.ring in
      let lo = base c r.read_index k in
      let (small, at) = base-After r k ys 1 h.indices in
      let same : Contents c r.storage lo ys =
        subst (Contents c r.storage lo) (append-nil ys) h.contents in
      let (vacant, filled) =
        Contents-construct c r.storage lo r.write_index ys v small h.indices.write_small at same in
      record {
        indices = record {
          write_small = h.indices.write_small;
          read_small = h.indices.read_small;
          cached_read_small = h.indices.cached_read_small;
          cached_write_small = h.indices.cached_write_small;
          span = h.indices.span;
          behind = h.indices.behind;
          ahead = h.indices.ahead;
        };
        contents = filled;
        order = h.order;
        sound = ground (arith, h.sound, vacant);
      }

  publishing-Inv :
      (s : System A) (k : Consumer A) (ys : List A) (v : A)
      → Inv c s (publishing v) k ys
      → Inv c (produced c s (publishing v)) (push_returned true) k (ys ++ v ∷ [])
  unfolding produced
  publishing-Inv s k ys v h =
      let longer : length (held k ++ (ys ++ v ∷ [])) ≡ length (held k ++ ys) + 1 =
        ap length (sym (append_assoc (held k) ys (v ∷ [])))
        ∙ length-append (held k ++ ys) (v ∷ []) in
      let u = record s.ring { write_index = increment c s.ring.write_index } in
      record {
        indices =
            subst (λ p. Indices c u p 0 (need k)) (sym longer)
              (publish-Indices c s.ring (length (held k ++ ys)) (need k) h.indices);
        contents =
            subst (Contents c s.ring.storage (base c s.ring.read_index k))
              (sym (append-nil (ys ++ v ∷ []))) h.contents;
        order =
            ap (λ xs. xs ++ v ∷ []) h.order
            ∙ append_assoc s.popped (held k ++ ys) (v ∷ [])
            ∙ ap (λ xs. s.popped ++ xs) (append_assoc (held k) ys (v ∷ []));
        sound = h.sound;
      }

  pub produced-Inv :
      (s : System A) (p : Producer A) (k : Consumer A) (ys : List A)
      → s.producer ≡ p
      → Inv c s p k ys
      → (zs : List A) × Inv c (produced c s p) (produced c s p).producer k zs
  unfolding produced
  produced-Inv s (push_returned b) k ys e h = (ys, subst (λ p. Inv c s p k ys) (sym e) h)
  produced-Inv s (rereading v) k ys e h = (ys, rereading-Inv s k ys v h)
  produced-Inv s (constructing v) k ys e h = (ys, constructing-Inv s k ys v h)
  produced-Inv s (publishing v) k ys e h = (ys ++ v ∷ [], publishing-Inv s k ys v h)
