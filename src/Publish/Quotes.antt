-- ===== src/Publish/Quotes.antt =====
-- itch/ItchQuotePublisher of common/market_data: what `onBboChange` sends.
use low_latency_trading.Base.{
  ℕ, ◌≤◌, Option-cases, Bool-cases, ◌+◌, ◌-◌, ◌^◌, ◌<◌, ◌≡◌, ◌⊎◌, refl, sym, inl, inr, Bool, true,
  false, not, ◌||◌, Option, none, some, List, [], ◌∷◌, ◌++◌, length, ltb, u64, arith,
}
use mathlib.Core.Path.{subst}
use low_latency_trading.Book.Bbo.{Bbo}
use low_latency_trading.Instruments
use low_latency_trading.Instruments.{Instrument, InstrumentStore, symbol_view}
use low_latency_trading.Ring.{Ring, push}
use low_latency_trading.Ring.Calls.{Stores, Pushed, push-Pushed}
use low_latency_trading.Publish.{
  Quote, MarketEvent, quote, QuotePublisher, sample_capacity, occurred, record_unknown_instrument,
  quote_of, quote_sent, on_bbo_change,
}

module _ (capacity : ℕ) where
  -- What the quote shows of the instrument and its best prices, with the publisher's number.
  abbrev pub Shows : QuotePublisher → Instrument → ℕ → Bbo → Quote → Type 0
  Shows p i t b q =
      (q.instrument ≡ symbol_view i.symbol)
      × (q.sequence ≡ p.next_sequence)
      × (q.timestamp ≡ t)
      × (q.bid.price ≡ b.bid_price)
      × (q.bid.quantity ≡ b.bid_quantity)
      × (q.ask.price ≡ b.ask_price)
      × (q.ask.quantity ≡ b.ask_quantity)

  -- No number is used and no quote is counted as published or sent.
  abbrev pub Unsent : QuotePublisher → Ring MarketEvent → QuotePublisher × Ring MarketEvent → Type 0
  Unsent p r o =
      (o.1 ≡ r)
      × (o.0.next_sequence ≡ p.next_sequence)
      × (o.0.published_quotes ≡ p.published_quotes)

  -- The number is used up, and a quote that shows the best prices goes to the end of the queue and
  -- is counted as published, or the queue is full and the quote is counted as dropped.
  abbrev pub Sent :
      QuotePublisher
      → List MarketEvent
      → Instrument
      → ℕ
      → Bbo
      → QuotePublisher × Ring MarketEvent
      → Type 0
  Sent p ys i t b o =
      (o.0.next_sequence ≡ u64 (p.next_sequence + 1))
      × (o.0.unknown_instruments ≡ p.unknown_instruments)
      × (((length ys + 1 < capacity)
            × ((q : Quote) × Shows p i t b q × Stores capacity o.1 (ys ++ quote q ∷ []))
            × (o.0.published_quotes ≡ u64 (p.published_quotes + 1))
            × (o.0.dropped_quotes ≡ p.dropped_quotes))
          ⊎ ((length ys + 1 ≡ capacity)
              × Stores capacity o.1 ys
              × (o.0.published_quotes ≡ p.published_quotes)
              × (o.0.dropped_quotes ≡ u64 (p.dropped_quotes + 1))))

  abbrev pub TooLarge : Bbo → Type 0
  TooLarge b = (2 ^ 32 ≤ b.bid_quantity) ⊎ (2 ^ 32 ≤ b.ask_quantity)

  -- A quote with both sides.
  abbrev pub Sided :
      QuotePublisher
      → Ring MarketEvent
      → List MarketEvent
      → Instrument
      → ℕ
      → Bbo
      → QuotePublisher × Ring MarketEvent
      → Type 0
  Sided p r ys i t b o =
      (TooLarge b
        × Unsent p r o
        × (o.0.dropped_quotes ≡ u64 (p.dropped_quotes + 1))
        × (o.0.unknown_instruments ≡ p.unknown_instruments))
      ⊎ ((b.bid_quantity < 2 ^ 32) × (b.ask_quantity < 2 ^ 32) × Sent p ys i t b o)

  -- Of a known instrument: nothing for one side, no quote for a quantity that is too large, and
  -- otherwise a quote.
  abbrev pub Known :
      QuotePublisher
      → Ring MarketEvent
      → List MarketEvent
      → Instrument
      → ℕ
      → Bbo
      → QuotePublisher × Ring MarketEvent
      → Type 0
  Known p r ys i t b o =
      (((b.has_bid ≡ false) ⊎ (b.has_ask ≡ false)) × (o ≡ (p, r)))
      ⊎ (((b.has_bid ≡ true) × (b.has_ask ≡ true)) × Sided p r ys i t b o)

  -- Of an instrument that may be unknown, which is counted then.
  abbrev pub QuoteSent :
      QuotePublisher
      → Ring MarketEvent
      → List MarketEvent
      → Option Instrument
      → ℕ
      → Bbo
      → QuotePublisher × Ring MarketEvent
      → Type 0
  QuoteSent p r ys none t b o =
      Unsent p r o
      × (o.0.dropped_quotes ≡ p.dropped_quotes)
      × (o.0.unknown_instruments ≡ u64 (p.unknown_instruments + 1))
  QuoteSent p r ys (some i) t b o = Known p r ys i t b o

  quote_of-Shows :
      (p : QuotePublisher) (i : Instrument) (t : ℕ) (b : Bbo)
      → b.bid_quantity < 2 ^ 32
      → b.ask_quantity < 2 ^ 32
      → Shows p i t b (quote_of i p.next_sequence t b)
  unfolding quote_of
  quote_of-Shows p i t b small small' =
      (refl, refl, refl, refl, omega (arith, small), refl, omega (arith, small'))

  quote_sent-Sent :
      (p : QuotePublisher) (ys : List MarketEvent) (i : Instrument) (t : ℕ) (b : Bbo) (q : Quote)
      (o : Bool × Ring MarketEvent)
      → Shows p i t b q
      → Pushed capacity ys (quote q) o
      → Sent p ys i t b (quote_sent (record p { next_sequence = u64 (p.next_sequence + 1) }) o)
  unfolding quote_sent
  quote_sent-Sent p ys i t b q (true, r) shows (inl (room, done, stores)) =
      (refl, refl, inl (room, (q, shows, stores), refl, refl))
  quote_sent-Sent p ys i t b q (true, r) shows (inr (full, done, stores)) = ground (arith, done)
  quote_sent-Sent p ys i t b q (false, r) shows (inl (room, done, stores)) = ground (arith, done)
  quote_sent-Sent p ys i t b q (false, r) shows (inr (full, done, stores)) =
      (refl, refl, inr (full, stores, refl, refl))

  on_bbo_change-unknown :
      (p : QuotePublisher) (r : Ring MarketEvent) (ys : List MarketEvent) (id t : ℕ) (b : Bbo)
      → QuoteSent p r ys none t b (
        record_unknown_instrument
            (record p { unknown_instruments = u64 (p.unknown_instruments + 1) })
            id
            t,
        r,
      )
  unfolding record_unknown_instrument
  on_bbo_change-unknown p r ys id t b = elim (Option-cases (occurred p.samples id)) [
    | inl new ↦ elim (Bool-cases (ltb (length p.samples) sample_capacity)) [
      | inl room ↦ ground (arith, new, room)
      | inr full ↦ ground (arith, new, full)
    ]
    | inr (xs, seen) ↦ ground (arith, seen)
  ]

  missing_side :
      (b : Bbo)
      → (not b.has_bid || not b.has_ask) ≡ true
      → (b.has_bid ≡ false) ⊎ (b.has_ask ≡ false)
  missing_side b h = elim (Bool-cases b.has_bid) [
    | inl has ↦ inr (ground (arith, h, has))
    | inr none' ↦ inl none'
  ]

  large_side :
      (b : Bbo)
      → (ltb (2 ^ 32 - 1) b.bid_quantity || ltb (2 ^ 32 - 1) b.ask_quantity) ≡ true
      → TooLarge b
  large_side b h = elim (Bool-cases (ltb (2 ^ 32 - 1) b.bid_quantity)) [
    | inl large ↦ inl (ground (arith, large))
    | inr small ↦ inr (ground (arith, h, small))
  ]

  on_bbo_change-large :
      (p : QuotePublisher) (r : Ring MarketEvent) (s : InstrumentStore) (id t : ℕ) (b : Bbo)
      (i : Instrument)
      → Instruments.find s id ≡ some i
      → (not b.has_bid || not b.has_ask) ≡ false
      → (ltb (2 ^ 32 - 1) b.bid_quantity || ltb (2 ^ 32 - 1) b.ask_quantity) ≡ true
      → on_bbo_change capacity p r s id t b
        ≡ (record p { dropped_quotes = u64 (p.dropped_quotes + 1) }, r)
  unfolding on_bbo_change
  on_bbo_change-large p r s id t b i known both large = ground (arith, known, both, large)

  on_bbo_change-Sent :
      (p : QuotePublisher) (r : Ring MarketEvent) (ys : List MarketEvent) (s : InstrumentStore)
      (id t : ℕ) (b : Bbo) (i : Instrument)
      → Stores capacity r ys
      → Instruments.find s id ≡ some i
      → (not b.has_bid || not b.has_ask) ≡ false
      → (ltb (2 ^ 32 - 1) b.bid_quantity || ltb (2 ^ 32 - 1) b.ask_quantity) ≡ false
      → b.bid_quantity < 2 ^ 32
      → b.ask_quantity < 2 ^ 32
      → Sent p ys i t b (on_bbo_change capacity p r s id t b)
  unfolding on_bbo_change
  on_bbo_change-Sent p r ys s id t b i stores known both fits small small' =
      let q = quote_of i p.next_sequence t b in
      let u : QuotePublisher = record p { next_sequence = u64 (p.next_sequence + 1) } in
      let result : on_bbo_change capacity p r s id t b ≡ quote_sent u (push capacity r (quote q)) =
        ground (arith, known, both, fits) in
      subst (Sent p ys i t b) (sym result) (
        quote_sent-Sent p ys i t b q (push capacity r (quote q))
          (quote_of-Shows p i t b small small') (push-Pushed capacity r ys (quote q) stores))

  on_bbo_change-Known :
      (p : QuotePublisher) (r : Ring MarketEvent) (ys : List MarketEvent) (s : InstrumentStore)
      (id t : ℕ) (b : Bbo) (i : Instrument)
      → Stores capacity r ys
      → Instruments.find s id ≡ some i
      → Known p r ys i t b (on_bbo_change capacity p r s id t b)
  unfolding on_bbo_change
  on_bbo_change-Known p r ys s id t b i stores known =
      elim (Bool-cases (not b.has_bid || not b.has_ask)) [
        | inl one ↦
            let result : on_bbo_change capacity p r s id t b ≡ (p, r) =
              ground (arith, known, one) in
            inl (missing_side b one, result)
        | inr both ↦ inr (
          ground (arith, both),
          elim (Bool-cases (ltb (2 ^ 32 - 1) b.bid_quantity || ltb (2 ^ 32 - 1) b.ask_quantity)) [
            | inl large ↦
                subst (Sided p r ys i t b)
                  (sym (on_bbo_change-large p r s id t b i known both large))
                  (inl (large_side b large, (refl, refl, refl), refl, refl))
            | inr fits ↦
                let small : b.bid_quantity < 2 ^ 32 = ground (arith, fits) in
                let small' : b.ask_quantity < 2 ^ 32 = ground (arith, fits) in
                inr (
                  small,
                  small',
                  on_bbo_change-Sent p r ys s id t b i stores known both fits small small',
                )
          ],
        )
      ]

  -- On a queue that holds given events, `onBboChange` of an unknown instrument leaves the queue as
  -- it was, counts the instrument as unknown, and uses no number. Of a known one it changes
  -- nothing when a side is missing; with both sides and a quantity of 2 ^ 32 or more it counts a
  -- dropped quote, uses no number and leaves the queue as it was; otherwise it uses up the next
  -- number, and where there is room the queue then holds a quote more at its end and the quote is
  -- counted as published, and where there is none the queue holds the same events and the quote is
  -- counted as dropped. The quote has the instrument's symbol, that number, the given time, and on
  -- the bid and on the ask the price and the quantity of that side.
  pub on_bbo_change-QuoteSent :
      (p : QuotePublisher) (r : Ring MarketEvent) (ys : List MarketEvent) (s : InstrumentStore)
      (id t : ℕ) (b : Bbo)
      → Stores capacity r ys
      → QuoteSent p r ys (Instruments.find s id) t b (on_bbo_change capacity p r s id t b)
  unfolding on_bbo_change
  on_bbo_change-QuoteSent p r ys s id t b stores = elim (Option-cases (Instruments.find s id)) [
    | inl unknown ↦
        let u =
          record_unknown_instrument
            (record p { unknown_instruments = u64 (p.unknown_instruments + 1) }) id t in
        let result : on_bbo_change capacity p r s id t b ≡ (u, r) = ground (arith, unknown) in
        subst (λ x. QuoteSent p r ys x t b (on_bbo_change capacity p r s id t b)) (sym unknown)
          (subst (QuoteSent p r ys none t b) (sym result) (on_bbo_change-unknown p r ys id t b))
    | inr (i, known) ↦
        subst (λ x. QuoteSent p r ys x t b (on_bbo_change capacity p r s id t b)) (sym known)
          (on_bbo_change-Known p r ys s id t b i stores known)
  ]
