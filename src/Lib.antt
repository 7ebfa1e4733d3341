-- ===== src/Lib.antt =====
-- The market-data core of the trading system: from a MoldUDP64 datagram through the NASDAQ ITCH
-- messages in it to the order books and the quotes that are published. Paths are below
-- common/market_data, or begin with feed_handler or common.
--
-- Parts, and how they work together. feed_handler/MoldItchFeedHandler.cpp receives datagrams,
-- checks the framing and the sequence numbers, has lost messages recovered, and hands each message
-- through itch/ItchDispatcher.cpp and itch/ItchDecoder.cpp to the market. itch/ItchMarketState.h receives one message at a time. It
-- keeps three stores: the instruments, the resting orders by identifier, and the books by
-- instrument. An order handler changes the book of the order's instrument and the order store
-- together, compares the best bid and offer of that book before and after, and calls the quote
-- callback when they differ; an execution also calls the trade callback.
--
-- Files:
--   Book.Types, Book.Level, Book.Sides, Book.Bbo: normalized/MarketTypes.h, book/PriceLevel.h,
--     book/BookSide.h and book/OrderBook.h, one function per method. Book.Levels is the std::map
--     from prices to levels, a list with ascending keys. A level handle (a map iterator) is the
--     price of its entry, and its use when the entry is gone is undefined (none).
--   Book.Effects: what the operations do to the levels. Book.Orders, Book.Refine, Book.Best,
--     Book.Quote: the independent view of a side as the list of its orders, and what the
--     operations and the quote mean in that view.
--   Book.Store: book/BookStore.h, an array of books by 16-bit identifier.
--   OrderStore: normalized/OrderStore.h and Order.h, the open-addressing table of 2 ^ 22 slots
--     with linear probing and deletion by backward shift. Its children: Probe (searches), Weigh
--     (sums over the entries), Map (the table as a map), Place and Add, Shift, Loop and Remove,
--     Update.
--   Instruments: normalized/Instrument.h and InstrumentStore.h.
--   Itch.Messages and its children: the 19 records of itch/messages and the variant of
--     itch/ItchMessage.h. Itch.Normalizer: itch/ItchNormalizer.h.
--   Itch.Market.State, Resting, Handlers: itch/ItchMarketState.h, one function per handler, each
--     with all its guards; Resting holds the code that several handlers repeat. Callbacks are
--     two flags, and their calls a list of events, newest first.
--   Itch.Market.Spec: what a message means for the set of resting orders. The other children of
--     Itch.Market: the invariant that joins the books to the order store (Weights, Consistent,
--     Keeps, Shown, Entry, Invariant), and that the handlers keep it (Outcomes, Joining, Safe,
--     Messages, Replace, History, Initial).
--   Mold.Codec: moldudp64/MoldUdp64.h and MoldUdp64Codec.cpp, over memory as a function from
--     offsets to bytes. Mold.Words, Mold.Frames and Mold.Packets: what words, framed messages
--     and whole packets hold, and that they are read as they were built.
--   Itch.Decoder and its children: itch/ItchDecoder.cpp, one function per message. Itch.Dispatcher:
--     itch/ItchDispatcher.cpp. A null pointer is none. Itch.Wire and its children: the wire format
--     as a list of fields per message, and that the decoders read exactly it.
--   Itch.UdpCodec: itch/ItchUdpCodec.cpp.
--   Feed.Types, Feed.MoldItch, Feed.Loops: feed_handler/MoldItchFeedHandler.cpp, one function per
--     method; the market and the recovery are parameters, as they are references in the source.
--     What the source or the queue brings is a list of polls, among them a call of stop() by
--     another thread. Feed.Recovery: moldudp64/MoldItchSequenceRecovery.cpp and
--     itch/ItchSequenceRecovery.cpp, over any source; Feed.Sources: what they hand on. Feed.Framing,
--     Live: what is refused and what is accepted. Feed.Progress: messages of successive numbers,
--     with where they come from. Checks, Delivery, Settling: one datagram; Runs, Starts, Ending:
--     the loops. Feed.Market: the handler over the market of Itch.Market.
--   Feed.Packets, PacketChecks, PacketRuns, PacketEnding: feed_handler/ItchFeedHandler.cpp in the same way.
--   Archive: itch/ItchStreamReader.cpp and moldudp64/FileMoldItchRecoverySource.cpp over a file as a
--     span of memory: the index of checkpoints and the recovery of a range. Archive.Records, Index,
--     Slices: the records of a file, what the index marks, and what is recovered.
--   Ring: common/ring_buffer/SpscRingBuffer.h (from the repository's root), whole calls. Ring.Threads:
--     the same with its two threads, one step for each access to what the other thread writes. An
--     acquire load is taken to read the last released index; an older one, which the language
--     allows, would make the queue look fuller or emptier than it is, and is not modelled. Ring.Layout, Moves: indices and objects; Calls: the
--     queue of values; Phases, Producing, Consuming, Schedule: any interleaving.
--   Publish: itch/ItchQuotePublisher and itch/ItchTradePublisher over the queue of Ring. Publish.Quotes,
--     Trades: what is sent of a quote and of an execution.
--   Tests: small runs and applications of the theorems.
--
-- Numbers are natural numbers; the wrap-around of 64-bit sums, differences and counters is
-- written out. Prices, quantities and identifiers are not bounded by their types unless a
-- theorem says so.
--
-- Loops. A search of the order table visits at most as many slots as there are, as in the
-- source. The loop of removeAt has no bound in the source and ends at the first empty slot; here
-- it has as much fuel as there are slots, which is enough while one of them is empty. The loop over
-- the records of a file has the size of the file as fuel, and a record has at least three bytes.
--
-- Not modelled: what an observer could see only inside a handler between two writes; the memory
-- of the stores; feed_handler/FeedHandler.cpp; the stored index of checkpoints, which is a cache of
-- the one that is built; the UDP sources, the strategy engine and the programs of
-- app.
pub mod Base
pub mod Book
pub mod OrderStore
pub mod Instruments
pub mod Itch
pub mod Archive
pub mod Feed
pub mod Mold
pub mod Publish
pub mod Ring
pub mod Tests
