-- ===== src/Lib.antt =====
-- ctxins reads the traffic between coding agents and language models. An interceptor inside a proxy
-- captures each turn, tracks it while it is in flight, and ships it as a framed message over a Unix
-- socket; a core process cuts the frames, compares each turn with the one before, keeps the lineage of
-- its blocks, judges it by rules of context pollution, prices it, and holds the sessions. This library
-- models those parts.
-- Paths are from the repository's root, and each file's names are the source's.
--
-- The parts:
--  * Egress models src/interceptor/egress: RingBuffer is ring_buffer.py (`BoundedRingBuffer`), Framing is
--    framing.py, Client is uds_client.py (`UDSClient`). Methods of the buffer are atomic under its lock; the
--    worker's loop runs over the answers of its socket, an argument of each round, which also hold
--    what the proxy pushes, before the round takes an item and while its frame is sent.
--  * Server models src/core/server: Framer is framer.py (`FrameDecoder`, `encode_frame`; its `decode_payload`
--    is in Wire.Envelope), and Connection is the handler of a connection in uds_server.py, over the
--    readings of its socket.
--  * Filter models src/interceptor/filter: Sanitizer is sanitizer.py (`PayloadSanitizer`, `HeaderSanitizer`),
--    over the values of Json, and Router is provider_router.py (`ProviderRouter`). Whether a compiled
--    pattern matches, the lower-casing, the stripping and `urlsplit` are arguments.
--  * Stream models src/interceptor/stream: Sse is sse_parser.py (`SSEParser`) over code points, Tap is
--    passthrough.py (`StreamTap`, `StreamPassthrough`), and Accumulators holds openai.py and anthropic.py of
--    accumulators, which build a turn from the events. The standard library's incremental UTF-8
--    decoder, its tables of digits, `json.loads` and what the queue's put answers, an exception included,
--    are arguments.
--  * Wire models the records of src/schema/wire.py and, in Envelope, the reading of the envelopes; Tracker
--    models src/interceptor/correlation/tracker.py (`ActiveTurnTracker`). The clock's reading is an argument of
--    each call, what a JSON body holds is a type that the records take, and an accumulator is known by
--    its `feed_chunk`.
--  * Schema models the records of src/schema/ast.py, and Schema.Invocations its pairing of tool calls and
--    results.
--  * Graph models src/core/graph: Diff is diff.py (`TurnDiffEngine.compute_delta`), Tree is turn_tree.py
--    (`ContextGraph`), with its queries in Tree.Queries.
--  * Store models src/core/store/session_store.py (`SessionStore`), which builds on the graph; Violations and
--    Grouped hold its reports of the violations.
--  * Analyzer models src/core/analyzer: Engine is engine.py (`PollutionAnalyzer`), which runs rules over a turn
--    and over a session, Rules holds the seven rules of heuristics, Cost and Pricing are cost/cost_model.py
--    and cost/pricing_table.py, and Scorer is scorer.py. The ratio of difflib, `json.loads`, the
--    lower-casing and the stripping of text and the decimal forms of numbers are arguments.
--  * Presentation models src/presentation/broadcaster.py (`PresentationBroadcaster`), with asyncio's queues.
--  * Base passes on the library's names, and holds the lists, dicts, integers and results that the parts share.
--
-- Conventions. A Python `dict` is a list of entries in order of insertion, a set is a list, an exception
-- is the `raise` of a Result, and an object that the code changes in place is a record that is given
-- back changed. Token counts, turn indices, times and costs are natural numbers of a fixed unit; a
-- token growth is an integer. A price is in 10^-8 US dollars for a thousand tokens, a cost in 10^-6 US
-- dollars, a score in tenths of a point. Where the code computes such an amount in floating point and
-- rounds it, the model computes it exactly and rounds it to the nearest, ties to even (Base.Rounding).
-- A call that raises gives back the state that the code has reached.
--
-- Fuel. Two loops run on fuel: that of `FrameDecoder.feed`, each round of which takes four bytes or more
-- off the buffer, with one more round than the buffer has bytes, and that of `SSEParser.feed`, each round
-- of which takes a line break, likewise.
--
-- Not modelled: the threads, sockets and waits themselves; the reaper's thread; the server's start and
-- stop; the JSON conversions of the other records of the schema, the normalizers and the splitting of
-- blocks into sub-blocks; the accumulator for Gemini and `hook_stream`, which sets a field of the
-- proxy's flow object; the proxy's addon; the content hasher (the standard library's normalization and
-- SHA-256); the exporters, the process detector, the command line and the user interfaces; the store's
-- sorted lookups by model and by rule; and a rule of the analyzer that raises.
pub mod Analyzer
pub mod Base
pub mod Egress
pub mod Filter
pub mod Graph
pub mod Json
pub mod Presentation
pub mod Schema
pub mod Server
pub mod Store
pub mod Stream
pub mod Tracker
pub mod Wire
