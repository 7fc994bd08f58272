-- ===== src/Lib.antt =====
-- tracing-console: a tracing subscriber that streams closed spans, the host crate that serves them, and
-- the console that aggregates them. This library models the subscriber's crate (tracing-cache/src), the
-- host's server (tracing-console-host/src), and of the console the aggregation
-- (tracing-console/src/aggregate), its model with the reducer of updates (tracing-console/src/model), and the
-- keyboard and the loop around the model (tracing-console/src/runtime.rs).
--
-- The parts and how they interact. An application's spans enter the cache on the thread that runs them:
-- `new_span` puts a record in the slab of the thread's lane and hands out an identifier that packs lane
-- and slot; events are filled in records from a pool; `try_close` takes the record out of its slab.
-- Closed spans and events leave the thread in batches by two channels. The driver parks the events,
-- joins them to their span when it arrives, and fans the span out to the subscribers. The host turns a
-- span into a wire span and streams it to each connection that asked for it and whose filter it passes;
-- requests of the connections set the cache's level and chance, which a broadcast shares with every
-- stream. The console's aggregator keeps a ring of spans, each in the bucket of its stack of names, with
-- counts, sums and extremes of total and self time; the graph keeps bins of time for each series of a
-- stack's spans, and the rate tracker counts events by half seconds. Keys and responses become updates in
-- one queue; the loop applies them to the model in turn, performs the effect, a message to the server, a
-- run of the installer or the end, and sets the flags by which the keyboard thread reads the next key.
--
-- Files, and the code of each:
--   Base and its children: shared tests, lists, maps, texts and bit arithmetic.
--   Cache/Ids: id_encoding.rs, config.rs, and of cache.rs the identifiers and the lane count.
--   Cache/Record: record.rs. Cache/Pool: object_pool.rs. Cache/Predicate: predicate.rs.
--   Cache/Driver: driver.rs; Attach, Buffer, Fanout and Run hold its proofs.
--   Cache/Slab: what the code relies on of the slab crate.
--   Cache/Subscriber: cache.rs and thread_state.rs; Ops has the operations but `new_span`, and ActualIds,
--     Invariant, Spans, Close, Within, Enter, Events and Setup the proofs.
--   Host/Protocol, Host/Level, Host/Message: the spans, the levels, and the requests and responses of
--     tracing-console-host/src/protocol.rs. Host/Wire: wire.rs.
--   Host/Server: server.rs; Sampling has the filters of a stream, Stream `span_stream`, and Sessions the
--     connections of one server as a step relation, with the proofs in Invariant and Announced.
--   Aggregate/Bucket: aggregate/types.rs and `BucketState` of aggregate/state.rs, in tracing-console/src.
--   Aggregate/State: `Aggregator` of aggregate/state.rs; Keys has the splits, Rebuild the readers and
--     `set_split_keys`, and Evict, Parked, Absorb, Limits and Refeed the proofs.
--   Model/Graph: tracing-console/src/model/graph.rs; Bin and Store have the accumulators and their
--     recording, Views the projection and the summaries, State `GraphState`, Inputs the parsing.
--   Model/Explore: tracing-console/src/model/explore.rs; Rows has the rows of one trace, Search what a query
--     finds. Aggregate/Labels:
--     aggregate/util.rs.
--   Model/Core: the state, the inputs and the selection of tracing-console/src/model/core.rs. Model/Visible:
--     `Aggregator::rows` of aggregate/state.rs and the visible rows of core.rs.
--   Model/Update: tracing-console/src/model/update.rs. Model/Reduce: `Model::apply` of core.rs; its arms are in
--     Table, Inputs, Graph, Explore, Version, Views and Switches, Session is a machine of a part of the state,
--     and Session/Laws, Quit, Restore, Prefixes, Tree, Total, Windows and Valid hold the proofs.
--   Runtime: the TUI mode of tracing-console/src/runtime.rs as a step relation; Configure has the arguments
--     of tracing-console/src/args.rs that it starts with and the requests they queue, Keyboard has the routing of
--     keys, and Keyboard/Laws, Synced, Keys, Installers, Numbers and Leave the proofs.
--   Model/Rate: `RateTracker` of tracing-console/src/model/core.rs; Laws, Buckets, Counts and Window hold
--     its proofs. Model/Order: sorting. Model/Reals: what the model uses of floats.
--   Tests: concrete slabs, channels, levels and floats, and examples of the results at concrete inputs.
--
-- How state is modelled. The subscriber's state is the shared cache and the calling thread; the
-- operations pass it on, and an index out of bounds, which panics, is `none`. A lock is held within one
-- operation, and an atomic is read or written once in each, so operations interleave as whole steps. Time
-- stamps, lock attempts that may fail and random numbers are arguments. Numbers are natural; a `u64` or
-- `u128` that can overflow wraps, as in a release build. Texts are lists of bytes. A `BTreeMap` is a list
-- sorted by key; a `HashMap` is one too, or an association list, as its order is never read; a `BTreeSet`
-- of split keys is its sorted list.
--
-- Code of other crates enters as an interface with the behaviour that the code relies on: the slab, the
-- spillway channels, tokio's watch channels, the tracing crate's levels, and floats. The metadata of a callsite is a parameter.
--
-- Fuel. `make_room` and `absorb_resolved` recurse on fuel. The code's loop evicts one span a round, so
-- the fuel is the length of the ring and one more, which is enough for every budget but 0; each nested
-- call of `absorb_resolved` has taken a waiting span, so the fuel is the number of waiting spans and two
-- more. `ceil_log2` takes the width of its result as fuel, and `walk_up` the code's own limit of 65 rounds,
-- as `find_root_id` that of 256. `visible_trace_rows` walks at most as deep as the ring is long, which is
-- as deep as a trace of distinct spans can be.
--
-- Not modelled: `subscribe` and the per-thread copies of the senders, which with one cache send on its own
-- channels; the snapshots of the aggregator; the listener and the rpc framework around the
-- server; the hash that picks a series's colour; the views; and the sockets, the terminal and the
-- installer's process around the runtime, which are I/O.
pub mod Base
pub mod Cache
pub mod Host
pub mod Aggregate
pub mod Model
pub mod Runtime
mod Tests
