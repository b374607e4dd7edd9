-- ===== src/Lib.antt =====
-- A model of the backend of solana-dashboard, and the theorems about it.
--
-- The backend reads events of two Solana protocols, Pump.fun and PumpAMM, from a stream into a log
-- (the table service_events), projects the log into a read model, keeps live statistics of every
-- token, and serves both over HTTP and websockets.
--
-- Which file models which part, by path under backend/internal:
--
-- Events, Events/Decoder: the envelope and the payloads of events/envelope.go, pumpfun.go and
--   pumpamm.go, and DecodePayload of events/decoder.go. encoding/json is the parameter Codec.
-- Events/Proto: events/from_proto.go, from the generated message types (Events/Proto/Message).
-- Store, Store/ServiceEvents, Store/Metrics: the row types of store/read_model.go and
--   store/service_event.go, and the event log and the checkpoints as the SQL of
--   store/service_event.go reads and writes them.
-- Store/ReadModel: the tables of store/read_model.go and the upserts and inserts of its SQL. Store/Pages:
--   ListActivityEventsPageByMint, its SQL and its cursors.
-- Projector, with ReadModel, Values, Pumpfun and PumpAmm: projector/projector.go. Writer is its
--   interface readModelWriter, over any state S of a store; project is Project.
-- Projector/Batch: projector/batch_writer.go. batching has the methods of writeBatch, flush is Flush.
-- Projector/Runner: projector/runner.go, and RunInTransaction of store/service_event.go.
--   replay_batch, replay_from_start and run are ReplayBatch, ReplayFromStart and Run. D is the
--   database; Projector/Runner/Sql has one that holds a log, checkpoints and a read model.
-- Projector/Database: the methods of ReadModelStore on these tables, as the store that is projected to.
-- Broadcaster/Window, Broadcaster/Current, Broadcaster/Swap: broadcaster/stats.go. The ring of 300
--   one-second buckets of a token, the record and the payload that are made of it, and the reading of
--   a PumpAMM swap as a trade. Broadcaster/Feed is the map of windows and handleTrade, with seeding;
--   Broadcaster/Sweep is Sweep; Broadcaster/Backfill is BackfillCurrentMetrics; Broadcaster/Run has
--   the two steps that Run makes on the windows.
-- Query/Amount: formatAmount of query/token.go. Query/Token: the trades and activities of a token that
--   query/token.go serves.
-- Realtime, with Subscription, Topics and System: realtime/hub.go. The hub runs as goroutines that
--   interleave; a step is a critical section, or one send of Publish.
-- Ingest: ingest/service.go, with EnvelopeWithPayload of events/envelope.go and InsertServiceEvent of
--   store/service_event.go. handle_decoded_event is HandleDecodedEvent.
-- Websocket/Replay, Websocket/Session: replayTopic and the goroutine of a subscribed topic of
--   httpapi/ws.go. Whether the session's channel has room for its n-th envelope is a parameter.
-- Websocket/Connection: the read loop of ServeWS in httpapi/ws.go with its table of subscriptions, and
--   the deferred cleanup, on the hub's map of subscriptions.
-- Observability: observability/metrics.go, the operations of the registry and the snapshot of a
--   histogram; InstrumentHTTP, ServeHTTP and the sorted names of Snapshot are left out.
-- Common and Result hold what the others share; Examples holds the theorems at concrete inputs.
--
-- How they interact: the ingest service writes each event into the log and publishes it to the hub.
-- The runner lists entries of the log after its checkpoint, decodes each and projects it through the
-- Writer interface, either into a batch that is flushed at the end or directly, and saves the
-- checkpoint in the same transaction. The broadcaster receives the events of
-- the hub's topic "global", counts them in its windows, and publishes to the topics of the tokens.
--
-- Conventions: int64 counts are 64-bit patterns with their wrap-around, times and log ids are
-- integers, float64 is a parameter. An error is `err`, and a panic of a channel operation is `none`.
-- The loops of ReplayFromStart, Run and replayTopic take fuel, one unit for each round; every round
-- but the last moves past at least one entry, so one more than the entries that are left is enough.
-- Run's waiting is a list of turns: the context is done, or the database has changed when the interval is over.
--
-- Not modelled: the calls of the metrics registry and the logging; the queries of the read model but
-- for the pages of activities; the generated code, whose message types are given as records; the HTTP handlers, the other responses of
-- query, jetstream, metadatafetcher, ops, config and db, which are requests, SQL and clients of other
-- services; and of broadcaster/stats.go the older window of minutes. Postgres' cast of a text to
-- numeric, strconv.ParseFloat, math/big and the answers of the queries that a broadcaster makes are
-- parameters.
pub mod Common
pub mod Result
pub mod Events
pub mod Store
pub mod Projector
pub mod Broadcaster
pub mod Observability
pub mod Query
pub mod Realtime
pub mod Ingest
pub mod Websocket
pub mod Examples
