-- ===== src/Lib.antt =====
-- message-broker-patterns: messaging patterns over Redis Streams, SQLite and asyncio, in Python.
--
-- The sources are under packages/backend/src/message_broker_patterns. The parts meet in three places:
-- a Redis client that every broker is given, the module-level metrics registry, and the handlers that
-- callers pass to the consumer loops.
--
-- Shared:
--   Base           numbers, lists, integers, dictionaries, decimal text, and Exec, the calls that read
--                  and write a state and may raise (a raise keeps what was written before it)
--   Metrics        metrics.py: MetricsRegistry
--   Redis          the client (redis.asyncio) as a record of commands, with the view of a server that
--                  the theorems speak of (View), the laws of the commands (Laws), a server in memory
--                  that obeys them (Memory, Instance)
--   Process        one Python process, its client and its registry, and `ensure_group`
--   Floats         what the sources use of floats, as a parameter
-- Parts:
--   Dlq            dlq_pattern/: Payment, DLQBroker, run_idempotent_consumer, and naive.py's loop
--   Outbox         outbox_pattern/: store.py's two tables, relay.run, naive.place_order_dual_write
--   EventSourcing  event_sourcing_pattern/: events.py, aggregate.BankAccount, store.EventStore,
--                  projector.AccountSummary and project,
--                  naive.py's row per account
--   Envelope       entities/envelope.py: Envelope
--   Idempotency    entities/idempotency.py: InMemoryIdempotencyStore, and in Shared
--                  RedisIdempotencyStore over a client of its own, whose commands carry the instant
--                  of the server's clock
--   PriorityQueue  priority_queue_pattern/: SupportTicket, PriorityQueueBroker, run_consumer and
--                  run_strict_priority_consumer
--   CompetingConsumers
--                  competing_consumers_pattern/: Task, CompetingConsumersBroker, run_consumer
--   Saga           saga_pattern/: the events, OrderService, PaymentService, ShippingService, run_saga;
--                  naive.py's calls
--   ScatterGather  scatter_gather_pattern/: InMemoryTopicBroker, ScatterGatherCoordinator, combining.py,
--                  AirlineService
--   ClaimCheck     claim_check_pattern/: FilesystemPayloadStore, ClaimCheckBroker, ClaimCheckProducer,
--                  run_consumer
--   Bench          bench.py: percentile, LatencySummary, Window (Bench), _run_phase (Phase),
--                  run_bench (Run), the files of a result (Report)
--   Chaos          chaos.py: FirePolicy, ChaosInjector and its four faults
--
-- A component's `naive.py`, the baseline that its tests show to fail, is the file Naive of its part.
--
-- A loop `while not stop_event.is_set()` runs over a schedule, a list with one function for each round:
-- what other clients have done to the server (or to the database) since the round before. The stop
-- event is set when the schedule is used up, so each finite schedule is one run, of any length, and no
-- fuel is needed; sleeps between the rounds leave no trace. Asynchronous calls are modelled one after
-- the other inside one task; what happens beside them enters by the schedule. Every command of the
-- client may raise, and the laws say nothing of the server then, but for XADD, which has been applied
-- or has not, and for an error reply to XGROUP CREATE, which changes nothing. A gather takes
-- the arrivals on its queue with their times, in clock ticks, and a search may be cancelled at such a
-- time, while it waits; a scatter never waits, since the queues are unbounded. A phase of the benchmark harness takes a
-- list of steps, each of one worker from one await to the next, with what the clock and the operation
-- give it.
--
-- Integers are Python's unbounded ones (Base.Int) where they can be negative, and native numbers for
-- counts and times. Text is native strings: a stream's bytes are their decoded text. JSON payloads are
-- the mappings that `json.loads` gives back. What Python's or a client's own conversions do is a
-- parameter, with the exceptions they raise: datetimes and bytes of the envelope, floats, cents, and
-- the milliseconds of a timedelta. The order's INSERT fails for an id that is there, for an amount that
-- is no number, and for a fault of the database that is given; a balance of more than 64 bits cannot be
-- written. The other SQLite calls are taken not to fail.
--
-- Not modelled: logging, closing of clients, settings, the benchmark harness's JSON output and
-- arguments, the scripts and the tests.
pub mod Base
pub mod Bench
pub mod Chaos
pub mod ClaimCheck
pub mod CompetingConsumers
pub mod Dlq
pub mod Envelope
pub mod EventSourcing
pub mod Floats
pub mod Idempotency
pub mod Metrics
pub mod Outbox
pub mod PriorityQueue
pub mod Process
pub mod Redis
pub mod Saga
pub mod ScatterGather
