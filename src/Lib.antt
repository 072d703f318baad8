-- ===== src/Lib.antt =====
-- HotSot, a pickup-first commerce system of Python services over Kafka, PostgreSQL and Redis: the core
-- logic of its order, payment, kitchen and shelf parts.
--
-- Each part below is translated method by method. A method that changes an object returns the new
-- record; an exception is a value; the clock, random numbers, Redis, Kafka, the database and HTTP are
-- arguments. Log calls are left out. Durations, percentages and Decimals are exact, where the source has
-- floats and 28 digits.
--
-- Order (services/order-service/app/core/state_machine.py, shared/types/schemas.py): Order/Status.antt
-- has the states and the transition, terminal and cancellable tables; Order/Machine.antt has the class
-- StateMachine with its guards, `transition` and `validate_sequence`. A state is a value of the enum
-- OrderStatus; texts outside the enum, for which the tables have no entry, are not modelled.
--
-- Money (shared/money.py): Money/Rounding.antt has Decimal and `round_inr`, Money/Amount.antt the class
-- Money in whole paise, Money/Gst.antt the GST split, the commission and the invoice check. Decimal
-- arithmetic is exact: amounts below 10 ^ 26 rupees do not meet the 28 digits of the context. Printing
-- and reading of decimal texts belong to the decimal module and are arguments.
--
-- Breaker (shared/circuit_breaker.py): Breaker/Core.antt has the class CircuitBreaker, each operation
-- under its lock as one step with its readings of the clock as arguments; Breaker/Run.antt has the
-- sequences of operations, Breaker/Registry.antt the class ServiceCircuitBreakerManager. A time is a whole
-- number of ticks.
--
-- Compensation (services/compensation-service/app): Compensation/Engine.antt has the rules,
-- `calculate_compensation` and `trigger_refund` of core/engine.py, Compensation/Trigger.antt the handler
-- `trigger_compensation` of routes/compensation.py with the cases it stores. A Decimal is a whole number
-- of units of which `d` make a paisa.
--
-- Shelf (services/shelf-service/app/core): Shelf/Ttl.antt has the class TTLEngine of ttl_engine.py with
-- its in-memory fallback, Shelf/Worker.antt the processing of one key by TTLWorker of ttl_worker.py over a
-- sequence of scans and of extensions of the TTL. A time is in microseconds.
--
-- Gateway (shared/payment_gateway.py): Gateway/Http.antt has the retries of `_make_request`,
-- Gateway/Api.antt the class RazorpayGateway with its idempotency store and the operations that charge,
-- capture and refund. What each attempt at a request meets is an argument.
--
-- Locking (shared/optimistic_locking.py): Locking/Update.antt has the versioned update and its retries
-- over a database given as a record of operations with the laws of a conditional UPDATE; what a session gives
-- to the SELECT of an attempt, the row or an instance it still holds, is an argument.
-- Locking/Clients.antt has interleaved clients of one row.
--
-- Saga (services/order-service/app/core/saga.py): Saga/Definition.antt has the three saga definitions,
-- Saga/Engine.antt the class SagaEngine. A step is named by a text; what a compensation would emit is a
-- result.
--
-- Kitchen (services/kitchen-service/app/core/engine.py): Kitchen/Staff.antt has the class
-- StaffAssignmentEngine over a Redis server given by the laws of its lists; a command may fail before it runs or
-- after, where its answer is lost.
--
-- Arrival (services/arrival-service/app/core/dedup.py): Arrival/Dedup.antt has `is_duplicate` of the class
-- ArrivalDeduplicator over a Redis server given by the laws of its keys; the digest is an argument. Its two commands may stand apart in a sequence of events.
--
-- Routes (services/order-service/app/routes/orders.py, app/core/database.py): Routes/Store.antt has the row,
-- the effects of a request and the monad of a handler, Routes/Payment.antt, Preparation.antt, Pickup.antt and
-- Closing.antt the handlers from the creation to the cancellation, Routes/Service.antt the routes over one
-- order with their transaction, the idempotency cache and the two reads. A handler answers with a value or
-- with the status code of an HTTPException; the database rolls back on a failure, its own at a flush or at the
-- commit among them, Kafka and Redis do not. What Redis, the compliance gate and the database answer is an
-- argument. Payloads, sequence numbers and expiry of the cache are left out, and so are
-- the lists of orders by kitchen and by user. Routes/Induction.antt has the induction over calls.
--
-- RedisClient (shared/utils/redis_client.py): RedisClient/Server.antt has the commands of a Redis server by
-- what Redis documents of them, RedisClient/Client.antt the class RedisClient with its two scripts and the
-- breaker that all clients share, RedisClient/Run.antt sequences of its calls, RedisClient/Domain.antt the
-- helpers of orders, kitchens and ETAs, RedisClient/Rate.antt the rate limit over sorted sets. A text is a
-- number, and so is a key. Each call has its readings of the clocks and what happens to its commands as
-- arguments: no client, an answer, an error before the command, or one after it. JSON is a pair of functions.
-- Connecting, subscribing and the health check are not modelled.
--
-- Notify (services/notification-service/app/core/dispatcher.py): Notify/Channels.antt has the five senders of
-- the class NotificationDispatcher, Notify/Dispatch.antt its method `dispatch` over a Redis server given by
-- the laws of its counters and keys. What a provider does with a call, the preferences, the clocks and
-- whether the database takes a row are arguments; a statement that fails rolls the session back. A call has a tenant; whether a text has one of the
-- transactional keywords is an argument.
--
-- Kafka (shared/utils/kafka_client.py): Kafka/Producer.antt has `publish_event` of the class KafkaProducer with
-- its fallback log and `replay_fallback_log` of the class KafkaRecoveryService, Kafka/Consumer.antt the classes
-- EventDedupStore and KafkaConsumer. An event is a number, the file of the log a list of lines which takes
-- every write; what a send, a handler, a commit and the clock do are arguments.
--
-- Auth (shared/auth/jwt.py): Auth/Tokens.antt has the tokens over the jose package, given by what it documents of
-- signing and decoding, Auth/Session.antt the class TokenRevocation, `logout`, `get_current_user`, the guards of
-- roles and tenants and the two functions of the middleware, over a Redis server. Claims are all there; the
-- empty text is 0.
pub mod Base
pub mod Arrival
pub mod Auth
pub mod Breaker
pub mod Compensation
pub mod Gateway
pub mod Kafka
pub mod Kitchen
pub mod Locking
pub mod Money
pub mod Notify
pub mod Order
pub mod RedisClient
pub mod Routes
pub mod Saga
pub mod Shelf
