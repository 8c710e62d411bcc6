-- ===== src/Lib.antt =====
-- liveclass: models of the real-time classroom's core logic, with the theorems that make it correct.
--
-- The program is a gateway (internal/api) in front of RPC services (internal/rpc) for users, live
-- rooms, quizzes, chat, an assistant and a points mall. Calls of a dependency go through
-- internal/resilience. An exchange in the mall is a saga over three databases, whose branches are
-- local transactions that may be repeated, reordered and compensated.
--
-- Resilience models internal/resilience. Breaker is breaker.go: the record CircuitBreaker is the
-- struct, acquire, record_outcome, trip, done and observed_state are Acquire, record, open, Done and
-- State. Each runs under the mutex, so it is one step; the clock is an argument. Float is the
-- float64 arithmetic of the threshold, an interface with fractions as an instance. Executor is
-- executor.go: execute is Do, with what the environment does in each attempt as a Round; other users
-- of a shared breaker run between the steps of an attempt. The loop recurs on the attempts left, so
-- it needs no fuel.
--
-- Chat models the client of internal/api/chatroom/hub.go. Client is the struct with the config's
-- sizes and the channel as a list; enqueue, enqueue_chat, enqueue_replay, finish_resume,
-- remember_message and close_client are calls of the methods that no other goroutine comes between.
-- Threads takes the methods and writePump apart: who holds deliveryMu, calls of Enqueue, Close and
-- the writer come between each other at every send, count, receive, write and close. Seen and
-- Window are about the remembered ids, Bounds and Delivery about single calls, Calls about steps
-- that nobody comes between, Balance, Queues, Quiet and Ended about steps in any order. Hub is the
-- Manager with its rooms as objects: register is register, remove_client and remove_room are the
-- two locked parts of unregister, room_clients is whom a broadcast finds; Rooms and Reached are
-- about any interleaving of these steps.
--
-- Outbox models the chat service's storage and relay. Outbox is internal/rpc/chat/dao/mongo.go on a
-- table of messages by message_id: insert_message_idempotent, claim_next, has_earlier_unpublished,
-- defer_for_ordering, mark_published and mark_retry are the functions of those names, each one atomic
-- statement. Outbox/Relay is internal/rpc/chat/kafka_dispatcher.go: a worker walks through drain in
-- phases, one statement or one Kafka write a step, and workers of any number of processes come
-- between each other. Updates, Invariant, Steps and Order are about the order of the Kafka records,
-- Inserts about repeated requests and leases. History is SelectMongo, SelectMongoAfter and
-- GetHistory of internal/rpc/chat/handler.go, with JSON and base64 as the parameter CursorCodec;
-- Sorting, Pages and Newer are about clients that read page after page, TextOrder has a concrete
-- order of ids and a codec. A client's pages are counted by fuel, one more than there are messages.
-- The rest recurs on lists.
--
-- The assistant's task plans are in Plan, which is internal/rpc/agent/memory/task_plan.go:
-- create_task_plan, update_task_step and revise_task_plan are the transactions of those names on
-- plans with their steps as a table by key. Plan/Proposal is the part of
-- internal/rpc/agent/workflow/agent/plan_executor.go that decides: validate_plan_proposal,
-- next_ready_step and all_plan_steps_done are the functions of those names. The visits of the
-- validation run on fuel, one more than there are keys, since they nest only in visits of other
-- keys. Visits, Cycles and Accepts are about what the validation accepts, Fuel about its end,
-- Counts, Ready and Progress about the next step and its start. Opening is
-- executePlannedTask and Executor its loop, whose fuel is the code's own limit of iterations; Writes,
-- Revisions, Moves, Rounds, Loop and Limit show that the loop ends before it.
--
-- Tools models internal/rpc/agent/toolruntime/runtime.go: authorize is the function of that name,
-- invokable_run is wrappedTool.InvokableRun with the attempts' replies as an argument, and recurs on
-- the attempts left.
--
-- Mall models internal/rpc/mall/domain. Sql is a transaction with the driver's faults by statement;
-- an SQL text has the meaning of its statement on tables keyed by the primary key, columns of type
-- BIGINT refuse values out of range. Payload is SagaPayload and validatePayload. Inventory and Points
-- are mutations.go; their children follow a mutation's effect (Moves, Ledger), the invariants
-- (Balance, Consistency, Violations, Soundness) and the compensations. Orders is the order branches
-- of http.go.
--
-- Rag models splitBounded of internal/rpc/agent/rag/chunker.go; its loop runs on fuel, one round for
-- each rune.
--
-- Numbers: int64 fields are integers, with the wrap of a negation written out; counts, times and
-- durations are natural numbers, and a negative one, which the code treats as 0, has no
-- representation. Texts are compared exactly, not by the database's collation, and fit their columns.
--
-- Not modelled: timestamps, metrics that nothing reads, connections and configuration, generated
-- code, the frontend, and the services listed in the plan of later work.
pub mod Prelude
pub mod Resilience
pub mod Chat
pub mod Outbox
pub mod Plan
pub mod Tools
pub mod Rag
pub mod Mall
