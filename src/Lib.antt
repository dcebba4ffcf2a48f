-- ===== src/Lib.antt =====
-- Verification of the core of gritz: the life of a task, who may change it, how its changes reach
-- the database, the loops that fire, archive and announce them, and the runner that executes them
-- and carries their events, logs and secrets.
--
-- A server keeps tasks in a database. Users and agents change them through API handlers, each in
-- one transaction that authorizes the caller, runs a method of the task's state machine and records
-- an event. Runners execute tasks in sandboxes and report back; their reports wait in an outbox on
-- disk and are folded into the tasks by the server, and what sandboxes print is redacted and shipped
-- in chunks. Schedules create tasks, a sweep archives those whose time has passed, each change is
-- announced to subscribers, and external events reach tasks through routing rules.
--
-- The files, and the code they model:
--   Task         internal/model/task.go: statuses, commands, runner events and all the methods.
--                Task/Runs takes any history of actions, Task/Versions is about the run counter,
--                Task/Progress about reaching an end.
--   Event        internal/model/event.go and RunnerEvent.LifecycleEvent.
--   Scope        internal/auth/authscope/scope.go, task.go and internal/auth/agentauth/scope.go.
--                Scope/Matching gives Allow a meaning, Scope/Tokens that of a task token.
--   Store        internal/store/store.go, task.go, event.go with the SQL statements behind them.
--                Store/Triples has a rule for each call, Store/Rows how the statements combine.
--   Server       internal/server/apiserver/task.go, runner.go: the handlers. Server/Requests has
--                GetTask and UpdateTask, Server/Creation CreateTask, Server/Reports
--                SubmitRunnerEvents; Server/Births, Server/Reading, Server/Effects,
--                Server/Replies, Server/Access and Server/Folding are the theorems.
--                Server/Links is CreateLink of internal/server/apiserver/link.go.
--   Link         internal/model/link.go.
--   Router       internal/server/eventrouter/rule.go, eventrouter.go and internal/store/link.go.
--                Router.antt has Attr, Match and Plan, Router/Writing the rows and messages that
--                routing writes, Router/Applying attach, create, Apply and Route.
--                Router/Matching and Router/Planning are about the rules, Router/Attaching and
--                Router/Creating about one transaction each, Router/Outcomes, Router/Steps and
--                Router/Routes about the whole, Router/Subscriptions and Router/Reach about who
--                is reached, Router/Redelivery about an event that comes twice.
--   Schedule     internal/model/schedule.go.
--   Scheduler    internal/server/scheduler/scheduler.go and internal/store/schedule.go;
--                Scheduler/Firing is about one tick. Scheduler/Handlers is internal/server/apiserver/schedule.go, with
--                Scheduler/Armed, Scheduler/Kept, Scheduler/Calls and Scheduler/Manual about it.
--   Archiver     internal/server/archiver/archiver.go; Archiver/Sweep is the theorem.
--   Runner       internal/runner/runner.go and internal/runner/taskstate/taskstate.go. Runner/Specs
--                has the environment of a sandbox, Runner/Starts Start, Runner/Polls Poll and
--                Runner/Loop Load, supervise and Prune; Runner/Rules, Runner/Quiet,
--                Runner/Launching, Runner/Holding, Runner/Slots and Runner/Reports are the
--                proofs.
--   DriverServer internal/runner/driverserver/driverserver.go over
--                internal/runner/runrecord/runrecord.go. DriverServer.antt has the record and open,
--                DriverServer/Steps the rest and what may happen to a sandbox; DriverServer/Sound,
--                DriverServer/Kept, DriverServer/Opening and DriverServer/Once are the proofs.
--   Agent        internal/runner/agent/driver.go with the config store of config.go and
--                internal/gritzclient/events.go; Agent/Setup, Agent/Cursor and Agent/Outcome are
--                the theorems, Agent/Rules has a rule for each call. What Agent's driver returns
--                is what a step of DriverServer says of the acknowledgement.
--   Logship      internal/runner/logship/logship.go; Logship/Order is about what is shipped,
--                Logship/Progress and Logship/Sent about the end of a drain and what it
--                delivers.
--   PubSub       internal/server/pubsub/local.go; PubSub/Offers and PubSub/Delivery lead to
--                PubSub/Subscribers.
--   TaskFilter   internal/mcpbridge/taskfilter.go.
--   Trie         internal/x/bytetrie/bytetrie.go.
--   Redact       internal/x/redact/redact.go.
--   Outbox       internal/x/outbox/filestore.go (Outbox/FileStore, Outbox/Names) and engine.go
--                (Outbox/Engine); Outbox/Recovery, Outbox/Soundness and Outbox/Delivery are the
--                theorems.
--   Semaphore    internal/x/safesem/semaphore.go.
--   Pagination   internal/x/pagination/pagination.go; Pagination/Steps has
--                one page, Pagination/Walks follows the tokens.
--   Prelude      what these share; Examples instantiates the theorems at concrete values.
--
-- How the model is made. Texts are lists of bytes. An int64 version or duration is its 64-bit
-- pattern; the semaphore has integers whose sums wrap around; database ids are the non-negative
-- serials that the database gives. A map is an association list without repeated keys. A pointer
-- receiver that is mutated is returned beside the result. The database accepts or refuses each
-- call as a list of answers says, and a refused call, a refused commit too, changes nothing; a
-- file operation likewise, for its writes are atomic (internal/x/atomicio). A transaction sees its
-- own writes, and what no commit stored is dropped; concurrent transactions on one row are taken
-- one after the other, as the row lock makes them. The engine of the outbox is a step function
-- on steps that the environment chooses, so every interleaving of producer, consumer and restarts
-- is a list of steps; the passes of the log sender, the calls of subscribers, the life of a
-- runner and that of a driver's server are made the same way. The goroutines of one poll are taken one after the other in the
-- order of the list, and a runner that has died takes no more steps. What the runner asks of its
-- backend, its server and its disk is answered by a record of functions on a state of what is
-- outside, which no theorem restricts; the cron library and the clocks of the scheduler are
-- functions too. The serial
-- ids of tasks, events and links, the routing key of a url and the pages that the server sends to
-- a walk over events, with the tokens that lead from one to the next, are answers from outside as
-- well. No loop of
-- the code needs fuel: each is a recursion on a list. Only a client that follows page tokens has
-- fuel, for which one more page than there are rows is enough, and the drain of a flush, for
-- which two passes more than there are bytes are enough.
--
-- Not modelled: log lines, protobuf conversions, the parsing of scopes from JSON, the sandboxes,
-- shells and webhooks, which are input and output, and so far the handlers for keys, organisations
-- and logs.
pub mod Prelude
pub mod Task
pub mod Event
pub mod Link
pub mod Schedule
pub mod Scope
pub mod Store
pub mod Server
pub mod Router
pub mod Archiver
pub mod Runner
pub mod Logship
pub mod PubSub
pub mod TaskFilter
pub mod DriverServer
pub mod Agent
pub mod Scheduler
pub mod Trie
pub mod Redact
pub mod Outbox
pub mod Semaphore
pub mod Pagination
pub mod Examples
