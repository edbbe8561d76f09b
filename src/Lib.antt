-- ===== src/Lib.antt =====
-- go-outbox: a relay that moves messages from an outbox table in PostgreSQL to a broker, at least
-- once, by any number of replicas that share the table.
--
-- Producers insert rows. The pipeline of a stream claims a batch of due rows under a fresh lease
-- token, publishes it in chunks through the router and the driver of the stream, and writes back
-- what became of each message: acknowledged, failed and to be retried, failed for good, or deferred
-- because the broker is out of reach. A circuit breaker holds claims back meanwhile. A janitor
-- reclaims the leases of replicas that died and purges what was delivered, and on a partitioned table
-- creates and drops partitions. What failed for good is announced as a dead letter.
--
-- Core (internal/core) has the data, the errors with their two classifications, and the backoff.
-- An error is a tree, searched as errors.As does.
--
-- Store (internal/store, migrations) is the table and what is done to it. Table is the row with its
-- constraints. Queries has one function for each statement of queries.go, on the whole table at an
-- instant of the database clock; SKIP LOCKED is a test on identifiers, arbitrary in every statement.
-- Operations has the methods of store.go round the statements, with the database failing before or
-- after it runs one. System is all statements of all replicas, and a history is a list of them in
-- the order in which they are committed. Partitions (partition.go) is a list of tables, each with the
-- days that it takes. Migrations (store/migrate) is the runner of the migrations, on its own
-- bookkeeping. The other files prove what holds of a statement, or of every history.
--
-- Producer (pkg/outboxclient, pkg/outboxsql) is the client libraries, on the table of Store.
--
-- Dispatch (internal/dispatch) is one stream's pipeline: Breaker, Chunks and Publish are its parts,
-- Pipeline the cycle of RunOnce, Loop one turn of Run. A cycle takes what its surroundings decide as
-- a record, and any history of other statements between its own. The goroutines of a publish write
-- under a mutex, each to its own entries, so a publish is the list of its chunks in the order in
-- which they finish. Janitor is the sweep and the reclaim under the advisory lock, Upkeep the sweep
-- of a partitioned table, DeadLetter the forwarding of what failed, through the store and the router.
-- Listener (listener.go) wakes the pipelines on what the database announces.
--
-- Broker (internal/broker, Naming of internal/config/broker.go) is the router, the naming of
-- destinations, the classification of failures of the three drivers, one publish of RabbitMQ, a
-- publish into a PostgreSQL inbox, and the Kafka driver with its set-up and its records.
-- Rabbitmq/Connection (rabbitmq/conn.go) is the supervised connection, as a step relation on the
-- state that its goroutines share.
--
-- Config (internal/config) is the settings, their loading and their validation. Environment has what
-- they are read with (parse.go, Source), Drivers the settings of the three drivers and their checks
-- (driver_*.go), Brokers the routing table (broker.go), Loading and Loading/Files load.go, and
-- Validation validate.go.
--
-- App (internal/app/api.go) is the administrative HTTP API: the pages of failed messages and the
-- requeueing, Access the token that guards it, Statistics the counts with the routing table. Admin
-- (cmd/outbox/admin.go) is the commands that do the same from a shell.
--
-- Observability (internal/observability, internal/events) is the metrics, and what each event on the
-- bus adds to them. What the client library keeps is a map from series to values; a histogram is
-- the number of its observations.
--
-- Base has the shared tests, lists and integers. Tests applies the theorems to concrete inputs.
--
-- Recursion is structural, but for the sweep, which takes fuel; one more than the rows of the table
-- and those that others insert meanwhile is enough, since a chunk that comes back full shrinks the
-- table. Durations are int64 where the code
-- computes with them (the breaker and the reconnecting double with wrap-around), and counts of rows
-- and instants are natural numbers. The backoff's conversions to float64 round
-- as they do in Go, and its product with the jitter is exact in the model.
--
-- Parameters stand for code that is not in the repository: encoding/json, encoding/base64,
-- encoding/pem, strconv, strings, time, net/url, regexp, crypto/sha256, crypto/tls, uuid, the library
-- that reads .env files, the conversion of a float64 past int64, the text of an error, kafka.Error's
-- methods, and what a broker or the database answers.
--
-- Not modelled: the pool's set-up, the start and stop of the process's goroutines, the server, and
-- the logs and traces.
pub mod Base
pub mod Core
pub mod Store
pub mod Dispatch
pub mod Broker
pub mod App
pub mod Admin
pub mod Observability
pub mod Config
pub mod Producer
pub mod Tests
