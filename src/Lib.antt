-- ===== src/Lib.antt =====
-- spectre-relay: a model of the relay in Go, and what is proved of it.
--
-- The program. A relay accepts WebSocket connections, authenticates each by a signature over a
-- nonce (server/auth.go), registers it under its user (server/store.go), and passes on encrypted
-- envelopes (server/router.go): to the connection of the recipient, to the recipient's queue in an
-- encrypted database, or by HTTP to another relay. It stores prekey bundles and hands out their
-- one-time prekeys (server/prekey_store.go), signs certificates of senders (server/sealed_ca.go),
-- and limits how often it is asked (server/ratelimit.go). server/server.go ties these together.
--
-- The files.
--   Prelude    names of the libraries and shared helpers: texts as bytes, tests, results, maps as
--              association lists, integers over the native numbers.
--   Golib      what Go's strings, base64, strconv and net packages do, after their documentation.
--   Json       a JSON value and how encoding/json stores it into Go variables. The text of JSON is
--              a parameter `Syntax`: printing, parsing, and that what can be printed reads back.
--   Crypto     AES-GCM and Ed25519 as parameters with the laws that the relay relies on.
--   Config     config/config.go: Load, getEnv, getEnvInt, SafeSummary, and the lifetime of messages.
--   Envelope   model/envelope.go: the two envelopes and the frames of the handshake.
--   RateLimit  server/ratelimit.go: allow. The same loop serves server/auth.go and server/router.go.
--   Files      encrypt, decrypt, loadOrCreateKey and the file handling of persistLocked and
--              loadFromDisk, in server/store.go and server/prekey_store.go.
--   Prekeys    server/prekey_store.go: the bundles, their validation and all methods.
--   Store      server/store.go: Register, Unregister, Enqueue, DrainQueue, the purge loop, NewStore,
--              Stop.
--              The SQLite database is a parameter `Sqlite` with the effect of each statement.
--   Router     server/router.go: allow, Route, deliver, forwardFederated, FlushQueue.
--   Auth       server/auth.go: the limiter of the addresses and Authenticate.
--   SealedCa   server/sealed_ca.go: NewSealedCA, the rotation proof, IssueCert.
--   Server     server/server.go: handleAuthedFrame, issueSenderCert, buildSenderCert,
--              handlePrekeysGet, handleSealedCA, handleFederationDeliver, serveConn, and in
--              Server.Admission the count of connections in handleWS, as events. Server.Responses
--              has the statuses and the JSON of the answers.
--   Relay      the whole: the start (main.go, and New of server/server.go), and the steps of its
--              connections, endpoints and clock in any order, with what they keep in memory and on
--              the disk; in Relay.Connection serveConn with its loop, and in Relay.Process what
--              main.go and Run do with the end of the relay; in Relay.Draining how fast fetches can
--              empty the one-time prekeys, and in Relay.Lives processes after one another.
--              Server.Offline composes the queue with the start of a connection. Files.Survival,
--              Store.Restart, Store.Reopening and Prekeys.Survival are about what the next start
--              finds.
--   Sections   the handlers again, as programs of critical sections (calls under one mutex) and
--              writes: Sections.Handlers has the programs, Sections.System the threads that run
--              them and take turns in any order. Sections.Alone compares them with the handlers of
--              Server and Router, Sections.Interleaved, Sections.Handouts and Sections.Races are
--              about what other threads do in between, and Sections.Paths about what one thread does
--              whatever they do.
--   Logs       the lines that the sections log, and in Logs.Handshake those of the handshake with its
--              debug trace: level, message and attributes of each call of log/slog.
--   Tests      examples at concrete inputs.
--
-- How state and calls correspond. A struct is a record, and a method is a function from the state
-- to the state and its results; its mutex makes it one step. A system call, a clock reading, a
-- random number and a write to a connection are arguments (`WriteEnv`, `EnqueueEnv`, `FrameEnv`, …)
-- that say how the call ends, so every theorem holds for every failure. What leaves the relay is a
-- list of effects in order. A time is a number of nanoseconds, or of seconds where SQLite counts.
--
-- Bounds and fuel. Every loop is structural recursion on its list, so there is no fuel. The ids of
-- prekeys are read as uint32 and timestamps as int64, and the lifetime of messages wraps around as
-- an int64. A count of rows and the length of a list do not overflow.
--
-- The queue, the bundles and the key of the authority have directories of their own in the model: a
-- disk is given for each. In Relay a handler is one step. In Sections it is as many steps as it
-- enters critical sections and writes, and those of other threads come in between. What `Read`
-- returns to a connection, and how each of its system calls ends, is given with the job that starts
-- it.
--
-- Not modelled: the HTTP and WebSocket libraries with the listeners, TLS itself, the upgrade of a
-- connection and shutdown; the recovery of a panic; the log lines of the handlers outside of their
-- sections and of the handshake, which are constant but for the class of an error; and the close of
-- a connection that another of the same user displaces, a call of the WebSocket library.
pub mod Prelude
pub mod Golib
pub mod Config
pub mod Json
pub mod Envelope
pub mod Crypto
pub mod Files
pub mod Prekeys
pub mod Store
pub mod Router
pub mod RateLimit
pub mod Auth
pub mod SealedCa
pub mod Server
pub mod Logs
pub mod Sections
pub mod Relay
mod Tests
