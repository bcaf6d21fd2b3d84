-- ===== src/Lib.antt =====
-- burndrop: one-time drops of secrets between a human's browser and an agent, through a relay that
-- holds only ciphertext.
--
-- Common: byte strings, Boolean tests and finite maps, shared by all parts.
--
-- Relay (internal/relay). A relay keeps slots: an agent creates one, a browser uploads to it, the
-- agent fetches it once; or an agent creates a reveal that a browser opens once.
--   Relay.Slot: types.go. Times are natural numbers (nanoseconds), 0 is Go's zero time.
--   Relay.Memory: memory.go. The store is a record; a method that takes the mutex is a function
--     from the store to its result and the new store. `create`, `get` and what the methods share
--     are in Relay.Memory, Upload, Fetch, Open, Revoke and Status in Relay.Memory.Methods, Sweep,
--     Stats and Close in Relay.Memory.Sweep. Wait gives up the mutex while it blocks, so it is two
--     functions in Relay.Memory.LongPoll: `wait_begin` until it blocks, `wait_end` after it wakes.
--     The two readings of the clock in one method are the arguments `now` and `at`. The loop of
--     Sweep is recursion on the timer queue, and needs no fuel. container/heap stands by its
--     contract as a sorted queue; entries of one time keep their order of insertion. Go's counters
--     are integers, here natural numbers. A slot that Create receives without a state is not
--     modelled, since every caller sets one.
--   Relay.Memory.History: sequences of calls, which stand for every interleaving of clients. Close
--     is not a call of a history.
--   Relay.Redis: redis_store.go. A Lua script is one function on the keys it touches. The scripts keep
--     and compare milliseconds, and the methods convert times to them and back. Connection errors and
--     the polling of Wait are not modelled.
--
--   Relay.Config: the lifetimes of config.go, with the wrap-around of an int64 written out.
--   Relay.Handlers: handlers.go on the memory store, from the decoded body to the reply; what the
--     middleware decides is an argument, and the text of a time is the second that it names. The handler
--     of the status is in Relay.Handlers.Polls, in two parts around the blocking Wait.
--
--   Relay.Auth: auth.go, with the parsing of agent keys from config.go. SHA-256 is a parameter.
--   Relay.Limiter, Relay.ClientIp: ratelimit.go. The token bucket of golang.org/x/time/rate and the
--     package net are parameters.
--
-- Crypto (internal/crypto).
--   Crypto.Base64: crypto.Encoding of crypto.go, Go's strict raw base64url, with its skipping of
--     line breaks.
--   Crypto.Padding: Pad and Unpad of crypto.go. The loop of Unpad is recursion on the number of steps
--     that are left, at first one block, which is what the source's bound `stop` leaves.
--   Crypto.Tokens: tokens.go. SHA-256 is a parameter where it is used.
--   Crypto.Sealed: crypto.go and password.go, envelopes under encryption. The ciphers, the hashes and the JSON
--     of an envelope are parameters.
--   Crypto.Trim: strings.TrimSpace, for the redactor and the relay.
--   Crypto.Text, Crypto.Envelope: envelope.go, with the decoding of UTF-8. The check of RFC 3339
--     times is a parameter.
--
-- Link (internal/link/link.go). Link.Query is the escaping of net/url, Link.Fields the fields of a
-- fragment, Link.Origin NormalizeOrigin over url.Parse and strings.ToLower of a host as parameters,
-- Link.Drop and Link.Reveal the two kinds of links. The parsers start at the fragment.
--
-- Storage (internal/storage): where an agent keeps what it fetched.
--   Storage: the rules of backend.go on names, retention and expiry. time.Parse is a parameter.
--   Storage.Memory, Storage.Index: memory.go and index.go, the session's values and the index file.
--   Storage.Manager: manager.go over an arbitrary persistent backend, which Storage.Manager.Laws
--     takes by its laws and Storage.Manager.InMemory fills with the memory backend. The purge and the
--     listing are in Storage.Manager.Purge.
--   Storage.Registry: registry.go. The probes of the backends and the end of the context are parameters.
--   Storage.Dotenv: dotenv.go, from the bytes of the file to the answer. The JSON text of an entry is
--     a parameter, and so is the answer of git about the location. Storage.Dotenv.Calls has the
--     operations, Storage.Dotenv.Quoting the quoting of values, Storage.StdBase64 the padded base64 of
--     binary values.
--
-- Agent (internal/agent): the side of the agent that asks for secrets and sends them.
--   Agent.Redact: redact.go, the redactor of secret values, with the encodings it registers in
--     Agent.Redact.Encodings. The loop of strings.ReplaceAll is recursion on the text.
--   Agent.Config: the rules and references of config.go.
--   Agent.Exec, Agent.World: what the calls of agent.go share. A call is a function from the state (the
--     storage manager, the redactor, the relay, the events of the audit log) to a value or an error
--     and the state after it; what it meets outside is the record Env. The n-th reading of the clock and
--     the n-th draw of random bytes are functions of n, and a call of the storage manager counts as
--     one reading.
--   Agent.Records: pending requests and sent reveals in the store, Pending, List and Delete.
--   Agent.Request, Agent.Fetch, Agent.Send, Agent.Revoke: the calls of these names. What the wait in Fetch
--     meets is an argument, with the relay after it.
--   Agent.Run: run.go, with its data and what needs no state in Agent.Run.Commands. The operating system,
--     regexp and filepath are parameters, and the variables come in the order in which the map gives
--     them.
--
-- Client (internal/client/client.go): the calls of the relay are in Client.Calls, over an HTTP transport
-- and JSON as parameters. The loop that waits for a change is recursion on what its turns meet. The loop
-- has no bound of its own, so a list of turns that passes the deadline is enough.
--
-- Relay.Redis.Refinement compares the two stores of the relay, call by call, and Relay.Redis.Eviction
-- what a sweep does before and after the Redis server evicted a slot.
--
-- Not modelled: the cryptographic primitives, JSON, the rest of the HTTP server, the audit file of the
-- agent, the storage backends of vendors, the MCP server, the command line, the
-- browser page and the SDKs.
pub mod Common
pub mod Agent
pub mod Client
pub mod Crypto
pub mod Link
pub mod Relay
pub mod Storage
