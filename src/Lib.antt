-- ===== src/Lib.antt =====
-- Peerstore: a file store over a Chord ring. Servers keep files that clients encrypted, find each other by
-- Chord lookups, and talk in signed and encrypted messages.
--
-- The parts. `models` has the identifiers, nodes, the Lamport clock and the finger table; `crypto` has AES,
-- RSA and PEM files; `protocol` has the messages, their encryption, the authentication of callers and the
-- trusted nodes; `file` has the disk and the handlers of files; `chord` has a node's part of the ring, its
-- calls to other nodes and its stabilization. A server receives a message (Protocol.Envelope), authenticates
-- its caller (Protocol.Connection) and runs a handler of `file` or `chord`.
--
-- Which file models which part:
--   Base: lists of bytes, Go's maps (Base.Dict), `(value, error)` pairs and panics (Base.Result),
--     and functions that may fail and change a state (Base.Act).
--   Models.Node, Models.Clock, Models.FingerTable, Models.TransactionLog: models/models.go.
--   Crypto.Padding and Crypto.Aes: crypto/aes.go. Crypto.Rsa: crypto/rsa.go and crypto/helper.go.
--   Crypto.Pem: crypto/keypair.go.
--   Protocol.Message: protocol/request.go, response.go and transport.go. Protocol.Envelope: encryptAndEncode
--     and the two decoders of protocol/server.go. Protocol.Server: the trusted nodes of protocol/server.go
--     and NodeRegistrationHandler and NodeTrustHandler of protocol/handler.go. Protocol.Registration:
--     UserRegistrationHandler. Protocol.Connection: one round of the loop of handleConnection, and the
--     loop in Protocol.Connection.Rounds. Protocol.Serve:
--     the accept loop, the channel of connections and the workers (startWorkers and Serve), as a step relation
--     that interleaves them in any order. Protocol.Transport: NewTransport, Close and RoundTrip.
--     Protocol.Rpc: RoundTrip of a client against handleConnection, over a connection that is a parameter,
--     with the requests that the server sends while it authenticates a user, and what they change.
--     Protocol.Server.Concurrent: concurrent registrations of nodes, as a step relation.
--     Protocol.Registration.Nodes: a ring of servers, which answer only the servers that they trust.
--   File.Storage: file/storage.go. File.Owners: the owner header inside a stored file. File.Handlers: the
--     five handlers of file/handlers.go, over the disk and the clock. File.Service: what the file service
--     promises, without the layout of files, which File.Service.Refinement compares the handlers with.
--   Chord.Ring: the interval tests of chord/local.go. Chord.LocalNode: LocalNode of chord/local.go with
--     ClosestPrecedingNode and SetPredecessor. Chord.Remote: chord/remote.go. Chord.Stabilize: Successor,
--     Initialize and Stabilize of chord/local.go. Chord.Handlers: chord/handlers.go. Chord.Routing: a lookup
--     over all nodes of a ring.
--   Startup: cmd/peerstore/server/main.go, up to Serve. Startup.Host: the running server, with its trusted
--     nodes, its files and its node of the ring as one state, the handler behind each route, its start
--     (Startup.Host.Begins), and its timers (Startup.Host.Events).
--   Client: cmd/peerstore/client/main.go. Client.Params: validateParams and the key file. Client.Start:
--     main up to its switch on the operation, with the registration of the user. Client.Program: a whole run
--     of main, with the switch. Client.Requests:
--     createTransport, getNode and getKey. Client.Payload and Client.Operations: backup, getfile and share.
--     Client.Log: the transaction log functions, also those of file/transactionlog.go. Client.Sync: the
--     entries of the log, and what Synchronize decides. Client.Files: GetFile, PostFile, DeleteFile,
--     Synchronize and the loop of the operation sync. Client.Direct: the client against one node that runs
--     the handlers of File.Handlers behind each connection. Client.Apart: the client against two servers, where
--     the node that keeps a file is not the peer that the client asks first.
--   Tests: the results with conditions at concrete inputs.
--
-- State is passed explicitly. A lock of the source makes the operations that it guards run one at a time, so
-- each of them is one function of the state. A handler is one function too; NodeRegistrationHandler, which takes
-- its lock twice, is also taken apart into its steps. Identifiers and all byte slices are lists of numbers; a nil
-- slice that the source distinguishes and a nil pointer are `none`.
--
-- Fuel. The loops over bytes take one round for each byte and one more (read_rest, read_public_key). A
-- lookup takes as many hops as the distance to the key at most (Chord.Routing). The loop of Stabilize over
-- the chain of predecessors has no bound in the source: its fuel is an argument, one round for each node of
-- the chain and none that is enough on a closed ring.
--
-- Parameters: Go's block modes, RSA, PEM, X.509, gob, SHA-1, the random source and the network are records
-- of functions; the laws that the theorems take of them are stated with them. In Startup.Host a handler's requests
-- to other nodes, and to its own node, reach a state of their own; one to the own node comes in as another
-- event. The answers to the requests with which a
-- connection's caller is authenticated come with the connection. The faults of the disk are the same for a whole
-- run. A handler and a round of Stabilize are one event each, though calls to other nodes take time in
-- which messages may come.
--
-- Not modelled: the flags and the signal handlers of the programs under cmd/peerstore, the
-- file system watcher, whose events are an argument, the registration of types with gob, and logging.
-- GenerateKeyPair is a call of the library.
pub mod Base
pub mod Models
pub mod Protocol
pub mod Crypto
pub mod File
pub mod Chord
pub mod Startup
pub mod Client
pub mod Tests
