-- ===== src/Lib.antt =====
-- The client library of the SAFE network (src of the repository): a client that connects to the
-- elders of a section, pays for writes out of a local transfer actor, and reads and writes maps,
-- sequences and blobs.
--
-- The parts, and how they meet. A `Client` (src/client/mod.rs) owns a `ConnectionManager`
-- (src/connection_manager.rs), a transfer actor and a cache of sequences. A read makes a query, sends
-- it to all connected elders, and takes the response that their vote elects. A write first asks for
-- the history of the account, has the actor produce a transfer, waits for its validation, then sends
-- its command with the proof of payment, and registers the payment with the actor.
--
-- The files:
--   Shared            numbers, texts, lists, decisions
--   External          the types and functions of other crates, as records of parameters
--                     (bincode, safe-nd, safe-transfers, quic-p2p, lru, tokio)
--   Errors            src/errors.rs
--   Exec              how a call ends (a value, an error, a panic, or a wait without end), and the
--                     state-passing monad of all calls
--   Connection        src/connection_manager.rs: Link (the state and the spawned tasks), Election (the
--                     vote on the replies), Query (send_query, send_cmd, serialise_in_envelope), Join
--                     (new, bootstrap, connect_to_elders; attempt_bootstrap of src/client/mod.rs). The
--                     `trace` of a `Link` is what the tasks have sent: each task that runs for a
--                     command or a query adds its connection and its bytes
--   Client.State      the client and its messages (src/client/mod.rs)
--   Client.Money      src/client/transfer_actor
--   Client.Maps       src/client/map_apis.rs
--   Client.Sequences  src/client/sequence_apis.rs: the writes, the cached replicas and their edits,
--                     and the turns of clones that append at the same time (Clones)
--   Client.Blobs      src/client/blob_apis.rs: Packing (pack, unpack, and what encrypts and reads),
--                     Calls (get_blob, store_blob); Storage is src/client/blob_storage.rs
--   Client.MapInfo    src/client/map_info.rs: MapInfo, and the encryption of entries (Entries)
--   Encryption        symmetric_encrypt and symmetric_decrypt of src/utils/mod.rs, and the shared keys
--                     of src/crypto.rs
--   Client.Writes     all calls that pay and send, as one type, for the theorems about all of them
--   Client.Create     Client::new and listen_on_network (src/client/mod.rs)
--   Logging           src/utils/logging: WebSocket and Requests (web_socket.rs), Loggers
--                     (parse_loggers of mod.rs), Init (the rest of mod.rs), Appenders, Fields and
--                     Creators (async_log.rs)
--   Utils             the rest of src/utils/mod.rs and src/crypto.rs
--   Configuration     src/config_handler.rs
--   Packaging         scripts/package.rs: Targets and Target (the triples), Tools (the commands and the
--                     environment), Libraries (find_libs), Archives, and Main; Shell is the state of
--                     a run, with the archives that are on the disk
--   TestUtils         src/utils/test_utils: Sync (the Synchronizer of sync.rs: its state, and Monitor, its
--                     hooks, the lock and the condition variable), Balance
--   Examples          a network small enough to run the calls on
--
-- What a definition takes as given. A type of another crate is a field of `Types` or `LogTypes`, and a
-- function of another crate or of the system is a field of `NetApi`, `ActorApi`, `SequenceApi`,
-- `BlobApi`, `EncryptorApi`, `CipherApi`, `SocketApi`, `LogApi`, `InitApi`, `LevelApi`, `FileApi` or `HostApi`; a
-- call on the network takes the state of what lies outside and gives a new one, so it may give anything
-- at any time. Tasks that are spawned run to their ends in an order that the network chooses, and `joined`
-- says whether the executor hands over a task's result. The order in which a walk over a hash map
-- meets its entries is the parameter `iterate`; where it matters, it is taken to meet each entry
-- once. `await_validation` is a parameter of the calls that pay, so that the code behind it can be
-- stated; what is said of unpaid writes takes the source's own, which panics. The storage of the chunks
-- is a parameter of packing and unpacking. Where a blob is to be unpacked, it is taken to keep what is
-- put into it; the storages of the source do not (`put` of `BlobStorageDryRun` drops a chunk, and that
-- of `BlobStorage` stores it under another name).
--
-- Bounds and fuel. `attempt_loop` runs on fuel 3: the third failure is returned. `listen_loop` runs
-- on any fuel, since it waits in its first round. The `u64` indices of sequences wrap at 2 ^ 64.
-- `pack` and `unpack` run on fuel, and so does the depth to which a storage calls `get_blob` and
-- `store_blob` again; what goes on longer is `blocked`. The loop of the web socket and the draw of a
-- random text run on fuel too. RECONNECT_PERIOD is that of a build without tests.
--
-- Clones. A clone of a client shares its caches and its actor, each behind a lock. A call of one
-- client is written as if no other one ran. For `append_to_sequence` the turns between two locks are
-- modelled too, and any order of them; its payment and its message are one turn.
--
-- Not modelled: clones that run other calls at the same time, the handler of the web socket's
-- thread, the test helpers that draw random identities or hook a connection, and what the packaging
-- tool prints.
pub mod Client
pub mod Configuration
pub mod Connection
pub mod Encryption
pub mod Errors
pub mod Examples
pub mod Exec
pub mod External
pub mod Logging
pub mod Packaging
pub mod Shared
pub mod TestUtils
pub mod Utils
