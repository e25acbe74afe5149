-- ===== src/Lib.antt =====
-- The listening-room server: a verification of internal/server.
--
-- Clients connect by WebSocket, one of them opens a room and hosts it, the others ask to join, and the host
-- controls what everybody plays. The server keeps the rooms, tells everybody what changed, keeps a seat for
-- members who lose their connection, and hands the room to a deputy when the host stays away.
--
-- The files, and the code each is about (paths from the repository's root):
--   Limits, Protocol        internal/server/server.go, protocol.go: limits, payloads, messages, actions
--   Utf8, Validation        validation.go: texts, tracks, positions; UTF-8 as Go's library reads it
--   Queue, Playback         playback.go: the queue, and the switch of handlePlaybackAction
--   Policy                  uapolicy.go: what a client gets, by its User-Agent
--   World                   server.go, client.go: Server, Room, Session, Client, and sending
--   Writer                  client.go: writePump, and what leaves the queues of a connection
--   Connections             server.go, client.go: NewServer, handleWebSocket, the rate limits
--   Shutdown                server.go: announceRestart, drainClients
--   Hosts                   hosts.go: assignHostLocked, pickDeputy, closeRoom, failoverHostsOnce
--   Lifecycle, Reconnect    lifecycle.go: disconnection, expiry, cleanup; handleReconnect
--   Rooms, Members          rooms.go: handleCreateRoom, handleJoinRoom, allowRoomCreate; approving,
--                           rejecting, kicking, handing over the host's seat, leaveRoom
--   Suggestions             rooms.go: the suggestions of guests
--   Sync                    playback.go, server.go: handlePlaybackAction around its switch,
--                           handleBufferReady, handleRequestSync, handlePing, roomStateHash
--   Dispatch                server.go: handleMessage, and the events of the server
--   PolicyFile              uapolicy.go, run.go: loadUAPolicy, and the reload by a signal
--   BigEndian, UserAgents   useragents.go: the counts of User-Agents, and the handler that serves them
--   Flush, Snapshot         persistence.go: flushState; snapshotRooms and the records of rooms
--   Restore, Loading        persistence.go: restoreRoomLocked; readLegacyState and LoadState
--   Float32, Wire           codec.go: float32, the generated structs, and the library code as parameters
--   Cardinality             codec.go: the check of a queue on the wire
--   ToProto, Convert        codec.go: toProtoMessage; fromProtoMessage and decodePayload
--   Codec                   codec.go, server.go: envelopes, and the request that a client's bytes make
--   Inputs                  client.go: readPump's data and the other events, as one sequence
--   Prelude                 what the files share; Tests, runs at concrete inputs
-- A child module holds proofs about its parent. Those of Dispatch follow every handler once, for any
-- property of rooms: Operations lists the changes that handlers make to a room, Closure is about sending,
-- Membership, Rooming, Deciding, Leaving, Returning, Playing and Suggesting about the handlers, and Steps
-- about every event. Limits (with Tables) and HostFlags are two such properties; Flood is about messages that
-- are not read. Sync.Revision follows the playback actions with the same lemmas about sending.
--
-- Names are those of the code in another spelling: handleJoinRoom is handle_join_room, assignHostLocked is
-- the room seat_host and the messages host_change. Pointers are numbers into heaps of clients, rooms and
-- sessions; a client is two records, Client and Outbox, what it is and what waits to be written. Maps are
-- association lists, visited in their order. Texts are lists of bytes. An int64 is an integer with its
-- wrap-around written out; the counters that only grow (revisions, sequences) are unbounded numbers.
-- What an event takes from outside comes with it, as an Env: the clocks, random identifiers, Unicode's upper
-- case and the size of an encoded message. Every loop follows a list, but for two: the search of
-- sanitizeString for a cut, which makes at most four tries as in the code, and the loop over the fields of a
-- playback action, whose fuel is the number of bytes, each turn consuming one at least.
-- Libraries are parameters with what their documentation promises: Wire.Library for protobuf, protowire and
-- gzip; JSON, SHA-256 and the outcome of a transaction are arguments.
--
-- A handler is one step. The locks of the code make its parts atomic and it tests some conditions again
-- under a second lock; such a test stands once, and the interleavings between two parts are not modelled.
-- Not modelled either: what LoadState cleans up after a migration, the socket with its deadlines, the start of the
-- program, and the waits of the shutdown. Among the events of the server no writer makes its steps: what
-- is queued stays queued there, and Writer is about one connection, whose messages, pongs, closing and writer's steps
-- may fall in any order. Whether the socket takes a write is part of the step; on a connection that was closed
-- because its queue overflowed it takes none.
pub mod Prelude
pub mod Limits
pub mod Utf8
pub mod Protocol
pub mod Validation
pub mod Queue
pub mod Playback
pub mod Policy
pub mod World
pub mod Connections
pub mod Shutdown
pub mod Hosts
pub mod Lifecycle
pub mod Reconnect
pub mod Rooms
pub mod Members
pub mod Suggestions
pub mod Sync
pub mod Dispatch
pub mod BigEndian
pub mod UserAgents
pub mod PolicyFile
pub mod Flush
pub mod Snapshot
pub mod Restore
pub mod Loading
pub mod Float32
pub mod Wire
pub mod Cardinality
pub mod ToProto
pub mod Convert
pub mod Codec
pub mod Writer
pub mod Inputs
pub mod Tests
