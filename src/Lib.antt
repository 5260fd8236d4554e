-- ===== src/Lib.antt =====
-- Kamune is a library and a set of programs for private messaging between two peers. This library
-- models the parts that decide what happens to a peer's packets, messages and sessions.
--
-- The parts and how they interact:
--   * Two peers that want to talk directly find each other through the broker. A peer builds REGISTER
--     packets and opens NOTIFY packets (pkg/relayconn/broker); the broker answers them
--     (cmd/relay/internal/broker). Both sides use the codec, and seal what they say with keys that
--     they exchange (pkg/exchange).
--   * Two peers with a connection run a handshake on it (handshake.go), which leaves each with a
--     session: an ID, the keys of the two directions and a root for resumption tokens.
--     In front of it each end introduces itself with a signed message (intro.go), or the dialer asks
--     to resume a session with a one-time token (resume.go); server.go and dial.go check these.
--   * Two peers that cannot reach each other meet at the relay. Its session manager pairs a listener
--     with a dialer under a token, and its hub forwards the frames of each to the other
--     (cmd/relay/internal/services). A rate limiter bounds what a client may ask
--     (cmd/relay/internal/ratelimit). Tokens come from pkg/relayconn/token.go.
--   * On a connection, messages are framed (conn.go for a direct connection, pkg/relayconn/framing.go
--     for one to a relay), and the transport (transport.go) gives each a sequence number, has it signed
--     and padded (serde.go), encrypts it (internal/enigma), and undoes all this on the other side.
--   * What a peer keeps of a session, among it the one-time tokens to resume it, is in the metadata of
--     the session (pkg/storage), beside peers, chats and settings, encrypted at rest by the same Enigma
--     (internal/engine).
--
-- Which file models what:
--   Prelude.antt        shared names; Tests, Lists, Slices (bytes and encoding/binary), Errors (value
--                       or error), Print (decimal and hex), Dict (a Go map as an association list)
--   Broker/Codec        pkg/relayconn/broker/codec.go: ParseRegister is parse_register, and so on
--   Broker/Crypto       pkg/exchange/ecdh.go; SealNotify and OpenNotify
--   Broker/Client       pkg/relayconn/broker/client.go: openNotify, decodeNotify, decodeAssignedToken
--   Broker/Server       cmd/relay/internal/broker/broker.go: its Broker (here Server) and each
--                       handler; its children Registry, Entries, Sealing, Peers, Rendezvous and
--                       Refresh hold the proofs
--   Relay/Session       cmd/relay/internal/services/session.go: the SessionManager; its children
--                       Capacity, Pairing and Expiry hold the proofs
--   Relay/Hub           cmd/relay/internal/services/hub.go: ReadPump and what it calls
--   Relay/RateLimit     cmd/relay/internal/ratelimit/ratelimit.go: Allow; its children Window, Tracking
--                       and Quota hold the proofs
--   Relay/Token         pkg/relayconn/token.go: ValidateUserToken, TokenFromKeys
--   Protocol/Route      routes.go
--   Protocol/Version    version.go: parseSemver, checkVersion
--   Protocol/Framing    pkg/relayconn/framing.go: ReadBytes, WriteBytes
--   Protocol/Conn       conn.go: ReadBytes, WriteBytes and the deadline checks; its children Frames,
--                       Delivery and Deadline hold the proofs
--   Protocol/Padding    serde.go: the choice of a bucket and the length of the padding
--   Protocol/Serde      serde.go and internal/enigma/enigma.go: serialize, deserialize, Encrypt, Decrypt
--   Protocol/Transport  transport.go: Send, Receive, Close
--   Protocol/Network    procedures over a connection as data, and two of them at its ends; its children
--                       Interleaving, Within and Play are about the orders of their steps, about
--                       larger procedures, and about one procedure against any other end
--   Protocol/Exchange   pkg/exchange/mlkem.go; NewEnigma, Derive and Text of internal/enigma
--   Protocol/Challenge  handshake.go: sendChallenge, acceptChallenge, on the session of transport.go, with
--                       its resumption tokens; its children hold the proofs
--   Protocol/Handshake  handshake.go: requestHandshake, acceptHandshake; its children Agreement, Steps,
--                       Outcome and Established are about two such sides, Safety, Initiator and
--                       Responder about one, and Transcript about what is hashed
--   Protocol/Introduction
--                       intro.go and resume.go: the signed messages in front of a handshake
--   Protocol/Endpoint   server.go: serve, handleNewConnection, handleResume; dial.go: the handshake of
--                       the dialer, attemptResume; its children Introduced and Resumption are about a
--                       server against any other end, and Messages, Met and Resumed about a dialer and
--                       a server
--   Storage/Engine      internal/engine/bolt_namespace.go: values encrypted at rest
--   Storage/PackedList  pkg/storage/session.go: serializeList, deserializeList
--   Storage/Session     pkg/storage/session.go: GetMeta, SetMeta, DeleteMeta, PopList, RemoveListItem;
--                       its children Tokens and Removal hold the proofs
--   Storage/Times       time.Time as nanoseconds since the zero time, and UnixNano
--   Storage/Peers       pkg/storage/peer.go; its child Expiry holds the proofs
--   Storage/Chat        pkg/storage/storage.go: AddChatEntry, GetChatHistory; its children Sorting and
--                       History hold the proofs
--   Storage/Records     pkg/storage/session.go: CreateSession, GetPeer, GetEstablishedAt; and of
--                       pkg/storage/storage.go ListSessions, FindSessionByPeer, the session names, the
--                       settings and DeleteSession; its children Sessions and Settings hold the proofs
--   Examples            the theorems at concrete values
--
-- How the code is represented. A function that mutates its receiver returns the new state. What a mutex
-- guards is one step. A (value, error) pair is `ok` or `err`, with one constructor for each error that
-- the code tells apart; wrapped texts are left out. Time and randomness are arguments. Writes to a socket
-- are the list of datagrams or effects in their order. Numbers are natural numbers, and a conversion to a
-- fixed width is written as a remainder.
--
-- Parameters. X25519, SHA-256, the AEADs, Ed25519, protobuf, the floating-point entropy and the LRU cache
-- are not part of the repository, so they are arguments, as are ML-KEM, HKDF, SHA3-512 (`PeerStore`,
-- with the expiry duration), and the remote verifier that an application gives to an `Endpoint`.
-- `Laws` (Broker/Crypto), `IsLawful` (Protocol/Serde), `IsDocumented` (Protocol/Exchange), `IsCarried`
-- (Protocol/Handshake/Agreement), `IsReadBack` (Protocol/Endpoint/Messages), `IsProtoSize` (Protocol/Padding/Size) and `IsCache` (Relay/RateLimit/Tracking)
-- say what is documented of them; `IsEngine` (Storage/Engine) is what the
-- storage asks of its cipher. Examples has an instance of each.
--
-- Bounds. Loops over lists are structural. Loops on numbers have fuel: 20 digits for a decimal number,
-- which hold 2^64; 10 rounds for a uvarint and 9 for the size of an int, seven bits each; and the 4
-- rounds that the padding loop has in the code. The loop that writes to a connection recurs on the
-- answers of the network, which may end: then the call hangs.
--
-- Clocks and stores. A call reads the clock once in the model, where the code may read it again a moment
-- later. A bucket is a list, and a loop over it goes in the order of the list, where bbolt has the order
-- of the keys: of several sessions with one peer, FindSessionByPeer may give another one.
--
-- Not modelled, since the parts above do not depend on them: the exchange channel around the handshake;
-- the deadlines that bound a handshake; opening a database, the identity in it, and the timestamps of
-- sessions for a list; the connection types of pkg/relayconn; fingerprints; and the HTTP handlers and the
-- configuration of the relay. Not modelled, since they are glue, generated or user interfaces: sockets and goroutines, protobuf code,
-- bbolt, and the applications under cmd/bus, cmd/daemon and cmd/tui.
pub mod Prelude
pub mod Broker
pub mod Relay
pub mod Protocol
pub mod Storage
pub mod Examples
