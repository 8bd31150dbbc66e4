-- ===== src/Lib.antt =====
-- Hyper-DERP: the parts of the relay that decide, keep state and encode, as executable definitions
-- with their theorems.
--
-- The relay speaks the HD wire protocol with its peers and with other relays. A peer enrolls
-- (Peers), asks for a tunnel by an OpenConnection frame (HdProtocol), and the control plane lets
-- the resolver (Resolver) decide between a direct tunnel, a relayed one and a refusal, from the
-- policies of the fleet, the federation, the relay and the peer; the decision goes to the audit ring
-- (Audit). Frames for another relay follow the relay table (RelayTable). DERP peers and watchers stand
-- in the registry of the control plane (ControlPlane). Peers find a direct way by ICE (Ice), with STUN
-- messages (Stun) and TURN allocations (Turn). Apart from these, the relay forwards the packets of
-- WireGuard between linked peers (WgRelay). Keys are shown and read as strings (KeyFormat).
--
-- Which file models what:
-- - Wire: the big-endian integers that src/hd_protocol.cc and include/hyper_derp/hd_protocol.h write
--   and read (WriteU16, ReadU64 and the three-byte length field).
-- - HdProtocol, HdProtocol/Frames, HdProtocol/Routing: the enumerations, the frame header, and every
--   builder and parser of src/hd_protocol.cc. A builder gives the bytes that it writes and the size
--   that it returns, and `none` for -1; a parser takes the payload, and gives `none` for false.
-- - Derp: the frames of the DERP protocol, src/protocol.cc.
-- - Resolver: HdResolve and the builders of its views, src/hd_resolver.cc.
-- - Peers, Peers/Access: the registry HdPeerRegistry and the policies on enrollment and federation,
--   src/hd_peers.cc. Peers/Access/Glob says what a pattern matches, Peers/Access/Ranges what a range
--   of addresses holds.
-- - RelayTable: src/hd_relay_table.cc.
-- - KeyFormat: src/key_format.cc.
-- - Audit: the ring of src/hd_audit.cc.
-- - ControlPlane: the registry (CpRegistryLookup, CpRegistryInsert, CpRegistryRemove) and the watchers
--   (CpAddWatcher, CpRemoveWatcher) of src/control_plane.cc; ControlPlane/Handlers: the handlers of
--   DERP control frames, with the frames they send as a list.
-- - Turn: the manager of TURN allocations, src/turn.cc; the clock is an argument.
-- - Stun: the codec of src/stun.cc. StunParse walks the attributes on fuel, one round more than the
--   payload has bytes; each round takes four at least.
-- - Ice: the agent of src/ice.cc, its sessions, candidates, pairs and checks. Ice/Checking has the runs of
--   checks, answers and failures in any order as a relation.
-- - WgRelay: the roster of the WireGuard relay, src/wg_relay.cc: its peers and links, the operations
--   of the operator (WgRelayPeerAdd to WgRelayLinkRemove) and the map of endpoints that the XDP
--   program forwards by. WgRelay/Links says what a well-formed roster is;
--   WgRelay/Strikes has the strikes and the blocklist.
-- - Prelude: lists, tests, bits, and arrays of slots (Prelude/Slots), on which the tables rest.
-- - Tests: the results at concrete inputs.
--
-- State is passed explicitly: an operation takes the state and gives the new one with its result.
-- The operations run under a lock for their whole body, or on one thread, so that each is one step.
-- A pointer into an array is the index of its slot. Counters of type int are integers (Prelude/Int),
-- uint16_t ids wrap as the source wraps them, and hashes and words are written modulo their width.
-- Every loop runs over a list or over a number of rounds that the source bounds itself (kMaxRelays,
-- kHdMaxPeers, kCpMaxPeers), but for the fuel of StunParse, so every function is total.
--
-- Parameters stand for code of other libraries: sodium_memcmp, sodium_bin2hex and sodium_hex2bin of
-- libsodium, inet_aton, htonl, ntohl and getaddrinfo of the C library, its memcpy of words
-- (HostLayout), its byte order (ByteOrder) and std::sort (Sorts). What they document is a named
-- hypothesis (IsMemcmp, IsHexCoding, IsByteOrder) or a field of these records.
--
-- Not modelled: sockets, io_uring, TLS, XDP, files and threads, which are I/O; of the WireGuard
-- relay the forwarding of packets, the candidates and the roster file; HTTP; the rest of the control
-- plane, which dispatches frames, announces routes and keeps the pending OpenConnections.
pub mod Prelude
pub mod Wire
pub mod HdProtocol
pub mod Derp
pub mod Resolver
pub mod RelayTable
pub mod Peers
pub mod KeyFormat
pub mod Audit
pub mod ControlPlane
pub mod Turn
pub mod Stun
pub mod Ice
pub mod WgRelay
pub mod Tests
