-- ===== src/HdProtocol.antt =====
-- The HD wire protocol: include/hyper_derp/hd_protocol.h and src/hd_protocol.cc. This file has the
-- enumerations with their wire codes and the frame header; `Frames` has the transport frames,
-- `Routing` the routing-policy frames, and the other children the theorems.
pub mod Frames
pub mod Routing
pub mod Layout
pub mod RoundTrip
pub mod Envelopes
pub mod Results
pub mod Fleet
use hyper_derp.Prelude.{
  ℕ, ◌*◌, ◌<◌, ◌≡◌, Bool, List, ◌∷◌, Option, none, some, get_or, drop, if◌then◌else◌, ◌==◌, leb,
}
use hyper_derp.Prelude.Int.{ℤ, pos, negsuc}
use hyper_derp.Wire.{write_u24, read_u24}

-- kHdFrameHeaderSize, kHdMaxFramePayload, kHdPingDataSize and the other sizes.
abbrev pub header_size : ℕ
header_size = 4

abbrev pub max_frame_payload : ℕ
max_frame_payload = 64 * 1024

abbrev pub ping_data_size : ℕ
ping_data_size = 8

abbrev pub mesh_dst_size : ℕ
mesh_dst_size = 2

abbrev pub fleet_dst_size : ℕ
fleet_dst_size = 4

abbrev pub route_entry_size : ℕ
route_entry_size = 3

abbrev pub redirect_max_url : ℕ
redirect_max_url = 256

abbrev pub key_size : ℕ
key_size = 32

pub data HdFrameType : Type 0 where
  data_frame ping pong mesh_data fleet_data : HdFrameType
  enroll approved denied : HdFrameType
  peer_info peer_gone redirect : HdFrameType
  open_connection open_connection_result : HdFrameType
  incoming_connection incoming_conn_response incoming_conn_result : HdFrameType
  fleet_open_connection fleet_open_connection_result : HdFrameType
  route_announce : HdFrameType

unfoldable pub type_code : HdFrameType → ℕ
type_code data_frame = 0x01
type_code ping = 0x02
type_code pong = 0x03
type_code mesh_data = 0x04
type_code fleet_data = 0x05
type_code enroll = 0x10
type_code approved = 0x11
type_code denied = 0x12
type_code peer_info = 0x20
type_code peer_gone = 0x21
type_code redirect = 0x22
type_code open_connection = 0x23
type_code open_connection_result = 0x24
type_code incoming_connection = 0x25
type_code incoming_conn_response = 0x26
type_code incoming_conn_result = 0x27
type_code fleet_open_connection = 0x28
type_code fleet_open_connection_result = 0x29
type_code route_announce = 0x30

-- A cast from a wire byte makes any value of the underlying type: `other` holds those without a
-- name.
pub data HdIntent : Type 0 where
  prefer_direct require_direct prefer_relay require_relay : HdIntent
  other : ℕ → HdIntent

unfoldable pub intent_code : HdIntent → ℕ
intent_code prefer_direct = 0
intent_code require_direct = 1
intent_code prefer_relay = 2
intent_code require_relay = 3
intent_code (HdIntent.other n) = n

unfoldable pub intent_of : ℕ → HdIntent
intent_of b =
    if b == 0
    then prefer_direct
    else if b == 1
    then require_direct
    else if b == 2
    then prefer_relay
    else if b == 3
    then require_relay
    else HdIntent.other b

pub data HdConnMode : Type 0 where
  denied direct relayed : HdConnMode
  other : ℕ → HdConnMode

unfoldable pub mode_code : HdConnMode → ℕ
mode_code HdConnMode.denied = 0
mode_code direct = 1
mode_code relayed = 2
mode_code (HdConnMode.other n) = n

unfoldable pub mode_of : ℕ → HdConnMode
mode_of b =
    if b == 0
    then HdConnMode.denied
    else if b == 1
    then direct
    else if b == 2
    then relayed
    else HdConnMode.other b

pub data HdDenyReason : Type 0 where
  no_reason policy_forbids pair_forbids peer_unreachable target_unresponsive : HdDenyReason
  too_many_open_conns fleet_routing_not_implemented : HdDenyReason
  intent_conflict peer_override direct_cap_exceeded : HdDenyReason
  region_policy_violation federation_denied nat_incompatible : HdDenyReason
  other : ℕ → HdDenyReason

unfoldable pub reason_code : HdDenyReason → ℕ
reason_code no_reason = 0x0000
reason_code policy_forbids = 0x0001
reason_code pair_forbids = 0x0002
reason_code peer_unreachable = 0x0003
reason_code target_unresponsive = 0x0004
reason_code too_many_open_conns = 0x0005
reason_code fleet_routing_not_implemented = 0x0006
reason_code intent_conflict = 0x0101
reason_code peer_override = 0x0102
reason_code direct_cap_exceeded = 0x0201
reason_code region_policy_violation = 0x0301
reason_code federation_denied = 0x0401
reason_code nat_incompatible = 0x0501
reason_code (HdDenyReason.other n) = n

unfoldable pub reason_of : ℕ → HdDenyReason
reason_of c =
    if c == 0x0000
    then no_reason
    else if c == 0x0001
    then policy_forbids
    else if c == 0x0002
    then pair_forbids
    else if c == 0x0003
    then peer_unreachable
    else if c == 0x0004
    then target_unresponsive
    else if c == 0x0005
    then too_many_open_conns
    else if c == 0x0006
    then fleet_routing_not_implemented
    else if c == 0x0101
    then intent_conflict
    else if c == 0x0102
    then peer_override
    else if c == 0x0201
    then direct_cap_exceeded
    else if c == 0x0301
    then region_policy_violation
    else if c == 0x0401
    then federation_denied
    else if c == 0x0501
    then nat_incompatible
    else HdDenyReason.other c

-- The values that a cast from the wire can give: the code fits its width, and names the value.
abbrev pub IsIntent : HdIntent → Type 0
IsIntent i = (intent_code i < 256) × (intent_of (intent_code i) ≡ i)

abbrev pub IsMode : HdConnMode → Type 0
IsMode m = (mode_code m < 256) × (mode_of (mode_code m) ≡ m)

abbrev pub IsReason : HdDenyReason → Type 0
IsReason r = (reason_code r < 65536) × (reason_of (reason_code r) ≡ r)

-- A builder fills a buffer from its start: the bytes it writes, and the size it returns.
pub record Frame : Type 0 where
  pub bytes : List ℕ
  pub size : ℕ

-- HdWriteFrameHeader, HdReadFrameType, HdReadPayloadLen, HdIsValidPayloadLen.
unfoldable pub write_frame_header : HdFrameType → ℕ → List ℕ
write_frame_header t payload_len = type_code t ∷ write_u24 payload_len

unfoldable pub read_frame_type : List ℕ → ℕ
read_frame_type hdr = get_or hdr 0 0

unfoldable pub read_payload_len : List ℕ → ℕ
read_payload_len hdr = read_u24 (drop 1 hdr)

unfoldable pub is_valid_payload_len : ℕ → Bool
is_valid_payload_len len = leb len max_frame_payload

-- `if (len < 0 || len > max) return -1;` before a length is used as a count.
unfoldable pub checked_len : ℤ → ℕ → Option ℕ
checked_len (pos n) max = if leb n max then some n else none
checked_len (negsuc n) max = none
