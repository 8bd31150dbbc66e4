-- ===== src/HdProtocol/RoundTrip.antt =====
-- The fixed-size frames of src/hd_protocol.cc: a parser gives back what the builder was given.
use hyper_derp.Prelude.{
  ◌^◌, ◌<◌, ◌≡◌, [], ◌∷◌, ◌++◌, some, length, drop, length-append, take-append, drop-append_add,
  get_or-append, arith,
}
use hyper_derp.Wire.{write_u64, write_u16}
use hyper_derp.Wire.RoundTrip.{read-write_u16, read-write_u64}
use hyper_derp.HdProtocol.{
  header_size, IsIntent, IsMode, IsReason, write_frame_header, intent_code, mode_code, reason_code,
}
use hyper_derp.HdProtocol.Routing.{
  HdOpenConnection, build_open_connection, parse_open_connection, HdIncomingConnection,
  build_incoming_connection, parse_incoming_connection, HdIncomingConnResponse,
  build_incoming_conn_response, parse_incoming_conn_response, HdIncomingConnResult,
  build_incoming_conn_result, parse_incoming_conn_result,
}

-- The fields of a request fit their widths.
pub record IsOpenConnection (r : HdOpenConnection) : Type 0 where
  pub peer_fits : r.target_peer_id < 2 ^ 16
  pub relay_fits : r.target_relay_id < 2 ^ 16
  pub intent_named : IsIntent r.intent
  pub correlation_fits : r.correlation_id < 2 ^ 64

-- The payload of an OpenConnection frame parses to the request it was built from, when its fields
-- fit their widths.
pub parse-build_open_connection :
    (r : HdOpenConnection)
    → IsOpenConnection r
    → parse_open_connection (drop header_size (build_open_connection r).bytes) ≡ some r
unfolding parse_open_connection build_open_connection write_frame_header
parse-build_open_connection r w = ground (
  arith,
  read-write_u16 r.target_peer_id
      (write_u16 r.target_relay_id ++ (intent_code r.intent ∷ r.flags ∷ write_u64 r.correlation_id))
      w.peer_fits,
  read-write_u16 r.target_relay_id (intent_code r.intent ∷ r.flags ∷ write_u64 r.correlation_id)
      w.relay_fits,
  read-write_u64 r.correlation_id [] w.correlation_fits,
  w.intent_named.1,
)

pub record IsIncomingConnection (r : HdIncomingConnection) : Type 0 where
  pub key_fits : length r.initiator_key ≡ 32
  pub peer_fits : r.initiator_peer_id < 2 ^ 16
  pub intent_named : IsIntent r.intent
  pub correlation_fits : r.correlation_id < 2 ^ 64

-- The payload of an IncomingConnection frame parses to the notice it was built from, when its
-- fields fit their widths.
pub parse-build_incoming_connection :
    (r : HdIncomingConnection)
    → IsIncomingConnection r
    → parse_incoming_connection (drop header_size (build_incoming_connection r).bytes) ≡ some r
unfolding parse_incoming_connection build_incoming_connection write_frame_header
parse-build_incoming_connection r w =
    let key = r.initiator_key in
    let rest = intent_code r.intent ∷ r.flags ∷ write_u64 r.correlation_id in
    let body = write_u16 r.initiator_peer_id ++ rest in
    ground (
      arith,
      length-append key body,
      take-append 32 key body w.key_fits,
      drop-append_add 32 0 key body w.key_fits,
      get_or-append 32 2 key body 0 w.key_fits,
      get_or-append 32 3 key body 0 w.key_fits,
      drop-append_add 32 4 key body w.key_fits,
      read-write_u16 r.initiator_peer_id rest w.peer_fits,
      read-write_u64 r.correlation_id [] w.correlation_fits,
      w.intent_named.1,
    )

pub record IsIncomingConnResponse (r : HdIncomingConnResponse) : Type 0 where
  pub intent_named : IsIntent r.intent
  pub correlation_fits : r.correlation_id < 2 ^ 64

-- The payload of an IncomingConnResponse frame parses to the answer that it was built from.
pub parse-build_incoming_conn_response :
    (r : HdIncomingConnResponse)
    → IsIncomingConnResponse r
    → parse_incoming_conn_response (drop header_size (build_incoming_conn_response r).bytes)
      ≡ some r
unfolding parse_incoming_conn_response build_incoming_conn_response write_frame_header
parse-build_incoming_conn_response r w = ground (
  arith,
  read-write_u64 r.correlation_id (intent_code r.intent ∷ r.flags ∷ r.accept ∷ [])
      w.correlation_fits,
  w.intent_named.1,
)

pub record IsIncomingConnResult (r : HdIncomingConnResult) : Type 0 where
  pub mode_named : IsMode r.mode
  pub reason_named : IsReason r.deny_reason
  pub correlation_fits : r.correlation_id < 2 ^ 64

-- The payload of an IncomingConnResult frame parses to the result that it was built from.
pub parse-build_incoming_conn_result :
    (r : HdIncomingConnResult)
    → IsIncomingConnResult r
    → parse_incoming_conn_result (drop header_size (build_incoming_conn_result r).bytes) ≡ some r
unfolding parse_incoming_conn_result build_incoming_conn_result write_frame_header
parse-build_incoming_conn_result r w =
    let body = write_u16 (reason_code r.deny_reason) ++ (r.sub_reason ∷ []) in
    ground (
      arith,
      read-write_u64 r.correlation_id (mode_code r.mode ∷ body) w.correlation_fits,
      read-write_u16 (reason_code r.deny_reason) (r.sub_reason ∷ []) w.reason_named.0,
      w.mode_named.1,
      w.reason_named.1,
    )
