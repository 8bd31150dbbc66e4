-- ===== src/HdProtocol/Routing.antt =====
-- The routing-policy frames of src/hd_protocol.cc: builders, and parsers of their payloads.
use hyper_derp.Prelude.{
  ℕ, zero, suc, ◌+◌, ◌*◌, List, [], ◌∷◌, ◌++◌, Option, none, some, length, take, drop, get_or, set,
  if◌then◌else◌, ltb, ◌==◌, not,
}
use hyper_derp.Prelude.Int.{ℤ}
use hyper_derp.Wire.{write_u16, read_u16, write_u64, read_u64}
use hyper_derp.HdProtocol.{
  Frame, write_frame_header, header_size, key_size, checked_len, type_code, HdIntent, HdConnMode,
  HdDenyReason, intent_code, intent_of, mode_code, mode_of, reason_code, reason_of, open_connection,
  open_connection_result, incoming_connection, incoming_conn_response, incoming_conn_result,
  fleet_open_connection, fleet_open_connection_result,
}

-- kHdOpenConnSize and its neighbours.
abbrev pub open_conn_size : ℕ
open_conn_size = 14

abbrev pub incoming_conn_size : ℕ
incoming_conn_size = 44

abbrev pub incoming_resp_size : ℕ
incoming_resp_size = 11

abbrev pub incoming_result_size : ℕ
incoming_result_size = 12

abbrev pub open_result_min_size : ℕ
open_result_min_size = 16

abbrev pub max_relay_path : ℕ
max_relay_path = 32

abbrev pub max_endpoint_hint : ℕ
max_endpoint_hint = 128

abbrev pub max_fleet_id_len : ℕ
max_fleet_id_len = 64

pub record HdOpenConnection : Type 0 where
  pub target_peer_id : ℕ
  pub target_relay_id : ℕ
  pub intent : HdIntent
  pub flags : ℕ
  pub correlation_id : ℕ

unfoldable pub build_open_connection : HdOpenConnection → Frame
build_open_connection r = record {
  bytes =
      write_frame_header open_connection open_conn_size
      ++ (write_u16 r.target_peer_id
          ++ (write_u16 r.target_relay_id
              ++ (intent_code r.intent ∷ r.flags ∷ write_u64 r.correlation_id)));
  size = header_size + open_conn_size;
}

unfoldable pub parse_open_connection : List ℕ → Option HdOpenConnection
parse_open_connection p =
    if not (length p == open_conn_size)
    then none
    else some (record {
      target_peer_id = read_u16 p;
      target_relay_id = read_u16 (drop 2 p);
      intent = intent_of (get_or p 4 0);
      flags = get_or p 5 0;
      correlation_id = read_u64 (drop 6 p);
    })

-- `relay_path` and `endpoint_hint` hold the first `relay_path_len` and `endpoint_hint_len` cells.
pub record HdOpenConnectionResult : Type 0 where
  pub correlation_id : ℕ
  pub mode : HdConnMode
  pub deny_reason : HdDenyReason
  pub sub_reason : ℕ
  pub relay_path : List ℕ
  pub endpoint_hint : List ℕ

-- `for (i = 0; i < relay_path_len; i++) { WriteU16(q, relay_path[i]); q += 2; }`
unfoldable pub write_path : List ℕ → List ℕ
write_path [] = []
write_path (r ∷ rs) = write_u16 r ++ write_path rs

result_frame : ℕ → ℕ → HdConnMode → HdDenyReason → ℕ → List ℕ → ℕ → List ℕ → ℕ → Option Frame
result_frame buf_size correlation_id mode deny_reason sub_reason path path_len hint hint_len =
    let payload_len = open_result_min_size + path_len * 2 + hint_len in
    let total = header_size + payload_len in
    if ltb buf_size total
    then none
    else some (record {
      bytes =
          write_frame_header open_connection_result payload_len
          ++ (write_u64 correlation_id
              ++ (mode_code mode
                  ∷ (write_u16 (reason_code deny_reason)
                      ++ (sub_reason
                          ∷ (write_u16 path_len
                              ++ (write_path (take path_len path)
                                  ++ (write_u16 hint_len
                                      ++ (if ltb 0 hint_len then take hint_len hint else []))))))));
      size = total;
    })

-- HdBuildOpenConnectionResult; `none` is -1.
unfoldable pub build_open_connection_result :
    ℕ → ℕ → HdConnMode → HdDenyReason → ℕ → List ℕ → ℤ → List ℕ → ℤ → Option Frame
unfolding result_frame
build_open_connection_result buf_size correlation_id mode deny_reason sub_reason path path_len hint
      hint_len =
    elim (checked_len path_len max_relay_path) [
      | none ↦ none
      | some m ↦ elim (checked_len hint_len max_endpoint_hint) [
        | none ↦ none
        | some n ↦ result_frame buf_size correlation_id mode deny_reason sub_reason path m hint n
      ]
    ]

-- `out->relay_path[i] = ReadU16(payload + 14 + i * 2)` for `n` entries.
unfoldable pub read_path : ℕ → List ℕ → List ℕ
read_path zero p = []
read_path (suc n) p = read_u16 p ∷ read_path n (drop 2 p)

-- HdParseOpenConnectionResult behind its first length test.
parse_result_tail : List ℕ → Option HdOpenConnectionResult
parse_result_tail p =
    let path_len = read_u16 (drop 12 p) in
    let fixed = open_result_min_size + path_len * 2 in
    let hint_off = drop (14 + path_len * 2) p in
    let hint_len = read_u16 hint_off in
    if ltb max_relay_path path_len
    then none
    else if ltb (length p) fixed
    then none
    else if ltb max_endpoint_hint hint_len
    then none
    else if not (length p == fixed + hint_len)
    then none
    else some (record {
      correlation_id = read_u64 p;
      mode = mode_of (get_or p 8 0);
      deny_reason = reason_of (read_u16 (drop 9 p));
      sub_reason = get_or p 11 0;
      relay_path = read_path path_len (drop 14 p);
      endpoint_hint = if ltb 0 hint_len then take hint_len (drop 2 hint_off) else [];
    })

unfoldable pub parse_open_connection_result : List ℕ → Option HdOpenConnectionResult
unfolding parse_result_tail
parse_open_connection_result p =
    if ltb (length p) open_result_min_size then none else parse_result_tail p

pub record HdIncomingConnection : Type 0 where
  pub initiator_key : List ℕ
  pub initiator_peer_id : ℕ
  pub intent : HdIntent
  pub flags : ℕ
  pub correlation_id : ℕ

unfoldable pub build_incoming_connection : HdIncomingConnection → Frame
build_incoming_connection r = record {
  bytes =
      write_frame_header incoming_connection incoming_conn_size
      ++ (r.initiator_key
          ++ (write_u16 r.initiator_peer_id
              ++ (intent_code r.intent ∷ r.flags ∷ write_u64 r.correlation_id)));
  size = header_size + incoming_conn_size;
}

unfoldable pub parse_incoming_connection : List ℕ → Option HdIncomingConnection
parse_incoming_connection p =
    if not (length p == incoming_conn_size)
    then none
    else some (record {
      initiator_key = take key_size p;
      initiator_peer_id = read_u16 (drop 32 p);
      intent = intent_of (get_or p 34 0);
      flags = get_or p 35 0;
      correlation_id = read_u64 (drop 36 p);
    })

pub record HdIncomingConnResponse : Type 0 where
  pub correlation_id : ℕ
  pub intent : HdIntent
  pub flags : ℕ
  pub accept : ℕ

unfoldable pub build_incoming_conn_response : HdIncomingConnResponse → Frame
build_incoming_conn_response r = record {
  bytes =
      write_frame_header incoming_conn_response incoming_resp_size
      ++ (write_u64 r.correlation_id ++ (intent_code r.intent ∷ r.flags ∷ r.accept ∷ []));
  size = header_size + incoming_resp_size;
}

unfoldable pub parse_incoming_conn_response : List ℕ → Option HdIncomingConnResponse
parse_incoming_conn_response p =
    if not (length p == incoming_resp_size)
    then none
    else some (record {
      correlation_id = read_u64 p;
      intent = intent_of (get_or p 8 0);
      flags = get_or p 9 0;
      accept = get_or p 10 0;
    })

pub record HdIncomingConnResult : Type 0 where
  pub correlation_id : ℕ
  pub mode : HdConnMode
  pub deny_reason : HdDenyReason
  pub sub_reason : ℕ

unfoldable pub build_incoming_conn_result : HdIncomingConnResult → Frame
build_incoming_conn_result r = record {
  bytes =
      write_frame_header incoming_conn_result incoming_result_size
      ++ (write_u64 r.correlation_id
          ++ (mode_code r.mode ∷ (write_u16 (reason_code r.deny_reason) ++ (r.sub_reason ∷ []))));
  size = header_size + incoming_result_size;
}

unfoldable pub parse_incoming_conn_result : List ℕ → Option HdIncomingConnResult
parse_incoming_conn_result p =
    if not (length p == incoming_result_size)
    then none
    else some (record {
      correlation_id = read_u64 p;
      mode = mode_of (get_or p 8 0);
      deny_reason = reason_of (read_u16 (drop 9 p));
      sub_reason = get_or p 11 0;
    })

pub record HdFleetOpenConnection : Type 0 where
  pub origin_relay_id : ℕ
  pub origin_fleet_id : List ℕ
  pub target_key : List ℕ
  pub inner_conn : List ℕ

-- HdBuildFleetOpenConnection; `inner_conn` is copied whole, its length tested first.
unfoldable pub build_fleet_open_connection : ℕ → ℕ → List ℕ → ℤ → List ℕ → List ℕ → ℕ → Option Frame
build_fleet_open_connection buf_size origin_relay_id fleet_id fleet_id_len target_key inner_conn
      inner_conn_len =
    elim (checked_len fleet_id_len max_fleet_id_len) [
      | none ↦ none
      | some n ↦
          let payload_len = 2 + 2 + n + key_size + open_conn_size in
          let total = header_size + payload_len in
          if not (inner_conn_len == open_conn_size)
          then none
          else if ltb buf_size total
          then none
          else some (record {
            bytes =
                write_frame_header fleet_open_connection payload_len
                ++ (write_u16 origin_relay_id
                    ++ (write_u16 n
                        ++ ((if ltb 0 n then take n fleet_id else [])
                            ++ (target_key ++ take inner_conn_len inner_conn))));
            size = total;
          })
    ]

unfoldable pub parse_fleet_open_connection : List ℕ → Option HdFleetOpenConnection
parse_fleet_open_connection p =
    let fid_len = read_u16 (drop 2 p) in
    let need = 2 + 2 + fid_len + key_size + open_conn_size in
    if ltb (length p) (2 + 2 + key_size + open_conn_size)
    then none
    else if ltb max_fleet_id_len fid_len
    then none
    else if not (length p == need)
    then none
    else some (record {
      origin_relay_id = read_u16 p;
      origin_fleet_id = if ltb 0 fid_len then take fid_len (drop 4 p) else [];
      target_key = take key_size (drop (4 + fid_len) p);
      inner_conn = take open_conn_size (drop (4 + fid_len + key_size) p);
    })

-- HdBuildFleetOpenConnectionResult: the same layout with the type byte written over.
unfoldable pub build_fleet_open_connection_result :
    ℕ → ℕ → HdConnMode → HdDenyReason → ℕ → List ℕ → ℤ → List ℕ → ℤ → Option Frame
build_fleet_open_connection_result buf_size correlation_id mode deny_reason sub_reason path path_len
      hint hint_len =
    elim (build_open_connection_result buf_size correlation_id mode deny_reason sub_reason path
      path_len hint hint_len) [
        | none ↦ none
        | some f ↦
            some (record f { bytes = set f.bytes 0 (type_code fleet_open_connection_result) })
      ]
