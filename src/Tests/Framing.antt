-- ===== src/Tests/Framing.antt =====
-- Concrete frames of src/hd_protocol.cc and src/protocol.cc.
use hyper_derp.Prelude.{
  ℕ, ◌<◌, ◌≤◌, ◌≡◌, ◌⊎◌, refl, Option, none, some, List, [], ◌∷◌, replicate, drop, arith,
}
use hyper_derp.Prelude.Int.{pos}
use hyper_derp.HdProtocol.{
  Frame, header_size, prefer_direct, require_relay, relayed, no_reason, policy_forbids, IsIntent,
  IsMode, IsReason, intent_code, intent_of, mode_code, mode_of, reason_code, reason_of,
}
use hyper_derp.HdProtocol.Routing.{
  HdOpenConnection, HdOpenConnectionResult, HdIncomingConnection, HdIncomingConnResponse,
  HdIncomingConnResult, HdFleetOpenConnection, build_open_connection_result,
  parse_open_connection_result, build_fleet_open_connection, parse_fleet_open_connection,
}
use hyper_derp.HdProtocol.Results.{parse-build_open_connection_result}
use hyper_derp.HdProtocol.Fleet.{parse-build_fleet_open_connection}

prefer_direct_named : IsIntent prefer_direct
unfolding intent_code intent_of
prefer_direct_named = (omega arith, refl)

require_relay_named : IsIntent require_relay
unfolding intent_code intent_of
require_relay_named = (omega arith, refl)

relayed_named : IsMode relayed
unfolding mode_code mode_of
relayed_named = (omega arith, refl)

no_reason_named : IsReason no_reason
unfolding reason_code reason_of
no_reason_named = (omega arith, refl)

abbrev request : HdOpenConnection
request = record {
  target_peer_id = 513;
  target_relay_id = 7;
  intent = prefer_direct;
  flags = 1;
  correlation_id = 99;
}

abbrev key_one : List ℕ
key_one = replicate 32 1

abbrev notice : HdIncomingConnection
notice = record {
  initiator_key = key_one;
  initiator_peer_id = 300;
  intent = require_relay;
  flags = 0;
  correlation_id = 12;
}

abbrev granted : HdOpenConnectionResult
granted = record {
  correlation_id = 99;
  mode = relayed;
  deny_reason = no_reason;
  sub_reason = 0;
  relay_path = 3 ∷ 4 ∷ [];
  endpoint_hint = 10 ∷ 0 ∷ 0 ∷ [];
}

abbrev granted_frame : Option Frame
granted_frame =
    build_open_connection_result 256 99 relayed no_reason 0 (3 ∷ 4 ∷ []) (pos 2) (10 ∷ 0 ∷ 0 ∷ [])
      (pos 3)

parse-build_open_connection_result_example :
    ((256 < 27) × (granted_frame ≡ none))
    ⊎ ((27 ≤ 256)
        × ((f : Frame) × (granted_frame ≡ some f)
            × (f.size ≡ 27)
            × (parse_open_connection_result (drop header_size f.bytes) ≡ some granted)))
parse-build_open_connection_result_example =
    parse-build_open_connection_result 256 granted (record {
      correlation_fits = omega arith;
      mode_named = relayed_named;
      reason_named = no_reason_named;
      path_fits = omega arith;
      hops_fit = (omega arith, (omega arith, tt));
      hint_fits = omega arith;
    })

abbrev fleet_request : HdFleetOpenConnection
fleet_request = record {
  origin_relay_id = 5;
  origin_fleet_id = 97 ∷ 98 ∷ [];
  target_key = key_one;
  inner_conn = replicate 14 0;
}

abbrev fleet_frame : Option Frame
fleet_frame = build_fleet_open_connection 128 5 (97 ∷ 98 ∷ []) (pos 2) key_one (replicate 14 0) 14

parse-build_fleet_open_connection_example :
    ((128 < 56) × (fleet_frame ≡ none))
    ⊎ ((56 ≤ 128)
        × ((f : Frame) × (fleet_frame ≡ some f)
            × (f.size ≡ 56)
            × (parse_fleet_open_connection (drop header_size f.bytes) ≡ some fleet_request)))
parse-build_fleet_open_connection_example =
    parse-build_fleet_open_connection 128 fleet_request (record {
      relay_fits = omega arith;
      id_fits = omega arith;
      key_fits = refl;
      inner_fits = refl;
    })

abbrev two_routes : List (ℕ × ℕ)
two_routes = (1, 1) ∷ (300, 2) ∷ []

abbrev answer : HdIncomingConnResponse
answer = record { correlation_id = 12; intent = prefer_direct; flags = 0; accept = 1 }

abbrev outcome : HdIncomingConnResult
outcome = record {
  correlation_id = 12;
  mode = relayed;
  deny_reason = policy_forbids;
  sub_reason = 2;
}
