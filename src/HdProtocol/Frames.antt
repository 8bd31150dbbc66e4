-- ===== src/HdProtocol/Frames.antt =====
-- The builders of the transport, enrollment and peer frames, and the route announcement, of
-- src/hd_protocol.cc. A `memcpy` of `n` bytes from a pointer is `take n`; a key is its 32 bytes.
use hyper_derp.Prelude.{
  ℕ, zero, suc, ◌+◌, ◌*◌, ◌/◌, List, [], ◌∷◌, ◌++◌, Option, none, some, length, take, drop, get_or,
  if◌then◌else◌, ltb,
}
use hyper_derp.Wire.{write_u16, read_u16}
use hyper_derp.HdProtocol.{
  Frame, write_frame_header, header_size, ping_data_size, mesh_dst_size, fleet_dst_size,
  route_entry_size, key_size, redirect_max_url, checked_len, data_frame, ping, pong, mesh_data,
  fleet_data, enroll, approved, HdFrameType, peer_info, peer_gone, redirect, route_announce,
}
use hyper_derp.Prelude.Int.{ℤ}

unfoldable pub build_data_header : ℕ → Frame
build_data_header payload_len = record {
  bytes = write_frame_header data_frame payload_len;
  size = header_size;
}

unfoldable pub build_ping : List ℕ → Frame
build_ping d = record {
  bytes = write_frame_header ping ping_data_size ++ take ping_data_size d;
  size = header_size + ping_data_size;
}

unfoldable pub build_pong : List ℕ → Frame
build_pong d = record {
  bytes = write_frame_header pong ping_data_size ++ take ping_data_size d;
  size = header_size + ping_data_size;
}

unfoldable pub build_enroll : List ℕ → List ℕ → ℕ → Frame
build_enroll client_key hmac hmac_len = record {
  bytes = write_frame_header enroll (key_size + hmac_len) ++ (client_key ++ take hmac_len hmac);
  size = header_size + (key_size + hmac_len);
}

unfoldable pub build_approved : List ℕ → Frame
build_approved client_key = record {
  bytes = write_frame_header approved key_size ++ client_key;
  size = header_size + key_size;
}

unfoldable pub build_denied : ℕ → List ℕ → ℕ → Frame
build_denied reason msg msg_len = record {
  bytes = write_frame_header HdFrameType.denied (1 + msg_len) ++ (reason ∷ take msg_len msg);
  size = header_size + (1 + msg_len);
}

unfoldable pub build_peer_gone : List ℕ → ℕ → Frame
build_peer_gone peer_key reason = record {
  bytes = write_frame_header peer_gone (key_size + 1) ++ (peer_key ++ (reason ∷ []));
  size = header_size + (key_size + 1);
}

unfoldable pub build_peer_info : List ℕ → List ℕ → ℕ → Frame
build_peer_info peer_key candidates candidate_len = record {
  bytes =
      write_frame_header peer_info (key_size + candidate_len)
      ++ (peer_key ++ (if ltb 0 candidate_len then take candidate_len candidates else []));
  size = header_size + (key_size + candidate_len);
}

unfoldable pub build_mesh_data_header : ℕ → ℕ → Frame
build_mesh_data_header dst_peer_id payload_len = record {
  bytes = write_frame_header mesh_data (mesh_dst_size + payload_len) ++ write_u16 dst_peer_id;
  size = header_size + mesh_dst_size;
}

-- HdReadMeshDst.
unfoldable pub read_mesh_dst : List ℕ → ℕ
read_mesh_dst payload = read_u16 payload

unfoldable pub build_fleet_data_header : ℕ → ℕ → ℕ → Frame
build_fleet_data_header dst_relay_id dst_peer_id payload_len = record {
  bytes =
      write_frame_header fleet_data (fleet_dst_size + payload_len)
      ++ (write_u16 dst_relay_id ++ write_u16 dst_peer_id);
  size = header_size + fleet_dst_size;
}

-- HdReadFleetRelay and HdReadFleetPeer.
unfoldable pub read_fleet_relay : List ℕ → ℕ
read_fleet_relay payload = read_u16 payload

unfoldable pub read_fleet_peer : List ℕ → ℕ
read_fleet_peer payload = read_u16 (drop 2 payload)

-- `relay_ids[i]` and `hops[i]` for i below the count.
unfoldable pub write_routes : List (ℕ × ℕ) → List ℕ
write_routes [] = []
write_routes ((relay_id, hops) ∷ rest) = write_u16 relay_id ++ (hops ∷ write_routes rest)

-- The arrays of identifiers and hop counts, `count` long, are one list of pairs; `none` is -1.
unfoldable pub build_route_announce : ℕ → List (ℕ × ℕ) → Option Frame
build_route_announce buf_size routes =
    let payload_len = length routes * route_entry_size in
    let total = header_size + payload_len in
    if ltb buf_size total
    then none
    else some (record {
      bytes = write_frame_header route_announce payload_len ++ write_routes routes;
      size = total;
    })

-- The loop over `entry_count` entries, `p += 3` each round.
unfoldable pub read_routes : ℕ → List ℕ → List (ℕ × ℕ)
read_routes zero p = []
read_routes (suc n) p = (read_u16 p, get_or p 2 0) ∷ read_routes n (drop route_entry_size p)

unfoldable pub parse_route_announce : List ℕ → ℕ → List (ℕ × ℕ)
parse_route_announce payload max_out =
    let entry_count = length payload / route_entry_size in
    read_routes (if ltb max_out entry_count then max_out else entry_count) payload

-- HdBuildRedirect and HdParseRedirect; a reason is its wire byte, `none` is -1.
unfoldable pub build_redirect : ℕ → List ℕ → ℤ → Option Frame
build_redirect reason target_url url_len = elim (checked_len url_len redirect_max_url) [
  | none ↦ none
  | some n ↦ some (record {
    bytes =
        write_frame_header redirect (1 + n)
        ++ (reason ∷ (if ltb 0 n then take n target_url else []));
    size = header_size + (1 + n);
  })
]

-- The reason and the text copied out, of `url_len` bytes.
unfoldable pub parse_redirect : List ℕ → ℕ → Option (ℕ × List ℕ)
parse_redirect [] out_url_size = none
parse_redirect (reason ∷ url) out_url_size =
    let url_len = length url in
    if ltb redirect_max_url url_len
    then none
    else if ltb out_url_size (url_len + 1)
    then none
    else some (reason, take url_len url)

-- kHdRelayMagic.
abbrev pub relay_magic : List ℕ
relay_magic = b'R' ∷ b'E' ∷ b'L' ∷ b'A' ∷ b'Y' ∷ []

abbrev pub relay_ext_size : ℕ
relay_ext_size = 7

unfoldable pub build_relay_enroll : List ℕ → List ℕ → ℕ → ℕ → Frame
build_relay_enroll client_key hmac hmac_len relay_id = record {
  bytes =
      write_frame_header enroll (key_size + hmac_len + relay_ext_size)
      ++ (client_key ++ (take hmac_len hmac ++ (write_u16 relay_id ++ relay_magic)));
  size = header_size + (key_size + hmac_len + relay_ext_size);
}
