-- ===== src/HdProtocol/Layout.antt =====
-- What every frame of src/hd_protocol.cc looks like on the wire: its type byte, and a length field
-- that covers exactly the bytes behind the header.
use hyper_derp.Prelude.{
  ℕ, ◌+◌, ◌^◌, ◌≤◌, ◌<◌, ◌≡◌, refl, List, [], ◌∷◌, ◌++◌, length, take, length-append, length-take,
  arith, ap,
}
use hyper_derp.Wire.{write_u16}
use hyper_derp.Wire.RoundTrip.{read-write_u24}
use hyper_derp.HdProtocol.{
  Frame, HdFrameType, type_code, write_frame_header, read_frame_type, read_payload_len, header_size,
  ping_data_size, fleet_dst_size, key_size, data_frame, ping, pong, mesh_data, fleet_data, enroll,
  approved, peer_info, peer_gone, open_connection, incoming_connection, incoming_conn_response,
  incoming_conn_result,
}
use hyper_derp.HdProtocol.Frames.{
  build_data_header, build_ping, build_pong, build_enroll, build_approved, build_denied,
  build_peer_gone, build_peer_info, build_mesh_data_header, build_fleet_data_header,
  build_relay_enroll, relay_magic,
}
use hyper_derp.HdProtocol.Routing.{
  HdOpenConnection, build_open_connection, HdIncomingConnection, build_incoming_connection,
  HdIncomingConnResponse, build_incoming_conn_response, HdIncomingConnResult,
  build_incoming_conn_result,
}

-- `f` starts with a header that names `t` and counts the bytes behind it, and `size` is the whole.
pub record IsFrame (t : HdFrameType) (f : Frame) : Type 0 where
  pub names : read_frame_type f.bytes ≡ type_code t
  pub counts : header_size + read_payload_len f.bytes ≡ f.size
  pub covers : length f.bytes ≡ f.size

-- A header with the length of the body that follows it.
pub header-IsFrame :
    (t : HdFrameType) (n : ℕ) (body : List ℕ)
    → length body ≡ n
    → n < 2 ^ 24
    → IsFrame t (record { bytes = write_frame_header t n ++ body; size = header_size + n })
unfolding write_frame_header read_frame_type read_payload_len
header-IsFrame t n body len fits = record {
  names = refl;
  counts = ap (λ k. header_size + k) (read-write_u24 n body fits);
  covers = omega arith;
}

-- A frame whose builder writes the header and leaves the payload to the caller.
abbrev followed_by : Frame → List ℕ → Frame
followed_by f payload = record { bytes = f.bytes ++ payload; size = f.size + length payload }

abbrev pub IsKey : List ℕ → Type 0
IsKey k = length k ≡ key_size

-- The keepalive frames, at any eight bytes of data.
pub ping_frames-IsFrame :
    (d : List ℕ)
    → ping_data_size ≤ length d
    → IsFrame ping (build_ping d) × IsFrame pong (build_pong d)
unfolding build_ping build_pong
ping_frames-IsFrame d h =
    let n : length (take ping_data_size d) ≡ ping_data_size =
      omega (arith, length-take ping_data_size d) in
    (header-IsFrame ping 8 _ n (omega arith), header-IsFrame pong 8 _ n (omega arith))

-- The data frames, once the caller has put the payload behind the header.
pub data_frames-IsFrame :
    (relay peer : ℕ) (payload : List ℕ)
    → length payload + fleet_dst_size < 2 ^ 24
    → let n = length payload in
      IsFrame data_frame (followed_by (build_data_header n) payload)
      × IsFrame mesh_data (followed_by (build_mesh_data_header peer n) payload)
      × IsFrame fleet_data (followed_by (build_fleet_data_header relay peer n) payload)
unfolding build_data_header build_mesh_data_header build_fleet_data_header write_frame_header
data_frames-IsFrame relay peer payload h =
    let n = length payload in
    (
      unfold write_frame_header in header-IsFrame data_frame n payload refl (omega arith),
      record {
        names =
            (header-IsFrame mesh_data (2 + n) (write_u16 peer ++ payload) (omega arith)
              (omega arith)).names;
        counts = omega (
          arith,
          (header-IsFrame mesh_data (2 + n) (write_u16 peer ++ payload) (omega arith)
              (omega arith)).counts,
        );
        covers = omega arith;
      },
      record {
        names =
            (header-IsFrame fleet_data (4 + n) (write_u16 relay ++ (write_u16 peer ++ payload))
              (omega arith) (omega arith)).names;
        counts = omega (
          arith,
          (header-IsFrame fleet_data (4 + n) (write_u16 relay ++ (write_u16 peer ++ payload))
              (omega arith) (omega arith)).counts,
        );
        covers = omega arith;
      },
    )

-- The enrollment and peer frames start with a header that names their type and counts exactly the
-- bytes behind it, for keys of 32 bytes and lengths below 2^16.
pub enroll_frames-IsFrame :
    (key hmac msg : List ℕ) (hmac_len msg_len reason relay : ℕ)
    → IsKey key
    → hmac_len ≤ length hmac
    → msg_len ≤ length msg
    → hmac_len < 2 ^ 16
    → msg_len < 2 ^ 16
    → IsFrame enroll (build_enroll key hmac hmac_len)
      × IsFrame enroll (build_relay_enroll key hmac hmac_len relay)
      × IsFrame approved (build_approved key)
      × IsFrame HdFrameType.denied (build_denied reason msg msg_len)
      × IsFrame peer_gone (build_peer_gone key reason)
      × IsFrame peer_info (build_peer_info key msg msg_len)
unfolding build_enroll build_relay_enroll build_approved build_denied build_peer_gone
    build_peer_info
enroll_frames-IsFrame key hmac msg hmac_len msg_len reason relay k h m hl ml =
    let th : length (take hmac_len hmac) ≡ hmac_len = omega (arith, length-take hmac_len hmac) in
    let tm : length (take msg_len msg) ≡ msg_len = omega (arith, length-take msg_len msg) in
    (
      header-IsFrame enroll _ _ (rw (length-append key (take hmac_len hmac)) (omega arith))
          (omega arith),
      header-IsFrame enroll _ _
          (rw
            (
              length-append key (take hmac_len hmac ++ (write_u16 relay ++ relay_magic)),
              length-append (take hmac_len hmac) (write_u16 relay ++ relay_magic),
            )
            (omega arith))
          (omega arith),
      header-IsFrame approved _ _ k (omega arith),
      header-IsFrame HdFrameType.denied _ _ (omega arith) (omega arith),
      header-IsFrame peer_gone _ _ (rw (length-append key (reason ∷ [])) (omega arith))
          (omega arith),
      header-IsFrame peer_info _ _
          (ground (arith, length-append key (take msg_len msg), length-append key ([])))
          (omega arith),
    )

-- The routing frames of fixed size start with a header that names their type and counts exactly
-- the bytes behind it, whatever they hold, the notice for an initiator key of 32 bytes.
pub routing_frames-IsFrame :
    (r : HdOpenConnection) (c : HdIncomingConnection) (a : HdIncomingConnResponse)
    (s : HdIncomingConnResult)
    → IsKey c.initiator_key
    → IsFrame open_connection (build_open_connection r)
      × IsFrame incoming_connection (build_incoming_connection c)
      × IsFrame incoming_conn_response (build_incoming_conn_response a)
      × IsFrame incoming_conn_result (build_incoming_conn_result s)
unfolding build_open_connection build_incoming_connection build_incoming_conn_response
    build_incoming_conn_result
routing_frames-IsFrame r c a s k = (
  header-IsFrame open_connection 14 _ refl (omega arith),
  header-IsFrame incoming_connection 44 _ (rw (length-append c.initiator_key _) (omega arith))
      (omega arith),
  header-IsFrame incoming_conn_response 11 _ refl (omega arith),
  header-IsFrame incoming_conn_result 12 _ refl (omega arith),
)
