-- ===== src/Derp.antt =====
-- The DERP frames, src/protocol.cc and include/hyper_derp/protocol.h. A builder gives the bytes that
-- it writes and the size that it returns; a `memcpy` of `n` bytes from a pointer is `take n`.
use hyper_derp.Prelude.{ℕ, ◌+◌, ◌-◌, Bool, List, [], ◌∷◌, ◌++◌, length, take, drop, get_or, leb}
use hyper_derp.Wire.{write_u32, read_u32}
use hyper_derp.HdProtocol.{Frame}
pub mod Layout

abbrev pub key_size : ℕ
key_size = 32

abbrev pub frame_header_size : ℕ
frame_header_size = 5

abbrev pub max_frame_payload : ℕ
max_frame_payload = 65536

abbrev pub ping_data_size : ℕ
ping_data_size = 8

pub data FrameType : Type 0 where
  server_key : FrameType
  client_info : FrameType
  server_info : FrameType
  send_packet : FrameType
  recv_packet : FrameType
  keep_alive : FrameType
  note_preferred : FrameType
  gone : FrameType
  present : FrameType
  forward_packet : FrameType
  watch_conns : FrameType
  close_peer : FrameType
  ping_frame : FrameType
  pong_frame : FrameType
  health : FrameType
  restarting : FrameType

unfoldable pub type_code : FrameType → ℕ
type_code server_key = 0x01
type_code client_info = 0x02
type_code server_info = 0x03
type_code send_packet = 0x04
type_code recv_packet = 0x05
type_code keep_alive = 0x06
type_code note_preferred = 0x07
type_code gone = 0x08
type_code present = 0x09
type_code forward_packet = 0x0a
type_code watch_conns = 0x10
type_code close_peer = 0x11
type_code ping_frame = 0x12
type_code pong_frame = 0x13
type_code health = 0x14
type_code restarting = 0x15

pub data PeerGoneReason : Type 0 where
  disconnected : PeerGoneReason
  not_here : PeerGoneReason

unfoldable pub gone_code : PeerGoneReason → ℕ
gone_code disconnected = 0x00
gone_code not_here = 0x01

-- WriteFrameHeader, ReadFrameType, ReadPayloadLen, IsValidPayloadLen.
unfoldable pub write_header : FrameType → ℕ → List ℕ
unfolding type_code
write_header t payload_len = type_code t ∷ write_u32 payload_len

unfoldable pub read_type : List ℕ → ℕ
read_type hdr = get_or hdr 0 0

unfoldable pub read_len : List ℕ → ℕ
read_len hdr = read_u32 (drop 1 hdr)

unfoldable pub is_valid_len : ℕ → Bool
is_valid_len len = leb len max_frame_payload

-- SendPacketDstKey, the 32 bytes at its pointer, and SendPacketData.
unfoldable pub send_packet_dst_key : List ℕ → List ℕ
send_packet_dst_key payload = take key_size payload

unfoldable pub send_packet_data : List ℕ → List ℕ
send_packet_data payload = drop key_size payload

unfoldable pub build_recv_packet : List ℕ → List ℕ → ℕ → Frame
unfolding write_header
build_recv_packet src_key data_bytes data_len = record {
  bytes = write_header recv_packet (key_size + data_len) ++ (src_key ++ take data_len data_bytes);
  size = frame_header_size + (key_size + data_len);
}

unfoldable pub build_gone : List ℕ → PeerGoneReason → Frame
unfolding write_header gone_code
build_gone peer_key why = record {
  bytes = write_header gone (key_size + 1) ++ (peer_key ++ (gone_code why ∷ []));
  size = frame_header_size + (key_size + 1);
}

unfoldable pub build_present : List ℕ → Frame
unfolding write_header
build_present peer_key = record {
  bytes = write_header present key_size ++ peer_key;
  size = frame_header_size + key_size;
}

unfoldable pub build_keep_alive : Frame
unfolding write_header
build_keep_alive = record { bytes = write_header keep_alive 0; size = frame_header_size }

unfoldable pub build_pong_frame : List ℕ → Frame
unfolding write_header
build_pong_frame ping_data = record {
  bytes = write_header pong_frame ping_data_size ++ take ping_data_size ping_data;
  size = frame_header_size + ping_data_size;
}

unfoldable pub build_health : List ℕ → ℕ → Frame
unfolding write_header
build_health msg msg_len = record {
  bytes = write_header health msg_len ++ take msg_len msg;
  size = frame_header_size + msg_len;
}

unfoldable pub build_server_key : List ℕ → Frame
unfolding write_header
build_server_key key = record {
  bytes = write_header server_key key_size ++ key;
  size = frame_header_size + key_size;
}

unfoldable pub build_restarting : ℕ → ℕ → Frame
unfolding write_header
build_restarting reconnect_in_ms try_for_ms = record {
  bytes = write_header restarting 8 ++ (write_u32 reconnect_in_ms ++ write_u32 try_for_ms);
  size = frame_header_size + 8;
}
