-- ===== src/Derp/Layout.antt =====
-- What every frame of src/protocol.cc looks like on the wire.
use hyper_derp.Prelude.{
  ℕ, ◌+◌, ◌^◌, ◌≤◌, ◌<◌, ◌≡◌, refl, ap, List, [], ◌∷◌, ◌++◌, length, take, arith, length-append,
  length-take,
}
use hyper_derp.Wire.{write_u32}
use hyper_derp.Wire.RoundTrip.{read-write_u32}
use hyper_derp.HdProtocol.{Frame}
use hyper_derp.Derp.{
  FrameType, recv_packet, gone, present, keep_alive, pong_frame, health, server_key, restarting,
  PeerGoneReason, frame_header_size, type_code, write_header, read_type, read_len,
  build_recv_packet, build_gone, build_present, build_keep_alive, build_pong_frame, build_health,
  build_server_key, build_restarting, gone_code,
}

-- `f` starts with a header that names `t` and counts the bytes behind it, and `size` is the whole.
pub record IsDerpFrame (t : FrameType) (f : Frame) : Type 0 where
  pub names : read_type f.bytes ≡ type_code t
  pub counts : frame_header_size + read_len f.bytes ≡ f.size
  pub covers : length f.bytes ≡ f.size

headed :
    (t : FrameType) (n : ℕ) (body : List ℕ)
    → length body ≡ n
    → n < 2 ^ 32
    → IsDerpFrame t (record { bytes = write_header t n ++ body; size = frame_header_size + n })
unfolding write_header read_type read_len
headed t n body len fits = record {
  names = refl;
  counts = ap (λ k. frame_header_size + k) (read-write_u32 n body fits);
  covers = omega arith;
}

-- For a key of 32 bytes, lengths below 2^31 that their buffers hold and at least eight bytes of
-- ping data, every DERP frame starts with a header that names its type and counts exactly the
-- bytes behind it.
pub frames-IsDerpFrame :
    (key data_bytes msg : List ℕ) (data_len msg_len in_ms for_ms : ℕ) (why : PeerGoneReason)
    → length key ≡ 32
    → data_len ≤ length data_bytes
    → msg_len ≤ length msg
    → 8 ≤ length msg
    → data_len < 2 ^ 31
    → msg_len < 2 ^ 31
    → IsDerpFrame recv_packet (build_recv_packet key data_bytes data_len)
      × IsDerpFrame gone (build_gone key why)
      × IsDerpFrame present (build_present key)
      × IsDerpFrame keep_alive build_keep_alive
      × IsDerpFrame pong_frame (build_pong_frame msg)
      × IsDerpFrame health (build_health msg msg_len)
      × IsDerpFrame server_key (build_server_key key)
      × IsDerpFrame restarting (build_restarting in_ms for_ms)
unfolding build_recv_packet build_gone build_present build_keep_alive build_pong_frame build_health
    build_server_key build_restarting
frames-IsDerpFrame key data_bytes msg data_len msg_len in_ms for_ms why k d m p dl ml =
    let td : length (take data_len data_bytes) ≡ data_len =
      omega (arith, length-take data_len data_bytes) in
    let tm : length (take msg_len msg) ≡ msg_len = omega (arith, length-take msg_len msg) in
    let tp : length (take 8 msg) ≡ 8 = omega (arith, length-take 8 msg) in
    (
      headed recv_packet (32 + data_len) (key ++ take data_len data_bytes)
          (omega (arith, length-append key (take data_len data_bytes))) (omega arith),
      headed gone 33 (key ++ (gone_code why ∷ []))
          (omega (arith, length-append key (gone_code why ∷ []))) (omega arith),
      headed present 32 key k (omega arith),
      headed keep_alive 0 [] refl (omega arith),
      headed pong_frame 8 (take 8 msg) tp (omega arith),
      headed health msg_len (take msg_len msg) tm (omega arith),
      headed server_key 32 key k (omega arith),
      headed restarting 8 (write_u32 in_ms ++ write_u32 for_ms) refl (omega arith),
    )
