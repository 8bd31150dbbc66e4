-- ===== src/HdProtocol/Fleet.antt =====
-- FleetOpenConnection of src/hd_protocol.cc: a payload that was built parses to what it was built
-- from.
use hyper_derp.Prelude.{
  ℕ, ◌+◌, ◌^◌, ◌≤◌, ◌<◌, ◌≡◌, refl, List, ◌++◌, none, some, length, take, drop, length-append,
  take-append, take_all, drop-append, drop-append_add, arith, ltb, Bool-cases, inl, inr, le→leb,
  ◌⊎◌,
}
use hyper_derp.Prelude.Int.{pos}
use hyper_derp.Wire.{write_u16}
use hyper_derp.Wire.RoundTrip.{read-write_u16}
use hyper_derp.HdProtocol.{
  Frame, header_size, write_frame_header, checked_len, fleet_open_connection,
}
use hyper_derp.HdProtocol.Envelopes.{copied-take}
use hyper_derp.HdProtocol.Routing.{
  HdFleetOpenConnection, build_fleet_open_connection, parse_fleet_open_connection,
}

pub record IsFleetOpen (r : HdFleetOpenConnection) : Type 0 where
  pub relay_fits : r.origin_relay_id < 2 ^ 16
  pub id_fits : length r.origin_fleet_id ≤ 64
  pub key_fits : length r.target_key ≡ 32
  pub inner_fits : length r.inner_conn ≡ 14

abbrev fleet_payload : HdFleetOpenConnection → List ℕ
fleet_payload r =
    write_u16 r.origin_relay_id
    ++ (write_u16 (length r.origin_fleet_id)
        ++ (r.origin_fleet_id ++ (r.target_key ++ r.inner_conn)))

parse_fleet_payload :
    (r : HdFleetOpenConnection)
    → IsFleetOpen r
    → parse_fleet_open_connection (fleet_payload r) ≡ some r
unfolding parse_fleet_open_connection
parse_fleet_payload r w =
    let n = length r.origin_fleet_id in
    let id = r.origin_fleet_id in
    let tail = r.target_key ++ r.inner_conn in
    let head = take 4 (fleet_payload r) in
    ground (
      arith,
      read-write_u16 r.origin_relay_id (drop 2 (fleet_payload r)) w.relay_fits,
      read-write_u16 n (id ++ tail) (omega arith),
      length-append id tail,
      length-append r.target_key r.inner_conn,
      copied-take n (id ++ tail),
      take-append n id tail refl,
      drop-append_add 4 n head (id ++ tail) refl,
      drop-append n id tail refl,
      drop-append_add 4 (n + 32) head (id ++ tail) refl,
      drop-append_add n 32 id tail refl,
      drop-append 32 r.target_key r.inner_conn w.key_fits,
      take-append 32 r.target_key r.inner_conn w.key_fits,
      take_all 14 r.inner_conn (omega arith),
    )

-- HdBuildFleetOpenConnection of an envelope within its bounds returns -1 in a buffer shorter than
-- the frame, and in every other buffer a frame of that size whose payload parses to the same
-- envelope.
pub parse-build_fleet_open_connection :
    (buf_size : ℕ) (r : HdFleetOpenConnection)
    → IsFleetOpen r
    → let total = 4 + (2 + 2 + length r.origin_fleet_id + 32 + 14) in
      let built =
        build_fleet_open_connection buf_size r.origin_relay_id r.origin_fleet_id
          (pos (length r.origin_fleet_id))
          r.target_key
          r.inner_conn
          (length r.inner_conn) in
      ((buf_size < total) × (built ≡ none))
      ⊎ ((total ≤ buf_size)
          × ((f : Frame) × (built ≡ some f)
              × (f.size ≡ total)
              × (parse_fleet_open_connection (drop header_size f.bytes) ≡ some r)))
unfolding build_fleet_open_connection checked_len write_frame_header
parse-build_fleet_open_connection buf_size r w =
    let n = length r.origin_fleet_id in
    let total = 4 + (2 + 2 + n + 32 + 14) in
    elim (Bool-cases (ltb buf_size total)) [
      | inl small ↦ inl (
        ground arith,
        rw (build_fleet_open_connection, le→leb n 64 w.id_fits, w.inner_fits, small),
      )
      | inr fits ↦ inr (
        ground arith,
        (
          record {
            bytes =
                write_frame_header fleet_open_connection (2 + 2 + n + 32 + 14) ++ fleet_payload r;
            size = total;
          },
          rw (build_fleet_open_connection, le→leb n 64 w.id_fits, w.inner_fits, fits)
              (rw (
                copied-take n r.origin_fleet_id,
                take_all n r.origin_fleet_id (omega arith),
                take_all 14 r.inner_conn (omega arith),
              )),
          refl,
          parse_fleet_payload r w,
        ),
      )
    ]
