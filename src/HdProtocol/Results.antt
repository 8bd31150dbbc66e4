-- ===== src/HdProtocol/Results.antt =====
-- OpenConnectionResult and FleetOpenConnection of src/hd_protocol.cc: a payload that was built
-- parses to what it was built from.
use hyper_derp.Prelude.{
  ℕ, ◌+◌, ◌*◌, ◌^◌, ◌≤◌, ◌<◌, ◌≡◌, refl, List, [], ◌∷◌, ◌++◌, none, some, length, take, drop,
  length-append, take_all, drop-append, drop-append_add, arith, ltb, All, Bool-cases, inl, inr,
  le→leb, ◌⊎◌, set, Option-cases,
}
use hyper_derp.Prelude.Int.{ℤ, pos}
use hyper_derp.Wire.{write_u64, write_u16}
use hyper_derp.Wire.RoundTrip.{read-write_u16, read-write_u64}
use hyper_derp.HdProtocol.{
  Frame, header_size, IsMode, IsReason, write_frame_header, HdConnMode, HdDenyReason, mode_code,
  reason_code, checked_len, open_connection_result, read_frame_type, type_code,
}
use hyper_derp.HdProtocol.Envelopes.{copied-take}
use hyper_derp.HdProtocol.Routing.{
  HdOpenConnectionResult, build_open_connection_result, parse_open_connection_result, write_path,
  read_path, build_fleet_open_connection_result,
}

pub record IsResult (r : HdOpenConnectionResult) : Type 0 where
  pub correlation_fits : r.correlation_id < 2 ^ 64
  pub mode_named : IsMode r.mode
  pub reason_named : IsReason r.deny_reason
  pub path_fits : length r.relay_path ≤ 32
  pub hops_fit : All (λ h. h < 2 ^ 16) r.relay_path
  pub hint_fits : length r.endpoint_hint ≤ 128

length-write_path : (path : List ℕ) → length (write_path path) ≡ length path * 2
unfolding write_path
length-write_path [] = refl
length-write_path (h ∷ path) = omega (arith, length-write_path path)

read-write_path :
    (path rest : List ℕ)
    → All (λ h. h < 2 ^ 16) path
    → read_path (length path) (write_path path ++ rest) ≡ path
unfolding read_path write_path
read-write_path [] rest w = refl
read-write_path (h ∷ path) rest w =
    ground (arith, read-write_u16 h (write_path path ++ rest) w.0, read-write_path path rest w.1)

-- The payload behind the fixed fields.
abbrev path_and_hint : HdOpenConnectionResult → List ℕ
path_and_hint r = write_path r.relay_path ++ (write_u16 (length r.endpoint_hint) ++ r.endpoint_hint)

abbrev result_payload : HdOpenConnectionResult → List ℕ
result_payload r =
    write_u64 r.correlation_id
    ++ (mode_code r.mode
        ∷ (write_u16 (reason_code r.deny_reason)
            ++ (r.sub_reason ∷ (write_u16 (length r.relay_path) ++ path_and_hint r))))

-- What the parser needs of the tail behind the fixed fields.
tail_facts :
    (r : HdOpenConnectionResult)
    → IsResult r
    → (read_path (length r.relay_path) (path_and_hint r) ≡ r.relay_path)
      × (drop (length r.relay_path * 2) (path_and_hint r)
          ≡ write_u16 (length r.endpoint_hint) ++ r.endpoint_hint)
      × (length (path_and_hint r) ≡ length r.relay_path * 2 + (2 + length r.endpoint_hint))
tail_facts r w =
    let tail = write_u16 (length r.endpoint_hint) ++ r.endpoint_hint in
    (
      read-write_path r.relay_path tail w.hops_fit,
      drop-append (length r.relay_path * 2) (write_path r.relay_path) tail
          (length-write_path r.relay_path),
      omega (arith, length-append (write_path r.relay_path) tail, length-write_path r.relay_path),
    )

parse_payload :
    (r : HdOpenConnectionResult)
    → IsResult r
    → parse_open_connection_result (result_payload r) ≡ some r
unfolding parse_open_connection_result
parse_payload r w =
    let (path, hint_off, size) = tail_facts r w in
    let fixed = take 14 (result_payload r) in
    ground (
      arith,
      path,
      hint_off,
      size,
      read-write_u64 r.correlation_id (drop 8 (result_payload r)) w.correlation_fits,
      read-write_u16 (reason_code r.deny_reason) (drop 11 (result_payload r)) w.reason_named.0,
      read-write_u16 (length r.relay_path) (path_and_hint r) (omega arith),
      read-write_u16 (length r.endpoint_hint) r.endpoint_hint (omega arith),
      drop-append_add 14 (length r.relay_path * 2) fixed (path_and_hint r) refl,
      copied-take (length r.endpoint_hint) r.endpoint_hint,
      take_all (length r.endpoint_hint) r.endpoint_hint (omega arith),
      w.mode_named.1,
      w.reason_named.1,
    )

-- HdBuildOpenConnectionResult of a result within its bounds returns -1 in a buffer shorter than
-- the frame, and in every other buffer a frame of that size whose payload parses to the same
-- result.
pub parse-build_open_connection_result :
    (buf_size : ℕ) (r : HdOpenConnectionResult)
    → IsResult r
    → let total = 4 + (16 + length r.relay_path * 2 + length r.endpoint_hint) in
      let built =
        build_open_connection_result buf_size r.correlation_id r.mode r.deny_reason r.sub_reason
          r.relay_path
          (pos (length r.relay_path))
          r.endpoint_hint
          (pos (length r.endpoint_hint)) in
      ((buf_size < total) × (built ≡ none))
      ⊎ ((total ≤ buf_size)
          × ((f : Frame) × (built ≡ some f)
              × (f.size ≡ total)
              × (parse_open_connection_result (drop header_size f.bytes) ≡ some r)))
unfolding build_open_connection_result checked_len write_frame_header
parse-build_open_connection_result buf_size r w =
    let n = length r.relay_path in
    let m = length r.endpoint_hint in
    elim (Bool-cases (ltb buf_size (4 + (16 + n * 2 + m)))) [
      | inl small ↦ inl (
        ground arith,
        rw (le→leb n 32 w.path_fits, le→leb m 128 w.hint_fits, small, build_open_connection_result),
      )
      | inr fits ↦ inr (
        ground arith,
        (
          record {
            bytes = write_frame_header open_connection_result (16 + n * 2 + m) ++ result_payload r;
            size = 4 + (16 + n * 2 + m);
          },
          rw (build_open_connection_result, le→leb n 32 w.path_fits, le→leb m 128 w.hint_fits, fits)
              (rw (
                copied-take m r.endpoint_hint,
                take_all n r.relay_path (omega arith),
                take_all m r.endpoint_hint (omega arith),
              )),
          refl,
          parse_payload r w,
        ),
      )
    ]

-- A path or a hint beyond its bound, or a length below 0, makes the builder return -1.
pub build_open_connection_result_refuses :
    (buf_size corr sub : ℕ) (mode : HdConnMode) (why : HdDenyReason) (path hint : List ℕ)
    (path_len hint_len : ℤ)
    → (checked_len path_len 32 ≡ none) ⊎ (checked_len hint_len 128 ≡ none)
    → build_open_connection_result buf_size corr mode why sub path path_len hint hint_len ≡ none
unfolding build_open_connection_result
build_open_connection_result_refuses buf_size corr sub mode why path hint path_len hint_len h =
    ground arith

-- A frame that the builder returns is marked as an OpenConnectionResult.
built-type :
    (buf_size corr sub : ℕ) (mode : HdConnMode) (why : HdDenyReason) (path hint : List ℕ)
    (path_len hint_len : ℤ) (f : Frame)
    → build_open_connection_result buf_size corr mode why sub path path_len hint hint_len ≡ some f
    → read_frame_type f.bytes ≡ 0x24
unfolding build_open_connection_result write_frame_header read_frame_type type_code
built-type buf_size corr sub mode why path hint path_len hint_len f h = ground arith

-- Writing over the type byte of a frame that has one.
retype :
    (bytes : List ℕ) (v : ℕ)
    → read_frame_type bytes ≡ 0x24
    → (drop 1 (set bytes 0 v) ≡ drop 1 bytes) × (read_frame_type (set bytes 0 v) ≡ v)
unfolding read_frame_type
retype [] v h = absurd (omega arith)
retype (b ∷ bytes) v h = (refl, refl)

-- HdBuildFleetOpenConnectionResult refuses exactly what HdBuildOpenConnectionResult refuses, and
-- else builds the same frame under its own type byte.
pub fleet_result-result :
    (buf_size corr sub : ℕ) (mode : HdConnMode) (why : HdDenyReason) (path hint : List ℕ)
    (path_len hint_len : ℤ)
    → let local =
        build_open_connection_result buf_size corr mode why sub path path_len hint hint_len in
      let fleet =
        build_fleet_open_connection_result buf_size corr mode why sub path path_len hint hint_len in
      ((local ≡ none) × (fleet ≡ none))
      ⊎ ((f g : Frame) × (local ≡ some f)
          × (fleet ≡ some g)
          × (g.size ≡ f.size)
          × (drop 1 g.bytes ≡ drop 1 f.bytes)
          × (read_frame_type g.bytes ≡ 0x29))
unfolding build_fleet_open_connection_result type_code
fleet_result-result buf_size corr sub mode why path hint path_len hint_len =
    elim (Option-cases
      (build_open_connection_result buf_size corr mode why sub path path_len hint hint_len)) [
        | inl e ↦ inl (e, rw (build_fleet_open_connection_result, e))
        | inr (f, e) ↦
            let typed =
              retype f.bytes 0x29
                (built-type buf_size corr sub mode why path hint path_len hint_len f e) in
            inr (
              f,
              record f { bytes = set f.bytes 0 0x29 },
              e,
              rw (build_fleet_open_connection_result, e),
              refl,
              typed.0,
              typed.1,
            )
      ]
