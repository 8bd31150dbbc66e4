-- ===== src/HdProtocol/Envelopes.antt =====
-- The frames of variable size of src/hd_protocol.cc: what the builders refuse, and that the parsers
-- give back what was built.
use hyper_derp.Prelude.{
  ℕ, zero, suc, ◌+◌, ◌*◌, ◌/◌, ◌^◌, ◌≤◌, ◌<◌, ◌≡◌, refl, sym, ◌∙◌, List, [], ◌∷◌, ◌++◌, none, some,
  length, take, drop, take_all, length-take, arith, ltb, leb, All, if◌then◌else◌, ◌⊎◌, inl, inr,
  Bool-cases,
}
use hyper_derp.Prelude.Int.{ℤ, pos, negsuc}
use hyper_derp.Wire.RoundTrip.{read-write_u16}
use hyper_derp.HdProtocol.{
  Frame, header_size, write_frame_header, checked_len, redirect_max_url, redirect, route_announce,
}
use hyper_derp.HdProtocol.Frames.{
  write_routes, build_route_announce, read_routes, parse_route_announce, build_redirect,
  parse_redirect,
}

-- A route entry fits its three bytes.
abbrev pub IsRoute : ℕ × ℕ → Type 0
IsRoute (relay_id, hops) = (relay_id < 2 ^ 16) × (hops < 256)

pub length-write_routes : (routes : List (ℕ × ℕ)) → length (write_routes routes) ≡ length routes * 3
unfolding write_routes
length-write_routes [] = refl
length-write_routes ((relay_id, hops) ∷ rest) = omega (arith, length-write_routes rest)

-- The first `n` entries are read back, whatever follows them.
read-write_routes :
    (n : ℕ) (routes : List (ℕ × ℕ))
    → All IsRoute routes
    → n ≤ length routes
    → read_routes n (write_routes routes) ≡ take n routes
unfolding read_routes write_routes
read-write_routes zero routes w h = refl
read-write_routes (suc n) [] w h = absurd (omega arith)
read-write_routes (suc n) ((relay_id, hops) ∷ rest) w h = ground (
  arith,
  read-write_u16 relay_id (hops ∷ write_routes rest) w.0.0,
  read-write_routes n rest w.1 (omega arith),
)

parse-write_routes :
    (max_out : ℕ) (routes : List (ℕ × ℕ))
    → All IsRoute routes
    → parse_route_announce (write_routes routes) max_out ≡ take max_out routes
unfolding parse_route_announce
parse-write_routes max_out routes w =
    let n : length (write_routes routes) / 3 ≡ length routes =
      omega (arith, length-write_routes routes) in
    rw n (elim (Bool-cases (ltb max_out (length routes))) [
      | inl less ↦ rw less (read-write_routes max_out routes w (ground arith))
      | inr all ↦ rw all (
          read-write_routes (length routes) routes w (omega arith)
          ∙ take_all (length routes) routes (omega arith)
          ∙ sym (take_all max_out routes (ground arith)))
    ])

-- A route announcement that fits its buffer parses to its first max_out routes, for routes that
-- fit their widths; one that does not fit is refused.
pub parse-build_route_announce :
    (buf_size max_out : ℕ) (routes : List (ℕ × ℕ))
    → All IsRoute routes
    → ((buf_size < 4 + length routes * 3) × (build_route_announce buf_size routes ≡ none))
      ⊎ ((4 + length routes * 3 ≤ buf_size)
          × ((f : Frame) × (build_route_announce buf_size routes ≡ some f)
              × (parse_route_announce (drop header_size f.bytes) max_out ≡ take max_out routes)))
unfolding build_route_announce write_frame_header
parse-build_route_announce buf_size max_out routes w =
    elim (Bool-cases (ltb buf_size (4 + length routes * 3))) [
      | inl small ↦ inl (ground arith, rw small)
      | inr fits ↦ inr (
        ground arith,
        (
          record {
            bytes = write_frame_header route_announce (length routes * 3) ++ write_routes routes;
            size = 4 + length routes * 3;
          },
          rw fits,
          parse-write_routes max_out routes w,
        ),
      )
    ]

-- `if (n > 0) memcpy(p, s, n)` copies the first `n` bytes, also where there are none.
pub copied-take : (n : ℕ) (xs : List ℕ) → (if ltb 0 n then take n xs else []) ≡ take n xs
copied-take zero xs = refl
copied-take (suc n) xs = ground arith

parse_redirect-take :
    (reason n : ℕ) (url : List ℕ) (out_size : ℕ)
    → n ≤ 256
    → n ≤ length url
    → n < out_size
    → parse_redirect (reason ∷ (if ltb 0 n then take n url else [])) out_size
      ≡ some (reason, take n url)
unfolding parse_redirect
parse_redirect-take reason n url out_size short have room =
    let len : length (take n url) ≡ n = omega (arith, length-take n url) in
    rw (copied-take n url, len) (ground (arith, take_all n (take n url) (omega (arith, len))))

-- A redirect is refused when its length is negative or above 256; otherwise it parses, in a buffer
-- with room for the terminator, to the reason and the first url_len bytes.
pub parse-build_redirect :
    (reason : ℕ) (url : List ℕ) (url_len : ℤ) (out_size : ℕ)
    → ((checked_len url_len redirect_max_url ≡ none) × (build_redirect reason url url_len ≡ none))
      ⊎ ((n : ℕ) × (f : Frame) × (url_len ≡ pos n)
          × (n ≤ 256)
          × (build_redirect reason url url_len ≡ some f)
          × (n ≤ length url
              → n < out_size
              → parse_redirect (drop header_size f.bytes) out_size ≡ some (reason, take n url)))
unfolding build_redirect checked_len write_frame_header
parse-build_redirect reason url (negsuc n) out_size = inl (refl, refl)
parse-build_redirect reason url (pos n) out_size = elim (Bool-cases (leb n 256)) [
  | inr long ↦ inl (rw long, rw (long, build_redirect))
  | inl short ↦ inr (
    n,
    record {
      bytes =
          write_frame_header redirect (1 + n) ++ (reason ∷ (if ltb 0 n then take n url else []));
      size = 4 + (1 + n);
    },
    refl,
    ground arith,
    rw (short, build_redirect),
    λ have room. parse_redirect-take reason n url out_size (ground arith) have room,
  )
]
