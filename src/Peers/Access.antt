-- ===== src/Peers/Access.antt =====
-- Who may enroll and who may reach a peer from another fleet: GlobMatch, ParseCidrV4,
-- HdFederationAllows and HdPolicyAllows of src/hd_peers.cc. inet_aton and htonl of the C library are
-- parameters, as is the hexadecimal coding of the key strings. The prefix length of a CIDR is an
-- int of 32 bits, which the model lets wrap and keeps as its two's complement.
use hyper_derp.Prelude.{
  ℕ, zero, suc, ◌+◌, ◌-◌, ◌*◌, ◌%◌, ◌^◌, ◌≡◌, Bool, true, false, ◌&&◌, ◌||◌, not, if◌then◌else◌,
  ◌==◌, ltb, leb, Option, none, some, List, [], ◌∷◌, ◌++◌, length, take, drop, bit_and,
}
use hyper_derp.Prelude.Int.{ℤ, pos, negsuc}
use hyper_derp.Prelude.Slots.{find_index, find?}
use hyper_derp.Prelude.Bytes.{same_bytes}
pub mod Glob
pub mod Federation
pub mod Ranges
pub mod Enrolling

abbrev pub star : ℕ
star = 42

abbrev pub slash : ℕ
slash = 47

abbrev pub is_star : ℕ → Bool
is_star c = c == star

abbrev pub is_slash : ℕ → Bool
is_slash c = c == slash

unfoldable pub glob_to : List ℕ → List ℕ → Option ℕ → Bool
glob_to pattern text none = same_bytes pattern text
glob_to pattern text (some i) =
    if ltb (length text) i then false else same_bytes (take i pattern) (take i text)

-- GlobMatch: the empty pattern matches everything, and what follows the first `*` is not read.
unfoldable pub glob_match : List ℕ → List ℕ → Bool
unfolding glob_to
glob_match [] text = true
glob_match (c ∷ cs) text = glob_to (c ∷ cs) text (find_index is_star (c ∷ cs))

-- The answer of HdFederationAllows and HdPolicyAllows, with the reason string of a refusal.
pub data Verdict : Type 0 where
  allows : Verdict
  origin_rejected : Verdict
  no_accept_rules : Verdict
  destination_not_allowed : Verdict
  fleet_not_accepted : Verdict
  max_peers_exceeded : Verdict
  key_not_allowed : Verdict
  invalid_ip_range : Verdict
  ip_out_of_range : Verdict

pub record HdFederationAccept : Type 0 where
  pub fleet_id : List ℕ
  pub allowed_destinations : List (List ℕ)

pub record HdFederationPolicy : Type 0 where
  pub local_fleet_id : List ℕ
  pub accept_from : List HdFederationAccept
  pub reject_from : List (List ℕ)

-- Whether one of the patterns matches one of the two forms of the key.
unfoldable pub any_match : List (List ℕ) → List ℕ → List ℕ → Bool
unfolding glob_match
any_match [] key_str key_hex = false
any_match (pat ∷ pats) key_str key_hex =
    let rest = any_match pats key_str key_hex in
    if glob_match pat key_str || glob_match pat key_hex then true else rest

-- The loop over reject_from.
unfoldable pub rejects : List (List ℕ) → List ℕ → Bool
unfolding glob_match
rejects [] origin = false
rejects (p ∷ ps) origin = let rest = rejects ps origin in if glob_match p origin then true else rest

-- The body of the loop over accept_from, once a rule matches the origin.
unfoldable pub destination : List (List ℕ) → List ℕ → List ℕ → Verdict
unfolding any_match
destination [] key_str key_hex = allows
destination (pat ∷ pats) key_str key_hex =
    if any_match (pat ∷ pats) key_str key_hex then allows else destination_not_allowed

unfoldable pub accepts : List HdFederationAccept → List ℕ → List ℕ → List ℕ → Verdict
unfolding glob_match destination
accepts [] origin key_str key_hex = fleet_not_accepted
accepts (rule ∷ rules) origin key_str key_hex =
    let rest = accepts rules origin key_str key_hex in
    if glob_match rule.fleet_id origin
    then destination rule.allowed_destinations key_str key_hex
    else rest

-- `policy.accept_from.empty()`.
unfoldable pub accept_from_any : List HdFederationAccept → List ℕ → List ℕ → List ℕ → Verdict
unfolding accepts
accept_from_any [] origin key_str key_hex = no_accept_rules
accept_from_any (rule ∷ rules) origin key_str key_hex =
    accepts (rule ∷ rules) origin key_str key_hex

-- HdFederationAllows, for the key string that KeyToCkString gives.
unfoldable pub federation_allows : HdFederationPolicy → List ℕ → List ℕ → Verdict
unfolding rejects accept_from_any
federation_allows policy origin key_str =
    if rejects policy.reject_from origin
    then origin_rejected
    else accept_from_any policy.accept_from origin key_str (drop 3 key_str)

pub record HdEnrollPolicy : Type 0 where
  pub max_enrolled : ℤ
  pub allowed_keys : List (List ℕ)
  pub require_ip_range : List ℕ

-- The digits after the slash, from the value so far; a negative int is 2^31 or more.
unfoldable pub parse_bits : List ℕ → ℕ → Option ℕ
parse_bits [] bits = some bits
parse_bits (c ∷ cs) bits =
    let rest = parse_bits cs ((bits * 10 + (c - 48)) % 2 ^ 32) in
    if ltb c 48 || ltb 57 c then none else rest

-- `bits == 0 ? 0 : (0xFFFFFFFFu << (32 - bits))`, for at most 32 bits.
unfoldable pub mask_of : ℕ → ℕ
mask_of zero = 0
mask_of (suc n) = 2 ^ 32 - 2 ^ (32 - suc n)

-- `pol.max_peers > 0 && reg->peer_count >= pol.max_peers`.
unfoldable pub at_capacity : ℤ → ℤ → Bool
at_capacity (pos (suc cap)) (pos n) = leb (suc cap) n
at_capacity _ _ = false

-- The test of the key against a list of patterns; an empty list allows any key.
unfoldable pub key_allowed : List (List ℕ) → List ℕ → Bool
unfolding any_match
key_allowed [] key_str = true
key_allowed (pat ∷ pats) key_str = any_match (pat ∷ pats) key_str (drop 3 key_str)

unfoldable pub in_range : ℕ → Option (ℕ × ℕ) → Verdict
in_range peer_ipv4_be none = invalid_ip_range
in_range peer_ipv4_be (some (net, mask)) =
    if bit_and peer_ipv4_be mask == net then allows else ip_out_of_range

module _ (inet_aton : List ℕ → Option ℕ) (htonl : ℕ → ℕ) where
  unfoldable pub network : ℕ → Option ℕ → Option (ℕ × ℕ)
  unfolding mask_of
  network bits none = none
  network bits (some a) = some (bit_and a (htonl (mask_of bits)), htonl (mask_of bits))

  unfoldable pub parse_addr : List ℕ → Option ℕ → Option (ℕ × ℕ)
  unfolding network
  parse_addr addr none = none
  parse_addr addr (some bits) =
      if leb (2 ^ 31) bits || ltb 32 bits then none else network bits (inet_aton addr)

  unfoldable pub parse_cidr_at : List ℕ → Option ℕ → Option (ℕ × ℕ)
  unfolding parse_addr parse_bits
  parse_cidr_at cidr none = none
  parse_cidr_at cidr (some i) = parse_addr (take i cidr) (parse_bits (drop (i + 1) cidr) 0)

  -- ParseCidrV4: the net and the mask, in network byte order.
  unfoldable pub parse_cidr_v4 : List ℕ → Option (ℕ × ℕ)
  unfolding parse_cidr_at
  parse_cidr_v4 cidr = parse_cidr_at cidr (find_index is_slash cidr)

  -- The address test; an empty range and the address 0 pass it.
  unfoldable pub ip_allowed : List ℕ → ℕ → Verdict
  unfolding parse_cidr_v4 in_range
  ip_allowed [] peer_ipv4_be = allows
  ip_allowed (c ∷ cs) peer_ipv4_be =
      if peer_ipv4_be == 0 then allows else in_range peer_ipv4_be (parse_cidr_v4 (c ∷ cs))

  -- HdPolicyAllows, for the registry's policy and peer_count.
  unfoldable pub policy_allows : HdEnrollPolicy → ℤ → List ℕ → ℕ → Verdict
  unfolding at_capacity key_allowed ip_allowed
  policy_allows pol peer_count key_str peer_ipv4_be =
      if at_capacity pol.max_enrolled peer_count
      then max_peers_exceeded
      else if not (key_allowed pol.allowed_keys key_str)
      then key_not_allowed
      else ip_allowed pol.require_ip_range peer_ipv4_be
