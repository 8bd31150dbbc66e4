-- ===== src/Tests/Access.antt =====
-- Concrete policies for HdFederationAllows and HdPolicyAllows of src/hd_peers.cc, and a key for
-- src/key_format.cc with a hexadecimal coding that has the documented behaviour.
use hyper_derp.Prelude.{
  ℕ, zero, suc, ◌+◌, ◌-◌, ◌*◌, ◌/◌, ◌%◌, ◌^◌, ◌≤◌, ◌<◌, ◌↔◌, ◌≡◌, ◌≢◌, ◌⊎◌, refl, ap, if◌then◌else◌,
  ltb, Option, none, some, List, [], ◌∷◌, ◌++◌, length, drop, replicate, arith,
}
use mathlib.Core.Option
use hyper_derp.Prelude.Int.{pos}
use hyper_derp.Prelude.Bytes.{same_bytes}
use hyper_derp.Wire.{IsBytes}
use hyper_derp.Peers.Access.{
  allows, HdFederationPolicy, federation_allows, HdEnrollPolicy, policy_allows,
}
use hyper_derp.Peers.Access.Federation.{SomeMatch, IsAccepted, federation_allows-IsAccepted}
use hyper_derp.Peers.Access.Ranges.{NoSlash, IsByteOrder}
use hyper_derp.Peers.Access.Enrolling.{HasRoom, policy_allows-prefix, policy_allows-no_length}
use hyper_derp.KeyFormat.{
  key_to_rk_string, key_to_ck_string, parse_key_string, raw_hex, relay_key, client_key,
}
use hyper_derp.KeyFormat.RoundTrip.{IsHexCoding, parse-key_to_string}

-- "eu" and "us".
abbrev eu : List ℕ
eu = 101 ∷ 117 ∷ []

abbrev us : List ℕ
us = 117 ∷ 115 ∷ []

-- The origin "x" is rejected, "us" reaches no key that begins with "ck", and "eu" reaches any.
abbrev federated : HdFederationPolicy
federated = record {
  local_fleet_id = us;
  accept_from =
      record { fleet_id = us; allowed_destinations = (114 ∷ []) ∷ [] }
      ∷ record { fleet_id = eu; allowed_destinations = [] }
      ∷ [];
  reject_from = (120 ∷ []) ∷ [];
}

abbrev ck_key : List ℕ
ck_key = 99 ∷ 107 ∷ 95 ∷ replicate 64 48

federation_allows-IsAccepted_example :
    (federation_allows federated eu ck_key ≡ allows) ↔ IsAccepted federated eu ck_key
federation_allows-IsAccepted_example = federation_allows-IsAccepted federated eu ck_key

-- "10.0.0.0" and "10.0.0.0/8".
abbrev ten_net : List ℕ
ten_net = 49 ∷ 48 ∷ 46 ∷ 48 ∷ 46 ∷ 48 ∷ 46 ∷ 48 ∷ []

abbrev ten_range : List ℕ
ten_range = ten_net ++ (47 ∷ 56 ∷ [])

-- An inet_aton that knows 10.0.0.0, and an htonl of a big-endian machine.
abbrev aton : List ℕ → Option ℕ
aton s = if same_bytes s ten_net then some 167772160 else none

abbrev same_order : ℕ → ℕ
same_order n = n

-- At most ten peers, with keys that begin with "ck", from 10.0.0.0/8.
abbrev enrolling : HdEnrollPolicy
enrolling = record {
  max_enrolled = pos 10;
  allowed_keys = (99 ∷ 107 ∷ 42 ∷ []) ∷ [];
  require_ip_range = ten_range;
}

abbrev peer_ip : ℕ
peer_ip = 167772161

same_order-IsByteOrder : IsByteOrder same_order
same_order-IsByteOrder = record { order_and = λ x y h k. refl; order_inj = λ x y h k e. e }

ten_known : aton ten_net ≡ some 167772160
unfolding same_bytes
ten_known = refl

ten_plain : NoSlash ten_net
ten_plain = (one, (nought, (dot, (nought, (dot, (nought, (dot, (nought, tt))))))))
  where
    one : ◌≢◌ {A = ℕ} 49 47
    one e = absurd (omega (arith, e))

    nought : ◌≢◌ {A = ℕ} 48 47
    nought e = absurd (omega (arith, e))

    dot : ◌≢◌ {A = ℕ} 46 47
    dot e = absurd (omega (arith, e))

policy_allows-prefix_example :
    (policy_allows aton same_order enrolling (pos 3) ck_key peer_ip ≡ allows) ↔ (
      HasRoom (pos 10) 3
      × ((enrolling.allowed_keys ≡ []) ⊎ SomeMatch enrolling.allowed_keys ck_key (drop 3 ck_key))
      × ((peer_ip ≡ 0) ⊎ ((8 ≤ 32) × (peer_ip / 2 ^ 24 ≡ 167772160 / 2 ^ 24))))
policy_allows-prefix_example =
    policy_allows-prefix aton same_order same_order-IsByteOrder enrolling 3 ck_key ten_net (56 ∷ [])
      peer_ip 167772160 refl ten_plain ((omega arith, omega arith), tt) (omega arith) (omega arith)
      (omega arith) ten_known

policy_allows-no_length_example :
    policy_allows aton same_order
      (record enrolling { require_ip_range = ten_net ++ (47 ∷ []) })
      (pos 3)
      ck_key
      1
    ≡ policy_allows aton same_order (record enrolling { require_ip_range = [] }) (pos 3) ck_key 1
policy_allows-no_length_example =
    policy_allows-no_length aton same_order enrolling (pos 3) ck_key ten_net 1 167772160 ten_plain
      ten_known refl

-- Lower-case hexadecimal digits, two for a byte.
hex_digit : ℕ → ℕ
hex_digit n = if ltb n 10 then 48 + n else 87 + n

digit_value : ℕ → ℕ
digit_value c = if ltb c 58 then c - 48 else c - 87

bin2hex : List ℕ → List ℕ
bin2hex [] = []
bin2hex (b ∷ bs) = hex_digit (b / 16) ∷ hex_digit (b % 16) ∷ bin2hex bs

hex2bin : List ℕ → Option (List ℕ)
hex2bin [] = some []
hex2bin (h ∷ []) = none
hex2bin (h ∷ l ∷ cs) = Option.map (λ k. (digit_value h * 16 + digit_value l) ∷ k) (hex2bin cs)

digit : (n : ℕ) → n < 16 → digit_value (hex_digit n) ≡ n
unfolding hex_digit digit_value
digit n h = ground arith

coded : (k : List ℕ) → IsBytes k → hex2bin (bin2hex k) ≡ some k
unfolding hex2bin bin2hex
coded [] w = refl
coded (b ∷ k) w =
    rw (coded k w.1, digit (b / 16) (omega (arith, w.0)), digit (b % 16) (omega arith))
      (ap (λ c. some (c ∷ k)) (whole b))
  where
    whole : (b : ℕ) → b / 16 * 16 + b % 16 ≡ b
    whole b = omega arith

doubled : (k : List ℕ) → length (bin2hex k) ≡ length k * 2
unfolding bin2hex
doubled [] = refl
doubled (b ∷ k) = omega (arith, doubled k)

coding : IsHexCoding bin2hex hex2bin
coding = record { two_digits = doubled; decodes = coded }

abbrev sevens : List ℕ
sevens = replicate 32 171

sevens-IsBytes : (n : ℕ) → IsBytes (replicate n 171)
sevens-IsBytes zero = tt
sevens-IsBytes (suc n) = (omega arith, sevens-IsBytes n)

parse-key_to_string_example :
    (parse_key_string bin2hex hex2bin (key_to_rk_string bin2hex hex2bin sevens) ≡ relay_key sevens)
    × (parse_key_string bin2hex hex2bin (key_to_ck_string bin2hex hex2bin sevens)
        ≡ client_key sevens)
    × (parse_key_string bin2hex hex2bin (bin2hex sevens) ≡ raw_hex sevens)
parse-key_to_string_example =
    parse-key_to_string bin2hex hex2bin coding sevens (sevens-IsBytes 32) refl
