-- ===== src/KeyFormat.antt =====
-- Keys as strings, src/key_format.cc and include/hyper_derp/key_format.h. The hexadecimal coding
-- is libsodium's: sodium_bin2hex and sodium_hex2bin are the parameters `bin2hex` and `hex2bin`, the
-- latter with `none` for a result other than 0 and else the decoded bytes.
use hyper_derp.Prelude.{
  ℕ, ◌+◌, ◌*◌, ◌≡◌, Bool, true, false, ◌&&◌, if◌then◌else◌, ◌==◌, Option, none, some, List, [], ◌∷◌,
  ◌++◌, length, take, drop,
}
use hyper_derp.Prelude.Bytes.{same_bytes}
pub mod RoundTrip

-- "rk_" and "ck_".
abbrev pub prefix_relay : List ℕ
prefix_relay = 114 ∷ 107 ∷ 95 ∷ []

abbrev pub prefix_client : List ℕ
prefix_client = 99 ∷ 107 ∷ 95 ∷ []

abbrev pub key_prefix_len : ℕ
key_prefix_len = 3

abbrev pub key_size : ℕ
key_size = 32

-- kPrefixedKeyLen.
abbrev pub prefixed_key_len : ℕ
prefixed_key_len = key_prefix_len + key_size * 2

-- KeyPrefix, with the key that ParseKeyString writes for the valid ones.
pub data KeyPrefix : Type 0 where
  invalid : KeyPrefix
  raw_hex : List ℕ → KeyPrefix
  relay_key : List ℕ → KeyPrefix
  client_key : List ℕ → KeyPrefix

unfoldable pub parsed_raw : Option (List ℕ) → KeyPrefix
parsed_raw none = invalid
parsed_raw (some k) = raw_hex k

unfoldable pub parsed_client : Option (List ℕ) → KeyPrefix
parsed_client none = invalid
parsed_client (some k) = client_key k

unfoldable pub parsed_relay : Option (List ℕ) → KeyPrefix → KeyPrefix
parsed_relay none otherwise = otherwise
parsed_relay (some k) otherwise = relay_key k

-- `decoded == kKeySize`, after a result of 0.
unfoldable pub whole_key : Option (List ℕ) → Option (List ℕ)
whole_key none = none
whole_key (some k) = if length k == key_size then some k else none

module _ (bin2hex : List ℕ → List ℕ) (hex2bin : List ℕ → Option (List ℕ)) where
  -- FormatWithPrefix.
  unfoldable pub format_with_prefix : List ℕ → List ℕ → List ℕ
  format_with_prefix key prefix = take key_prefix_len prefix ++ take (key_size * 2) (bin2hex key)

  unfoldable pub key_to_rk_string : List ℕ → List ℕ
  unfolding format_with_prefix
  key_to_rk_string key = format_with_prefix key prefix_relay

  unfoldable pub key_to_ck_string : List ℕ → List ℕ
  unfolding format_with_prefix
  key_to_ck_string key = format_with_prefix key prefix_client

  -- HexToKey.
  unfoldable pub hex_to_key : List ℕ → Option (List ℕ)
  unfolding whole_key
  hex_to_key hex = if length hex == key_size * 2 then whole_key (hex2bin hex) else none

  -- ParseKeyString: the prefixed form.
  unfoldable pub parse_prefixed : List ℕ → KeyPrefix
  unfolding hex_to_key parsed_relay parsed_client
  parse_prefixed s =
      let body = hex_to_key (drop key_prefix_len s) in
      let as_client =
        if same_bytes (take key_prefix_len s) prefix_client then parsed_client body else invalid in
      if same_bytes (take key_prefix_len s) prefix_relay
      then parsed_relay body as_client
      else as_client

  -- ParseKeyString.
  unfoldable pub parse_key_string : List ℕ → KeyPrefix
  unfolding hex_to_key parsed_raw parse_prefixed
  parse_key_string s =
      if length s == key_size * 2
      then parsed_raw (hex_to_key s)
      else if length s == prefixed_key_len
      then parse_prefixed s
      else invalid
