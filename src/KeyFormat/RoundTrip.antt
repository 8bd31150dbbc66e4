-- ===== src/KeyFormat/RoundTrip.antt =====
-- Printing and parsing keys, src/key_format.cc.
use hyper_derp.Prelude.{ℕ, ◌*◌, ◌≡◌, refl, Option, some, List, length, take, arith, take_all}
use hyper_derp.Prelude.Bytes.{same_bytes}
use hyper_derp.Wire.{IsBytes}
use hyper_derp.KeyFormat.{
  raw_hex, relay_key, client_key, whole_key, format_with_prefix, key_to_rk_string, key_to_ck_string,
  hex_to_key, parse_prefixed, parse_key_string,
}

-- What libsodium documents of its hexadecimal coding: two digits for a byte, and a decoder that
-- reads back what the encoder wrote.
pub record IsHexCoding (bin2hex : List ℕ → List ℕ) (hex2bin : List ℕ → Option (List ℕ))
    : Type 0 where
  pub two_digits : (k : List ℕ) → length (bin2hex k) ≡ length k * 2
  pub decodes : (k : List ℕ) → IsBytes k → hex2bin (bin2hex k) ≡ some k

module _ (bin2hex : List ℕ → List ℕ) (hex2bin : List ℕ → Option (List ℕ)) where
  -- A key of 32 bytes printed with either prefix or as bare hexadecimal is parsed back as that key
  -- with that kind, for a hexadecimal coding that reads back what it writes.
  pub parse-key_to_string :
      IsHexCoding bin2hex hex2bin
      → (k : List ℕ) → IsBytes k
      → length k ≡ 32
      → (parse_key_string bin2hex hex2bin (key_to_rk_string bin2hex hex2bin k) ≡ relay_key k)
        × (parse_key_string bin2hex hex2bin (key_to_ck_string bin2hex hex2bin k) ≡ client_key k)
        × (parse_key_string bin2hex hex2bin (bin2hex k) ≡ raw_hex k)
  unfolding parse_key_string parse_prefixed hex_to_key whole_key key_to_rk_string key_to_ck_string
      format_with_prefix same_bytes
  parse-key_to_string coding k bytes size =
      let hex : length (bin2hex k) ≡ 64 = omega (arith, coding.two_digits k, size) in
      let whole : take 64 (bin2hex k) ≡ bin2hex k =
        take_all 64 (bin2hex k) (omega (arith, hex, size)) in
      let back = coding.decodes k bytes in
      (
        rw (whole, hex, back, size) refl,
        rw (whole, hex, back, size) refl,
        rw (hex, back, size) refl,
      )
