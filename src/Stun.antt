-- ===== src/Stun.antt =====
-- STUN messages, src/stun.cc and include/hyper_derp/stun.h. A buffer that is read is the list of its
-- `len` bytes; a builder returns the bytes it wrote, and `none` where the source returns 0. The
-- byte order of the host (htons and its kin) is the record `ByteOrder`; the random bytes of libsodium
-- are an argument. A text of a parsed message is the list of the bytes copied before its NUL.
use hyper_derp.Prelude.{
  ℕ, zero, suc, ◌+◌, ◌-◌, ◌*◌, ◌/◌, ◌%◌, ◌^◌, ◌≤◌, ◌<◌, ◌≡◌, bit_and, bit_xor, min, Bool, true,
  false, ◌&&◌, not, if◌then◌else◌, ◌==◌, ltb, leb, Option, none, some, List, [], ◌∷◌, ◌++◌, length,
  take, drop, replicate, get_or,
}
use hyper_derp.Wire.{write_u16, read_u16, write_u32, read_u32}
pub mod Words
pub mod Walk
pub mod Messages
pub mod Responses
pub mod Errors

-- kStunHeaderSize, kStunMagicCookie, kStunTransactionIdSize.
abbrev pub header_size : ℕ
header_size = 20

abbrev pub magic_cookie : ℕ
magic_cookie = 0x2112A442

abbrev pub transaction_id_size : ℕ
transaction_id_size = 12

-- The message types.
abbrev pub binding_request : ℕ
binding_request = 0x0001

abbrev pub binding_response : ℕ
binding_response = 0x0101

abbrev pub binding_error : ℕ
binding_error = 0x0111

-- The attribute types that the parser knows.
abbrev pub attr_xor_mapped_address : ℕ
attr_xor_mapped_address = 0x0020

abbrev pub attr_username : ℕ
attr_username = 0x0006

abbrev pub attr_message_integrity : ℕ
attr_message_integrity = 0x0008

abbrev pub attr_fingerprint : ℕ
attr_fingerprint = 0x8028

abbrev pub attr_error_code : ℕ
attr_error_code = 0x0009

-- kStunAddrFamilyIPv4.
abbrev pub family_ipv4 : ℕ
family_ipv4 = 0x01

pub record StunMessage : Type 0 where
  pub msg_type : ℕ
  pub transaction_id : List ℕ
  pub has_xor_mapped : Bool
  pub xor_mapped_ip : ℕ
  pub xor_mapped_port : ℕ
  pub has_username : Bool
  pub username : List ℕ
  pub username_len : ℕ
  pub has_integrity : Bool
  pub integrity : List ℕ
  pub has_fingerprint : Bool
  pub fingerprint : ℕ
  pub has_error : Bool
  pub error_code : ℕ
  pub error_reason : List ℕ
  pub error_reason_len : ℕ

-- `StunMessage{}`.
abbrev pub empty_message : StunMessage
empty_message = record {
  msg_type = 0;
  transaction_id = replicate 12 0;
  has_xor_mapped = false;
  xor_mapped_ip = 0;
  xor_mapped_port = 0;
  has_username = false;
  username = [];
  username_len = 0;
  has_integrity = false;
  integrity = replicate 20 0;
  has_fingerprint = false;
  fingerprint = 0;
  has_error = false;
  error_code = 0;
  error_reason = [];
  error_reason_len = 0;
}

-- PadTo4: `(len + 3) & ~3` on an int that is not negative.
unfoldable pub pad_to4 : ℕ → ℕ
pad_to4 len = bit_and (len + 3) (2 ^ 32 - 4)

-- WriteStunHeader.
abbrev pub write_header : ℕ → ℕ → List ℕ → List ℕ
write_header msg_type payload_len txn_id =
    write_u16 msg_type ++ (write_u16 payload_len ++ (write_u32 magic_cookie ++ txn_id))

-- ParseXorMappedAddress.
unfoldable pub parse_xor_mapped_address : ℕ → List ℕ → StunMessage → StunMessage
parse_xor_mapped_address val_len val msg =
    if ltb val_len 8 then msg else if not (get_or val 1 0 == family_ipv4) then msg else record msg {
      has_xor_mapped = true;
      xor_mapped_port = read_u16 (drop 2 val);
      xor_mapped_ip = read_u32 (drop 4 val);
    }

-- The reason of ParseErrorCode, when there is one.
unfoldable pub copy_reason : ℕ → List ℕ → StunMessage → StunMessage
copy_reason reason_len reason msg =
    if ltb 0 reason_len
    then record msg {
      error_reason = take (min reason_len 127) reason;
      error_reason_len = min reason_len 127;
    }
    else msg

-- ParseErrorCode.
unfoldable pub parse_error_code : ℕ → List ℕ → StunMessage → StunMessage
unfolding copy_reason
parse_error_code val_len val msg =
    if ltb val_len 4
    then msg
    else copy_reason (val_len - 4) (drop 4 val) (record msg {
      has_error = true;
      error_code = (bit_and (get_or val 2 0) 0x07 * 100 + get_or val 3 0) % 2 ^ 16;
    })

-- The `case`s of the switch of StunParse that are written out there.
unfoldable pub parse_username : ℕ → List ℕ → StunMessage → StunMessage
parse_username attr_len val msg =
    if ltb 0 attr_len
    then record msg {
      username = take (min attr_len 255) val;
      username_len = min attr_len 255;
      has_username = true;
    }
    else msg

unfoldable pub parse_integrity : ℕ → List ℕ → StunMessage → StunMessage
parse_integrity attr_len val msg =
    if attr_len == 20 then record msg { integrity = take 20 val; has_integrity = true } else msg

unfoldable pub parse_fingerprint : ℕ → List ℕ → StunMessage → StunMessage
parse_fingerprint attr_len val msg =
    if attr_len == 4 then record msg { fingerprint = read_u32 val; has_fingerprint = true } else msg

-- The switch of StunParse.
unfoldable pub parse_attribute : ℕ → ℕ → List ℕ → StunMessage → StunMessage
parse_attribute attr_type attr_len val msg =
    if attr_type == attr_xor_mapped_address
    then parse_xor_mapped_address attr_len val msg
    else if attr_type == attr_username
    then parse_username attr_len val msg
    else if attr_type == attr_message_integrity
    then parse_integrity attr_len val msg
    else if attr_type == attr_fingerprint
    then parse_fingerprint attr_len val msg
    else if attr_type == attr_error_code
    then parse_error_code attr_len val msg
    else msg

-- The `while` loop of StunParse over the attributes, on fuel; `none` when the fuel runs out. The
-- value is handed over as its `attr_len` bytes, which is all that the cases read.
unfoldable pub walk : ℕ → List ℕ → ℕ → ℕ → StunMessage → Option StunMessage
unfolding parse_attribute pad_to4
walk zero buf offset end msg = none
walk (suc fuel) buf offset end msg =
    let attr_type = read_u16 (drop offset buf) in
    let attr_len = read_u16 (drop (offset + 2) buf) in
    let val = take attr_len (drop (offset + 4) buf) in
    let rest =
      walk fuel buf (offset + 4 + pad_to4 attr_len) end
        (parse_attribute attr_type attr_len val msg) in
    if leb (offset + 4) end
    then if ltb end (offset + 4 + attr_len) then some msg else rest
    else some msg

-- StunIsStun.
unfoldable pub is_stun : List ℕ → Bool
is_stun buf =
    if ltb (length buf) header_size
    then false
    else if not (bit_and (get_or buf 0 0) 0xC0 == 0)
    then false
    else read_u32 (drop 4 buf) == magic_cookie

-- StunParse from the attributes on.
unfoldable pub parse_attributes : List ℕ → ℕ → StunMessage → Option (Bool × StunMessage)
parse_attributes buf payload_len msg =
    elim (walk (payload_len + 1) buf header_size (header_size + payload_len) msg) [
      | none ↦ none
      | some done ↦ some (true, done)
    ]

-- StunParse: the result and the message, or `none` when the fuel for the attributes runs out.
unfoldable pub parse : List ℕ → StunMessage → Option (Bool × StunMessage)
unfolding parse_attributes
parse buf msg =
    let payload_len = read_u16 (drop 2 buf) in
    let typed : StunMessage = record msg { msg_type = read_u16 buf } in
    if ltb (length buf) header_size
    then some (false, msg)
    else if not (bit_and (get_or buf 0 0) 0xC0 == 0)
    then some (false, msg)
    else if not (read_u32 (drop 4 buf) == magic_cookie)
    then some (false, typed)
    else if ltb (length buf) (header_size + payload_len)
    then some (false, typed)
    else parse_attributes buf payload_len
        (record typed { transaction_id = take transaction_id_size (drop 8 buf) })

-- `txn_id`, or the random bytes of StunGenerateTransactionId when it is null.
abbrev pub id_or : Option (List ℕ) → List ℕ → List ℕ
id_or none random = random
id_or (some txn_id) random = txn_id

-- StunBuildBindingRequest.
unfoldable pub build_binding_request : ℕ → Option (List ℕ) → List ℕ → Option (List ℕ)
build_binding_request buf_size txn_id random =
    if ltb buf_size header_size
    then none
    else some (write_header binding_request 0 (id_or txn_id random))

-- htons, ntohs, htonl and ntohl of the host: a fixed permutation of the bytes, which undo one another
-- and commute with `^`.
pub record ByteOrder : Type 0 where
  pub htons : ℕ → ℕ
  pub ntohs : ℕ → ℕ
  pub htonl : ℕ → ℕ
  pub ntohl : ℕ → ℕ
  pub ntohs-lt : (v : ℕ) → v < 2 ^ 16 → ntohs v < 2 ^ 16
  pub ntohl-lt : (v : ℕ) → v < 2 ^ 32 → ntohl v < 2 ^ 32
  pub htons-lt : (v : ℕ) → v < 2 ^ 16 → htons v < 2 ^ 16
  pub htonl-lt : (v : ℕ) → v < 2 ^ 32 → htonl v < 2 ^ 32
  pub htons-ntohs : (v : ℕ) → v < 2 ^ 16 → htons (ntohs v) ≡ v
  pub htonl-ntohl : (v : ℕ) → v < 2 ^ 32 → htonl (ntohl v) ≡ v

module _ (order : ByteOrder) where
  -- StunBuildBindingResponse.
  unfoldable pub build_binding_response : ℕ → List ℕ → ℕ → ℕ → Option (List ℕ)
  build_binding_response buf_size txn_id client_ip client_port =
      if ltb buf_size 32
      then none
      else some (
          write_header binding_response 12 txn_id
          ++ (write_u16 attr_xor_mapped_address
              ++ (write_u16 8
                  ++ (0
                        ∷ family_ipv4
                        ∷ write_u16 (order.ntohs (bit_xor client_port (order.htons 0x2112)))
                      ++ write_u32 (order.ntohl (bit_xor client_ip (order.htonl magic_cookie)))))))

  -- StunDecodeXorAddress: the port and the address.
  unfoldable pub decode_xor_address : ℕ → ℕ → ℕ × ℕ
  decode_xor_address xor_port xor_addr =
      (bit_xor xor_port (order.htons 0x2112), bit_xor xor_addr (order.htonl magic_cookie))

-- The text of a nullable C string.
abbrev pub reason_bytes : Option (List ℕ) → List ℕ
reason_bytes none = []
reason_bytes (some reason) = reason

-- StunBuildErrorResponse.
unfoldable pub build_error_response : ℕ → List ℕ → ℕ → Option (List ℕ) → Option (List ℕ)
unfolding pad_to4
build_error_response buf_size txn_id error_code reason =
    let text = reason_bytes reason in
    let attr_value_len = 4 + length text in
    let padded_value_len = pad_to4 attr_value_len in
    let attr_total = 4 + padded_value_len in
    if ltb buf_size (header_size + attr_total)
    then none
    else some (
        write_header binding_error (attr_total % 2 ^ 16) txn_id
        ++ (write_u16 attr_error_code
            ++ (write_u16 (attr_value_len % 2 ^ 16)
                ++ (0 ∷ 0 ∷ (error_code / 100 % 256) ∷ (error_code % 100) ∷ text
                    ++ replicate (padded_value_len - attr_value_len) 0))))
