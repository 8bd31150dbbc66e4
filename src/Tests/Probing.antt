-- ===== src/Tests/Probing.antt =====
-- Concrete STUN messages for src/stun.cc.
use hyper_derp.Prelude.{
  ℕ, ◌≡◌, refl, Bool, true, Option, some, List, [], ◌∷◌, ◌++◌, length, take, arith,
}
use hyper_derp.Stun.{
  StunMessage, ByteOrder, empty_message, binding_response, binding_error, reason_bytes, parse,
  pad_to4, build_binding_response, build_error_response, decode_xor_address, write_header,
}
use hyper_derp.Stun.Walk.{attributes_bytes, parse_each, parse_ends}
use hyper_derp.Stun.Messages.{message, parse-message}
use hyper_derp.Stun.Responses.{parse-build_binding_response}
use hyper_derp.Stun.Errors.{parse-build_error_response}

abbrev txn_id : List ℕ
txn_id = 1 ∷ 2 ∷ 3 ∷ 4 ∷ 5 ∷ 6 ∷ 7 ∷ 8 ∷ 9 ∷ 10 ∷ 11 ∷ 12 ∷ []

-- A response whose attribute ends past the message.
abbrev cut_short : List ℕ
cut_short = write_header binding_response 4 txn_id ++ (0 ∷ 32 ∷ 0 ∷ 8 ∷ [])

parse_ends_example : (r : Bool × StunMessage) × (parse cut_short empty_message ≡ some r)
parse_ends_example = parse_ends cut_short empty_message

-- A user name and the name of a software.
abbrev attributes : List (ℕ × List ℕ)
attributes = (0x0006, 117 ∷ 115 ∷ 101 ∷ []) ∷ (0x8022, 104 ∷ 100 ∷ []) ∷ []

parse-message_example :
    parse (message binding_response txn_id attributes (7 ∷ [])) empty_message
    ≡ some (
      true,
      parse_each attributes
          (record empty_message { msg_type = binding_response; transaction_id = txn_id }),
    )
unfolding attributes_bytes pad_to4
parse-message_example =
    parse-message binding_response txn_id attributes (7 ∷ []) refl (omega arith) (omega arith)
      empty_message ((omega arith, omega arith), ((omega arith, omega arith), tt))

-- A host whose byte order is the network's.
abbrev big_endian : ByteOrder
big_endian = record {
  htons = λ v. v;
  ntohs = λ v. v;
  htonl = λ v. v;
  ntohl = λ v. v;
  ntohs-lt = λ v h. h;
  ntohl-lt = λ v h. h;
  htons-lt = λ v h. h;
  htonl-lt = λ v h. h;
  htons-ntohs = λ v h. refl;
  htonl-ntohl = λ v h. refl;
}

abbrev response : List ℕ
response =
    write_header binding_response 12 txn_id
    ++ (0 ∷ 32 ∷ 0 ∷ 8 ∷ 0 ∷ 1 ∷ 0x33 ∷ 0x06 ∷ 0x2b ∷ 0x12 ∷ 0xa4 ∷ 0x43 ∷ [])

parse-build_binding_response_example :
    (r : StunMessage) × (parse (response ++ (9 ∷ [])) empty_message ≡ some (true, r))
    × (length response ≡ 32)
    × (r.msg_type ≡ binding_response)
    × (r.transaction_id ≡ txn_id)
    × (r.has_xor_mapped ≡ true)
    × (decode_xor_address big_endian
          (big_endian.htons r.xor_mapped_port)
          (big_endian.htonl r.xor_mapped_ip)
        ≡ (0x1214, 0x0a000001))
unfolding build_binding_response
parse-build_binding_response_example =
    parse-build_binding_response big_endian 64 txn_id 0x0a000001 0x1214 response (9 ∷ [])
      empty_message refl (omega arith) (omega arith) refl

abbrev reason : Option (List ℕ)
reason = some (66 ∷ 97 ∷ 100 ∷ [])

abbrev error_response : List ℕ
error_response =
    write_header binding_error 12 txn_id ++ (0 ∷ 9 ∷ 0 ∷ 7 ∷ 0 ∷ 0 ∷ 4 ∷ 1 ∷ 66 ∷ 97 ∷ 100 ∷ 0 ∷ [])

parse-build_error_response_example :
    (r : StunMessage) × (parse (error_response ++ []) empty_message ≡ some (true, r))
    × (r.msg_type ≡ binding_error)
    × (r.transaction_id ≡ txn_id)
    × (r.has_error ≡ true)
    × (r.error_code ≡ 401)
    × (r.error_reason ≡ take 127 (reason_bytes reason))
unfolding build_error_response
parse-build_error_response_example =
    parse-build_error_response 64 txn_id 401 reason error_response [] refl (omega arith)
      (omega arith) refl
