-- ===== src/Stun/Responses.antt =====
-- The binding response of src/stun.cc, and the address that a client decodes from it.
use hyper_derp.Prelude.{
  ℕ, ◌^◌, ◌<◌, ◌≡◌, refl, ap, sym, ◌∙◌, inl, inr, true, ltb, some, List, [], ◌∷◌, ◌++◌,
  append_assoc, length, length-append, arith, Bool-cases, bit_xor,
}
use hyper_derp.Prelude.Bits.{bit_xor_lt, bit_xor_twice}
use hyper_derp.Wire.{write_u16, write_u32}
use hyper_derp.Wire.RoundTrip.{read-write_u16, read-write_u32}
use hyper_derp.Stun.{
  StunMessage, ByteOrder, magic_cookie, binding_response, attr_xor_mapped_address, family_ipv4,
  pad_to4, write_header, parse_attribute, parse_xor_mapped_address, parse, build_binding_response,
  decode_xor_address,
}
use hyper_derp.Stun.Walk.{attributes_bytes, parse_each}
use hyper_derp.Stun.Messages.{message, size_of, parse-message}

-- The address that a response carries, on the host's byte order.
module _ (order : ByteOrder) where
  abbrev pub sent_port : ℕ → ℕ
  sent_port client_port = order.ntohs (bit_xor client_port (order.htons 0x2112))

  abbrev pub sent_ip : ℕ → ℕ
  sent_ip client_ip = order.ntohl (bit_xor client_ip (order.htonl magic_cookie))

  port_fits : (p : ℕ) → p < 2 ^ 16 → bit_xor p (order.htons 0x2112) < 2 ^ 16
  port_fits p h = bit_xor_lt 16 p (order.htons 0x2112) h (order.htons-lt 0x2112 (omega arith))

  ip_fits : (a : ℕ) → a < 2 ^ 32 → bit_xor a (order.htonl magic_cookie) < 2 ^ 32
  ip_fits a h =
      bit_xor_lt 32 a (order.htonl magic_cookie) h (order.htonl-lt magic_cookie (omega arith))

  mapped_value : ℕ → ℕ → List ℕ
  mapped_value port ip = 0 ∷ family_ipv4 ∷ write_u16 port ++ write_u32 ip

  response-message :
      (buf_size : ℕ) (txn_id : List ℕ) (client_ip client_port : ℕ) (buf rest : List ℕ)
      → build_binding_response order buf_size txn_id client_ip client_port ≡ some buf
      → buf ++ rest
        ≡ message binding_response txn_id
            ((attr_xor_mapped_address, mapped_value (sent_port client_port) (sent_ip client_ip))
              ∷ [])
            rest
  unfolding build_binding_response attributes_bytes pad_to4 mapped_value
  response-message buf_size txn_id client_ip client_port buf rest built =
      elim (Bool-cases (ltb buf_size 32)) [
        | inl short ↦ absurd (ground arith)
        | inr room ↦
            let is_buf : write_header binding_response 12 txn_id
                  ++ (write_u16 attr_xor_mapped_address
                      ++ (write_u16 8 ++ mapped_value (sent_port client_port) (sent_ip client_ip)))
                ≡ buf =
              ground arith in
            ap (λ b. b ++ rest) (sym is_buf) ∙ simp append_assoc
      ]

  mapped_lem :
      (port ip : ℕ) (msg : StunMessage)
      → port < 2 ^ 16
      → ip < 2 ^ 32
      → parse_each ((attr_xor_mapped_address, mapped_value port ip) ∷ []) msg
        ≡ record msg { has_xor_mapped = true; xor_mapped_port = port; xor_mapped_ip = ip }
  unfolding parse_each parse_attribute parse_xor_mapped_address mapped_value
  mapped_lem port ip msg port_ok ip_ok =
      rw (read-write_u16 port (write_u32 ip) port_ok, read-write_u32 ip [] ip_ok) refl

  length-mapped :
      (port ip : ℕ)
      → length (attributes_bytes ((attr_xor_mapped_address, mapped_value port ip) ∷ [])) ≡ 12
  unfolding attributes_bytes pad_to4 mapped_value
  length-mapped port ip = refl

  -- A binding response that StunBuildBindingResponse writes has 32 bytes and is parsed with its
  -- type and transaction id, and StunDecodeXorAddress of the address in network byte order gives
  -- back the client's port and address.
  pub parse-build_binding_response :
      (buf_size : ℕ) (txn_id : List ℕ) (client_ip client_port : ℕ) (buf rest : List ℕ)
      (msg : StunMessage)
      → length txn_id ≡ 12
      → client_ip < 2 ^ 32
      → client_port < 2 ^ 16
      → build_binding_response order buf_size txn_id client_ip client_port ≡ some buf
      → (r : StunMessage) × (parse (buf ++ rest) msg ≡ some (true, r))
        × (length buf ≡ 32)
        × (r.msg_type ≡ binding_response)
        × (r.transaction_id ≡ txn_id)
        × (r.has_xor_mapped ≡ true)
        × (decode_xor_address order (order.htons r.xor_mapped_port) (order.htonl r.xor_mapped_ip)
            ≡ (client_port, client_ip))
  unfolding build_binding_response decode_xor_address mapped_value
  parse-build_binding_response buf_size txn_id client_ip client_port buf rest msg id_size ip_ok
        port_ok built =
      let p = bit_xor client_port (order.htons 0x2112) in
      let a = bit_xor client_ip (order.htonl magic_cookie) in
      let attrs : List (ℕ × List ℕ) =
        (attr_xor_mapped_address, mapped_value (order.ntohs p) (order.ntohl a)) ∷ [] in
      let size = length-mapped (order.ntohs p) (order.ntohl a) in
      let typed : StunMessage = record msg {
        msg_type = binding_response;
        transaction_id = txn_id;
      } in
      let sent = response-message buf_size txn_id client_ip client_port buf rest built in
      let parsed =
        parse-message binding_response txn_id attrs rest id_size (omega arith) (omega (arith, size))
          msg ((omega arith, omega arith), tt) in
      let read =
        mapped_lem (order.ntohs p) (order.ntohl a) typed
          (order.ntohs-lt p (port_fits client_port port_ok))
          (order.ntohl-lt a (ip_fits client_ip ip_ok)) in
      (
        record typed {
          has_xor_mapped = true;
          xor_mapped_port = order.ntohs p;
          xor_mapped_ip = order.ntohl a;
        },
        ap (λ b. parse b msg) sent ∙ parsed ∙ ap (λ r. some (true, r)) read,
        omega (
          arith,
          ap length sent,
          length-append buf rest,
          size_of binding_response txn_id attrs rest id_size (omega arith) (omega (arith, size)),
          size,
        ),
        refl,
        refl,
        refl,
        rw
            (
              order.htons-ntohs p (port_fits client_port port_ok),
              order.htonl-ntohl a (ip_fits client_ip ip_ok),
              bit_xor_twice 16 client_port (order.htons 0x2112) port_ok
                  (order.htons-lt 0x2112 (omega arith)),
              bit_xor_twice 32 client_ip (order.htonl magic_cookie) ip_ok
                  (order.htonl-lt magic_cookie (omega arith)),
            )
            refl,
      )
