-- ===== src/Stun/Messages.antt =====
-- What StunParse reads from a message laid out as src/stun.cc does, and from a binding request.
use hyper_derp.Prelude.{
  ℕ, ◌+◌, ◌/◌, ◌%◌, ◌^◌, ◌≤◌, ◌<◌, ◌≡◌, refl, ap, sym, subst, ◌∙◌, inl, inr, true, false, ltb,
  Option, some, List, [], ◌∷◌, ◌++◌, length, take, drop, get_or, length-append, take-append, arith,
  Bool-cases, bit_and,
}
use hyper_derp.Prelude.Bits.{bit_and_step, bit_and-three}
use hyper_derp.Wire.{read_u16, read_u32}
use hyper_derp.Wire.RoundTrip.{read-write_u16, read-write_u32}
use hyper_derp.Stun.{
  StunMessage, magic_cookie, binding_request, write_header, is_stun, parse, parse_attributes, walk,
  id_or, build_binding_request,
}
use hyper_derp.Stun.Walk.{attribute_bytes, attributes_bytes, parse_each, Fit, walk-attributes_bytes}

-- The two first bits of a byte below 64.
low_byte : (b : ℕ) → b < 64 → bit_and b 0xC0 ≡ 0
low_byte b h = omega (
  arith,
  bit_and_step b 0xC0,
  bit_and_step (b / 2) 0x60,
  bit_and_step (b / 2 / 2) 0x30,
  bit_and_step (b / 2 / 2 / 2) 0x18,
  bit_and_step (b / 2 / 2 / 2 / 2) 12,
  bit_and_step (b / 2 / 2 / 2 / 2 / 2) 6,
  bit_and-three (b / 2 / 2 / 2 / 2 / 2 / 2),
)

length-attributes : (attrs : List (ℕ × List ℕ)) → length attrs ≤ length (attributes_bytes attrs)
unfolding attributes_bytes
length-attributes [] = omega arith
length-attributes ((t, v) ∷ attrs) = omega (
  arith,
  length-append (attribute_bytes (t, v)) (attributes_bytes attrs),
  length-attributes attrs,
)

-- A message as the builders lay it out, which stands at the start of a buffer.
abbrev pub message : ℕ → List ℕ → List (ℕ × List ℕ) → List ℕ → List ℕ
message msg_type txn_id attrs rest =
    write_header msg_type (length (attributes_bytes attrs)) txn_id
    ++ (attributes_bytes attrs ++ rest)

attributes_walked :
    (buf : List ℕ) (n : ℕ) (typed done : StunMessage)
    → walk (n + 1) buf 20 (20 + n) typed ≡ some done
    → parse_attributes buf n typed ≡ some (true, done)
unfolding parse_attributes
attributes_walked buf n typed done walked = rw (parse_attributes, walked) refl

-- StunParse on a buffer whose fields are known.
parse_fields :
    (buf : List ℕ) (msg : StunMessage) (t n start : ℕ) (txn_id : List ℕ) (done : StunMessage)
    → ltb (length buf) 20 ≡ false
    → bit_and (get_or buf 0 0) 0xC0 ≡ 0
    → read_u32 (drop 4 buf) ≡ magic_cookie
    → read_u16 buf ≡ t
    → read_u16 (drop 2 buf) ≡ n
    → take 12 (drop 8 buf) ≡ txn_id
    → ltb (length buf) (20 + n) ≡ false
    → start ≡ 20
    → walk (n + 1) buf start (start + n) (record msg { msg_type = t; transaction_id = txn_id })
      ≡ some done
    → parse buf msg ≡ some (true, done)
unfolding parse
parse_fields buf msg t n start txn_id done long head cookie is_type is_len is_id holds at walked =
    let from : walk (n + 1) buf 20 (20 + n) (record msg { msg_type = t; transaction_id = txn_id })
        ≡ some done =
      subst
        (λ k.
          walk (n + 1) buf k (k + n) (record msg { msg_type = t; transaction_id = txn_id })
          ≡ some done)
        at walked in
    rw (is_len, is_type, is_id, long, head, cookie, holds) (attributes_walked buf n _ done from)

module _ (msg_type : ℕ) (txn_id : List ℕ) (attrs : List (ℕ × List ℕ)) (rest : List ℕ)
    (id_size : length txn_id ≡ 12) (known : msg_type < 2 ^ 14)
    (room : length (attributes_bytes attrs) < 2 ^ 16) where
  pub size_of :
      length (message msg_type txn_id attrs rest)
      ≡ 20 + length (attributes_bytes attrs) + length rest
  size_of = omega (
    arith,
    length-append txn_id (attributes_bytes attrs ++ rest),
    length-append (attributes_bytes attrs) rest,
    id_size,
  )

  head_of : bit_and (get_or (message msg_type txn_id attrs rest) 0 0) 0xC0 ≡ 0
  head_of = low_byte (msg_type / 2 ^ 8 % 256) (omega arith)

  cookie_of : read_u32 (drop 4 (message msg_type txn_id attrs rest)) ≡ magic_cookie
  cookie_of = read-write_u32 magic_cookie (txn_id ++ (attributes_bytes attrs ++ rest)) (omega arith)

  -- Such a message passes StunIsStun.
  pub message-is_stun : is_stun (message msg_type txn_id attrs rest) ≡ true
  unfolding is_stun
  message-is_stun =
      let long : ltb (length (message msg_type txn_id attrs rest)) 20 ≡ false =
        ground (arith, size_of) in
      rw (long, head_of, cookie_of) refl

  -- StunParse of a buffer that starts with a message of type below 2^14 with a transaction id of
  -- 12 bytes and attributes laid out with their padding, all within their fields, takes exactly
  -- those attributes in their order and ignores what follows the message.
  pub parse-message :
      (msg : StunMessage)
      → Fit attrs
      → parse (message msg_type txn_id attrs rest) msg
        ≡ some
            (true, parse_each attrs (record msg { msg_type = msg_type; transaction_id = txn_id }))
  parse-message msg fit =
      let buf : List ℕ = message msg_type txn_id attrs rest in
      let n : ℕ = length (attributes_bytes attrs) in
      let typed : StunMessage = record msg { msg_type = msg_type; transaction_id = txn_id } in
      let long : ltb (length buf) 20 ≡ false = ground (arith, size_of) in
      let holds : ltb (length buf) (20 + n) ≡ false = ground (arith, size_of) in
      let is_type : read_u16 buf ≡ msg_type = read-write_u16 msg_type _ (omega arith) in
      let is_len : read_u16 (drop 2 buf) ≡ n = read-write_u16 n _ room in
      let is_id : take 12 (drop 8 buf) ≡ txn_id = take-append 12 txn_id _ id_size in
      let walked =
        walk-attributes_bytes attrs (n + 1) (write_header msg_type n txn_id) rest typed fit
          (omega (arith, length-attributes attrs)) in
      parse_fields buf msg msg_type n (length (write_header msg_type n txn_id)) txn_id _ long
        head_of cookie_of is_type is_len is_id holds (omega (arith, id_size)) walked

-- A binding request that StunBuildBindingRequest writes has 20 bytes, passes StunIsStun and is parsed with
-- its type and its transaction id.
pub parse-build_binding_request :
    (buf_size : ℕ) (txn_id : Option (List ℕ)) (random buf rest : List ℕ) (msg : StunMessage)
    → length (id_or txn_id random) ≡ 12
    → build_binding_request buf_size txn_id random ≡ some buf
    → (length buf ≡ 20)
      × (is_stun (buf ++ rest) ≡ true)
      × (parse (buf ++ rest) msg
          ≡ some (
            true,
            record msg { msg_type = binding_request; transaction_id = id_or txn_id random },
          ))
unfolding build_binding_request attributes_bytes parse_each
parse-build_binding_request buf_size txn_id random buf rest msg id_size built =
    elim (Bool-cases (ltb buf_size 20)) [
      | inl small ↦ absurd (ground arith)
      | inr room ↦
          let id : List ℕ = id_or txn_id random in
          let is_buf : write_header binding_request 0 id ≡ buf = ground arith in
          let sent : buf ++ rest ≡ message binding_request id [] rest =
            ap (λ b. b ++ rest) (sym is_buf) in
          (
            omega (arith, ap length is_buf, id_size),
            ap is_stun sent
                ∙ message-is_stun binding_request id [] rest id_size (omega arith) (omega arith),
            ap (λ b. parse b msg) sent
                ∙ parse-message binding_request id [] rest id_size (omega arith) (omega arith) msg
                    tt,
          )
    ]
