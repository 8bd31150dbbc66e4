-- ===== src/Stun/Errors.antt =====
-- The error response of src/stun.cc, as StunParse reads it.
use hyper_derp.Prelude.{
  ℕ, zero, suc, ◌+◌, ◌-◌, ◌*◌, ◌/◌, ◌%◌, ◌^◌, ◌<◌, ◌≡◌, refl, ap, sym, ◌∙◌, inl, inr, true, false,
  ltb, Option, some, List, [], ◌∷◌, ◌++◌, append_assoc, append-nil, length, take, replicate, arith,
  Bool-cases, bit_and, min,
}
use hyper_derp.Wire.{write_u16}
use hyper_derp.Stun.{
  StunMessage, empty_message, binding_error, attr_error_code, pad_to4, write_header,
  parse_attribute, parse_error_code, parse, reason_bytes, build_error_response,
}
use hyper_derp.Stun.Words.{pad_to4_bounds, error_class}
use hyper_derp.Stun.Walk.{attributes_bytes, length-attribute_bytes, parse_each}
use hyper_derp.Stun.Messages.{message, parse-message}

error_value : ℕ → List ℕ → List ℕ
error_value code text = 0 ∷ 0 ∷ (code / 100 % 256) ∷ (code % 100) ∷ text

-- A response with the lengths `total` and `len` in its fields, and `pad` bytes of padding.
abbrev error_frame : List ℕ → List ℕ → ℕ → ℕ → ℕ → List ℕ
error_frame txn_id value total len pad =
    write_header binding_error total txn_id
    ++ (write_u16 attr_error_code ++ (write_u16 len ++ (value ++ replicate pad 0)))

error_frame_congr :
    (txn_id value : List ℕ) {total total' len len' pad pad' : ℕ}
    → total ≡ total'
    → len ≡ len'
    → pad ≡ pad'
    → error_frame txn_id value total len pad ≡ error_frame txn_id value total' len' pad'
error_frame_congr txn_id value p q r = cc

length-error :
    (value : List ℕ)
    → length value < 65004
    → length (attributes_bytes ((attr_error_code, value) ∷ [])) ≡ 4 + pad_to4 (length value)
unfolding attributes_bytes
length-error value short =
    rw append-nil (length-attribute_bytes attr_error_code value (omega arith))

laid_out :
    (txn_id value rest : List ℕ)
    → error_frame txn_id value
          (length (attributes_bytes ((attr_error_code, value) ∷ [])))
          (length value)
          (pad_to4 (length value) - length value)
        ++ rest
      ≡ message binding_error txn_id ((attr_error_code, value) ∷ []) rest
unfolding attributes_bytes
laid_out txn_id value rest = simp (append_assoc, append-nil)

error-message :
    (buf_size : ℕ) (txn_id : List ℕ) (code : ℕ) (reason : Option (List ℕ)) (buf rest : List ℕ)
    → length (reason_bytes reason) < 65000
    → build_error_response buf_size txn_id code reason ≡ some buf
    → buf ++ rest
      ≡ message binding_error txn_id
          ((attr_error_code, error_value code (reason_bytes reason)) ∷ [])
          rest
unfolding build_error_response error_value
error-message buf_size txn_id code reason buf rest short built =
    let text = reason_bytes reason in
    let value : List ℕ = error_value code text in
    let k = 4 + length text in
    let is_k : k ≡ length value = omega arith in
    let bound = pad_to4_bounds k (omega arith) in
    elim (Bool-cases (ltb buf_size (20 + (4 + pad_to4 k)))) [
      | inl small ↦ absurd (ground arith)
      | inr room ↦
          let is_buf : error_frame txn_id value ((4 + pad_to4 k) % 2 ^ 16) (k % 2 ^ 16)
                (pad_to4 k - k)
              ≡ buf =
            ground arith in
          let total : (4 + pad_to4 k) % 2 ^ 16
              ≡ length (attributes_bytes ((attr_error_code, value) ∷ [])) =
            omega (arith, length-error value, bound, ap pad_to4 is_k) in
          let pads : pad_to4 k - k ≡ pad_to4 (length value) - length value = cc in
          ap (λ b. b ++ rest)
            (sym is_buf ∙ error_frame_congr txn_id value total (omega (arith, is_k)) pads)
          ∙ laid_out txn_id value rest
    ]

take-min {ℓ} : {A : Type ℓ} (n : ℕ) (xs : List A) → take (min (length xs) n) xs ≡ take n xs
take-min zero xs =
    let none_left : min (length xs) 0 ≡ 0 = omega arith in ap (λ k. take k xs) none_left
take-min (suc n) [] =
    let none_left : min 0 (suc n) ≡ 0 = omega arith in ap (λ k. take k []) none_left
take-min (suc n) (x ∷ xs) =
    let down : min (suc (length xs)) (suc n) ≡ suc (min (length xs) n) = omega arith in
    ap (λ k. take k (x ∷ xs)) down ∙ ap (◌∷◌ x) (take-min n xs)

error_lem :
    (code : ℕ) (text : List ℕ) (msg : StunMessage)
    → code < 800
    → msg.error_reason ≡ []
    → (r : StunMessage) × (parse_each ((attr_error_code, error_value code text) ∷ []) msg ≡ r)
      × (r.msg_type ≡ msg.msg_type)
      × (r.transaction_id ≡ msg.transaction_id)
      × (r.has_error ≡ true)
      × (r.error_code ≡ code)
      × (r.error_reason ≡ take 127 text)
unfolding parse_each parse_attribute parse_error_code error_value
error_lem code text msg known clean =
    let num : (bit_and (code / 100 % 256) 0x07 * 100 + code % 100) % 2 ^ 16 ≡ code =
      omega (arith, error_class (code / 100 % 256)) in
    elim (Bool-cases (ltb 0 (length text))) [
      | inl some_text ↦ (
        record msg {
          has_error = true;
          error_code = code;
          error_reason = take (min (length text) 127) text;
          error_reason_len = min (length text) 127;
        },
        ground (arith, num),
        refl,
        refl,
        refl,
        refl,
        take-min 127 text,
      )
      | inr no_text ↦ (
        record msg { has_error = true; error_code = code },
        ground (arith, num),
        refl,
        refl,
        refl,
        refl,
        clean ∙ nothing text no_text,
      )
    ]
  where
    nothing : (xs : List ℕ) → ltb 0 (length xs) ≡ false → [] ≡ take 127 xs
    nothing [] h = refl
    nothing (x ∷ xs) h = absurd (ground arith)

length-error_value : (code : ℕ) (text : List ℕ) → length (error_value code text) ≡ 4 + length text
unfolding error_value
length-error_value code text = omega arith

-- An error response that StunBuildErrorResponse writes is parsed with its type, its transaction
-- id, its error code and the first 127 bytes of its reason, for a code below 800 and a reason
-- below 65000 bytes.
pub parse-build_error_response :
    (buf_size : ℕ) (txn_id : List ℕ) (code : ℕ) (reason : Option (List ℕ)) (buf rest : List ℕ)
    → length txn_id ≡ 12
    → code < 800
    → length (reason_bytes reason) < 65000
    → build_error_response buf_size txn_id code reason ≡ some buf
    → (r : StunMessage) × (parse (buf ++ rest) empty_message ≡ some (true, r))
      × (r.msg_type ≡ binding_error)
      × (r.transaction_id ≡ txn_id)
      × (r.has_error ≡ true)
      × (r.error_code ≡ code)
      × (r.error_reason ≡ take 127 (reason_bytes reason))
parse-build_error_response buf_size txn_id code reason buf rest id_size known short built =
    let value : List ℕ = error_value code (reason_bytes reason) in
    let attrs : List (ℕ × List ℕ) = (attr_error_code, value) ∷ [] in
    let wide = length-error_value code (reason_bytes reason) in
    let bound = pad_to4_bounds (length value) (omega (arith, wide)) in
    let size = length-error value (omega (arith, wide)) in
    let typed : StunMessage = record empty_message {
      msg_type = binding_error;
      transaction_id = txn_id;
    } in
    let (r, read, is_type, is_id, has, is_code, is_reason) =
      error_lem code (reason_bytes reason) typed known refl in
    let parsed =
      parse-message binding_error txn_id attrs rest id_size (omega arith)
        (omega (arith, size, bound, wide)) empty_message ((omega arith, omega (arith, wide)), tt) in
    (
      r,
      ap (λ b. parse b empty_message)
            (error-message buf_size txn_id code reason buf rest short built)
          ∙ parsed
          ∙ ap (λ x. some (true, x)) read,
      is_type,
      is_id,
      has,
      is_code,
      is_reason,
    )
