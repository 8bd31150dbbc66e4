-- ===== src/Stun/Walk.antt =====
-- The walk of StunParse over the attributes, src/stun.cc, against the sequence that was written.
use hyper_derp.Prelude.{
  ℕ, zero, suc, ◌+◌, ◌-◌, ◌^◌, ◌≤◌, ◌<◌, ◌≡◌, refl, ap, sym, ◌∙◌, inl, inr, Bool, true, false, ltb,
  leb, none, some, List, [], ◌∷◌, ◌++◌, append_assoc, length, take, drop, replicate, All,
  length-append, length-replicate, take-append, drop-append, drop-append_add, arith, Bool-cases,
  Option-cases,
}
use hyper_derp.Wire.{write_u16, read_u16}
use hyper_derp.Wire.RoundTrip.{read-write_u16}
use hyper_derp.Stun.{StunMessage, pad_to4, parse_attribute, walk, parse, parse_attributes}
use hyper_derp.Stun.Words.{pad_to4_bounds}

-- Each round moves the offset by four at least, so that fuel above what is left of the message
-- is enough.
pub walk_ends :
    (fuel : ℕ) (buf : List ℕ) (offset end : ℕ) (msg : StunMessage)
    → 0 < fuel
    → end < offset + fuel
    → (r : StunMessage) × (walk fuel buf offset end msg ≡ some r)
unfolding walk
walk_ends zero buf offset end msg pos h = absurd (omega arith)
walk_ends (suc fuel) buf offset end msg pos h = elim (Bool-cases (leb (offset + 4) end)) [
  | inr over ↦ (msg, rw over refl)
  | inl more ↦
      let attr_len = read_u16 (drop (offset + 2) buf) in
      elim (Bool-cases (ltb end (offset + 4 + attr_len))) [
        | inl cut ↦ (msg, rw (more, cut) refl)
        | inr whole ↦
            let next = offset + 4 + pad_to4 attr_len in
            let msg' =
              parse_attribute (read_u16 (drop offset buf)) attr_len
                (take attr_len (drop (offset + 4) buf)) msg in
            let (r, e) = walk_ends fuel buf next end msg' (ground arith) (ground arith) in
            (r, rw (more, whole) e)
      ]
]

-- StunParse returns on every buffer: the fuel of the walk over the attributes, one round more than
-- the payload has bytes, never runs out.
pub parse_ends :
    (buf : List ℕ) (msg : StunMessage) → (r : Bool × StunMessage) × (parse buf msg ≡ some r)
unfolding parse
parse_ends buf msg = elim (Option-cases (parse buf msg)) [
  | inr (r, e) ↦ (r, e)
  | inl e ↦ absurd (never e)
]
  where
    started : (n : ℕ) (typed : StunMessage) → parse_attributes buf n typed ≡ none → ⊥
    started n typed e =
        let (r, done) = walk_ends (n + 1) buf 20 (20 + n) typed (omega arith) (omega arith) in cc

    never : parse buf msg ≡ none → ⊥
    never e = ground (
      arith,
      started (read_u16 (drop 2 buf))
          (record msg { msg_type = read_u16 buf; transaction_id = take 12 (drop 8 buf) }),
    )

-- An attribute, its type and its value, as the builders lay it out.
abbrev pub attribute_bytes : ℕ × List ℕ → List ℕ
attribute_bytes (t, v) =
    write_u16 t ++ (write_u16 (length v) ++ (v ++ replicate (pad_to4 (length v) - length v) 0))

unfoldable pub attributes_bytes : List (ℕ × List ℕ) → List ℕ
attributes_bytes [] = []
attributes_bytes (a ∷ rest) = attribute_bytes a ++ attributes_bytes rest

-- The attributes taken into a message one after the other.
unfoldable pub parse_each : List (ℕ × List ℕ) → StunMessage → StunMessage
parse_each [] msg = msg
parse_each (a ∷ rest) msg = parse_each rest (parse_attribute a.0 (length a.1) a.1 msg)

-- Attributes whose type and length fit their fields.
abbrev pub Fit : List (ℕ × List ℕ) → Type 0
Fit = All (λ a. (a.0 < 2 ^ 16) × (length a.1 < 2 ^ 16))

-- One round of the loop, where it reads `t`, `len` and `val`.
walk_round :
    (fuel : ℕ) (buf : List ℕ) (offset end : ℕ) (msg : StunMessage) (t len : ℕ) (val : List ℕ)
    → read_u16 (drop offset buf) ≡ t
    → read_u16 (drop (offset + 2) buf) ≡ len
    → take len (drop (offset + 4) buf) ≡ val
    → offset + 4 + len ≤ end
    → walk (suc fuel) buf offset end msg
      ≡ walk fuel buf (offset + 4 + pad_to4 len) end (parse_attribute t len val msg)
unfolding walk
walk_round fuel buf offset end msg t len val is_type is_len is_val fits =
    let more : leb (offset + 4) end ≡ true = ground arith in
    let whole : ltb end (offset + 4 + len) ≡ false = ground arith in
    rw (is_type, is_len, is_val, more, whole) refl

abbrev written : List ℕ → ℕ → List ℕ → List ℕ → List ℕ
written pre t v tail = pre ++ (write_u16 t ++ (write_u16 (length v) ++ (v ++ tail)))

module _ (pre : List ℕ) (t : ℕ) (v tail : List ℕ) (fits_type : t < 2 ^ 16)
    (fits_len : length v < 2 ^ 16) where
  type_at : read_u16 (drop (length pre) (written pre t v tail)) ≡ t
  type_at =
      ap read_u16 (drop-append (length pre) pre _ refl)
      ∙ read-write_u16 t (write_u16 (length v) ++ (v ++ tail)) fits_type

  len_at : read_u16 (drop (length pre + 2) (written pre t v tail)) ≡ length v
  len_at =
      ap read_u16 (drop-append_add (length pre) 2 pre _ refl)
      ∙ read-write_u16 (length v) (v ++ tail) fits_len

  value_at : take (length v) (drop (length pre + 4) (written pre t v tail)) ≡ v
  value_at =
      ap (take (length v)) (drop-append_add (length pre) 4 pre _ refl)
      ∙ take-append (length v) v tail refl

  walk_step :
      (fuel end : ℕ) (msg : StunMessage)
      → length pre + 4 + length v ≤ end
      → walk (suc fuel) (written pre t v tail) (length pre) end msg
        ≡ walk fuel
            (written pre t v tail)
            (length pre + 4 + pad_to4 (length v))
            end
            (parse_attribute t (length v) v msg)
  walk_step fuel end msg h =
      walk_round fuel (written pre t v tail) (length pre) end msg t (length v) v type_at len_at
        value_at h

pub length-attribute_bytes :
    (t : ℕ) (v : List ℕ)
    → length v < 2 ^ 16
    → length (attribute_bytes (t, v)) ≡ 4 + pad_to4 (length v)
length-attribute_bytes t v fits = omega (
  arith,
  length-append v (replicate (pad_to4 (length v) - length v) 0),
  length-replicate {A = ℕ} (pad_to4 (length v) - length v) 0,
  pad_to4_bounds (length v),
)

walk_done :
    (fuel : ℕ) (buf : List ℕ) (offset end : ℕ) (msg : StunMessage)
    → end < offset + 4
    → walk (suc fuel) buf offset end msg ≡ some msg
unfolding walk
walk_done fuel buf offset end msg over =
    let none_left : leb (offset + 4) end ≡ false = ground arith in rw none_left refl

walk_congr :
    (fuel : ℕ) {buf buf' : List ℕ} {offset offset' end end' : ℕ} (msg : StunMessage)
    → buf ≡ buf'
    → offset ≡ offset'
    → end ≡ end'
    → walk fuel buf offset end msg ≡ walk fuel buf' offset' end' msg
walk_congr fuel msg p q r = cc

-- The walk over attributes that were written one after the other takes each of them, in order.
pub walk-attributes_bytes :
    (attrs : List (ℕ × List ℕ)) (fuel : ℕ) (pre rest : List ℕ) (msg : StunMessage)
    → Fit attrs
    → length attrs < fuel
    → walk fuel
        (pre ++ (attributes_bytes attrs ++ rest))
        (length pre)
        (length pre + length (attributes_bytes attrs))
        msg
      ≡ some (parse_each attrs msg)
unfolding attributes_bytes parse_each
walk-attributes_bytes [] zero pre rest msg fits enough = absurd (omega arith)
walk-attributes_bytes [] (suc fuel) pre rest msg fits enough =
    walk_done fuel (pre ++ rest) (length pre) (length pre + 0) msg (omega arith)
walk-attributes_bytes (a ∷ attrs) zero pre rest msg fits enough = absurd (omega arith)
walk-attributes_bytes ((t, v) ∷ attrs) (suc fuel) pre rest msg fits enough =
    let pad : List ℕ = replicate (pad_to4 (length v) - length v) 0 in
    let tail : List ℕ = pad ++ (attributes_bytes attrs ++ rest) in
    let next : List ℕ = pre ++ attribute_bytes (t, v) in
    let end = length pre + length (attributes_bytes ((t, v) ∷ attrs)) in
    let one = length-attribute_bytes t v fits.0.1 in
    let bound = pad_to4_bounds (length v) (omega arith) in
    let here : length next ≡ length pre + 4 + pad_to4 (length v) =
      omega (arith, length-append pre (attribute_bytes (t, v)), one) in
    let there : end ≡ length next + length (attributes_bytes attrs) =
      omega (arith, length-append (attribute_bytes (t, v)) (attributes_bytes attrs), here, one) in
    walk_congr (suc fuel) {buf' = written pre t v tail} msg (simp append_assoc) refl refl
    ∙ walk_step pre t v tail fits.0.0 fits.0.1 fuel end msg (omega (arith, there, here, bound))
    ∙ walk_congr fuel {buf' = next ++ (attributes_bytes attrs ++ rest)}
        (parse_attribute t (length v) v msg) (simp append_assoc) (sym here) there
    ∙ walk-attributes_bytes attrs fuel next rest (parse_attribute t (length v) v msg) fits.1
        (omega arith)
