-- ===== src/Wire/RoundTrip.antt =====
-- Reading back what was written, for every width.
use hyper_derp.Prelude.{
  ℕ, suc, ◌+◌, ◌*◌, ◌/◌, ◌%◌, ◌^◌, ◌<◌, ◌≡◌, ap, ◌∙◌, bit_or, List, ◌∷◌, ◌++◌, arith,
}
use hyper_derp.Prelude.Bits.{bit_or_shifted}
use hyper_derp.Wire.{
  byte_at, write_u16, read_u16, write_u24, read_u24, write_u32, read_u32, write_u64, read_u64,
  read_be, write_be,
}

-- One byte put below the bits of a word.
or_byte : (a v k : ℕ) → bit_or (a * 2 ^ 8) (byte_at v k) ≡ a * 2 ^ 8 + byte_at v k
or_byte a v k = bit_or_shifted 8 a (byte_at v k) (omega arith)

pub read-write_u16 : (v : ℕ) (rest : List ℕ) → v < 2 ^ 16 → read_u16 (write_u16 v ++ rest) ≡ v
unfolding read_u16
read-write_u16 v rest h = omega (arith, or_byte (byte_at v 8) v 0)

-- Whatever the word, the low sixteen bits are what is read back.
pub read-write_u16_wrapped : (v : ℕ) (rest : List ℕ) → read_u16 (write_u16 v ++ rest) ≡ v % 2 ^ 16
unfolding read_u16
read-write_u16_wrapped v rest = omega (arith, or_byte (byte_at v 8) v 0)

-- A byte put into a word whose low eight bits are clear.
or_low : (x q v k : ℕ) → x ≡ q * 2 ^ 8 → bit_or x (byte_at v k) ≡ x + byte_at v k
or_low x q v k e = rw e (or_byte q v k)

pub read-write_u24 : (v : ℕ) (rest : List ℕ) → v < 2 ^ 24 → read_u24 (write_u24 v ++ rest) ≡ v
unfolding read_u24
read-write_u24 v rest h =
    let two = bit_or_shifted 16 (byte_at v 16) (byte_at v 8 * 2 ^ 8) (omega arith) in
    omega (
      arith,
      two,
      or_low (bit_or (byte_at v 16 * 2 ^ 16) (byte_at v 8 * 2 ^ 8))
          (byte_at v 16 * 2 ^ 8 + byte_at v 8) v 0 (omega (arith, two)),
    )

-- The four-byte readers give the word modulo 2 ^ 32, also where the writer truncated a longer one.
pub read-write_u32_wrapped : (v : ℕ) (rest : List ℕ) → read_u32 (write_u32 v ++ rest) ≡ v % 2 ^ 32
unfolding read_u32
read-write_u32_wrapped v rest =
    let a = byte_at v 24 in
    let b = byte_at v 16 in
    let c = byte_at v 8 in
    let two = bit_or_shifted 24 a (b * 2 ^ 16) (omega arith) in
    let x = bit_or (a * 2 ^ 24) (b * 2 ^ 16) in
    let three : bit_or x (c * 2 ^ 8) ≡ x + c * 2 ^ 8 =
      rw (x-multiple a b c two) (bit_or_shifted 16 (a * 2 ^ 8 + b) (c * 2 ^ 8) (omega arith)) in
    omega (
      arith,
      two,
      three,
      or_low (bit_or x (c * 2 ^ 8)) (a * 2 ^ 16 + b * 2 ^ 8 + c) v 0 (omega (arith, two, three)),
    )
  where
    x-multiple :
        (a b c : ℕ)
        → bit_or (a * 2 ^ 24) (b * 2 ^ 16) ≡ a * 2 ^ 24 + b * 2 ^ 16
        → bit_or (a * 2 ^ 24) (b * 2 ^ 16) ≡ (a * 2 ^ 8 + b) * 2 ^ 16
    x-multiple a b c e = omega (arith, e)

pub read-write_u32 : (v : ℕ) (rest : List ℕ) → v < 2 ^ 32 → read_u32 (write_u32 v ++ rest) ≡ v
read-write_u32 v rest h = omega (arith, read-write_u32_wrapped v rest)

-- One round of the 64-bit reader, where the value so far leaves room for a byte.
read_be_round :
    (k x y v j : ℕ) (rest : List ℕ)
    → x < 2 ^ 56
    → x * 2 ^ 8 + byte_at v j ≡ y
    → read_be (suc k) x (byte_at v j ∷ rest) ≡ read_be k y rest
unfolding read_be
read_be_round k x y v j rest h e = ap (λ z. read_be k z rest) (rw (fits h) (or_byte x v j ∙ e))
  where
    fits : x < 2 ^ 56 → x * 2 ^ 8 % 2 ^ 64 ≡ x * 2 ^ 8
    fits h = omega arith

-- The value after each round is `v` without the bits that are still to come.
pub read-write_u64 : (v : ℕ) (rest : List ℕ) → v < 2 ^ 64 → read_u64 (write_u64 v ++ rest) ≡ v
unfolding read_u64
read-write_u64 v rest h =
    read_be_round 7 0 (v / 2 ^ 56) v 56 (write_be 7 v ++ rest) (omega arith) (omega arith)
    ∙ read_be_round 6 (v / 2 ^ 56) (v / 2 ^ 48) v 48 (write_be 6 v ++ rest) (omega arith)
        (omega arith)
    ∙ read_be_round 5 (v / 2 ^ 48) (v / 2 ^ 40) v 40 (write_be 5 v ++ rest) (omega arith)
        (omega arith)
    ∙ read_be_round 4 (v / 2 ^ 40) (v / 2 ^ 32) v 32 (write_be 4 v ++ rest) (omega arith)
        (omega arith)
    ∙ read_be_round 3 (v / 2 ^ 32) (v / 2 ^ 24) v 24 (write_be 3 v ++ rest) (omega arith)
        (omega arith)
    ∙ read_be_round 2 (v / 2 ^ 24) (v / 2 ^ 16) v 16 (write_be 2 v ++ rest) (omega arith)
        (omega arith)
    ∙ read_be_round 1 (v / 2 ^ 16) (v / 2 ^ 8) v 8 (write_be 1 v ++ rest) (omega arith)
        (omega arith)
    ∙ read_be_round 0 (v / 2 ^ 8) v v 0 rest (omega arith) (omega arith)
