-- ===== src/Wire.antt =====
-- Big-endian fields in byte buffers: the readers and writers of include/hyper_derp/hd_protocol.h,
-- include/hyper_derp/protocol.h, src/hd_protocol.cc and src/stun.cc. A buffer is the list of its
-- bytes; `p + n` is `drop n p`, and `p[i]` past the end, which no caller reads, gives 0.
pub mod RoundTrip
use hyper_derp.Prelude.{
  ℕ, zero, suc, ◌+◌, ◌*◌, ◌/◌, ◌%◌, ◌^◌, ◌<◌, bit_or, List, [], ◌∷◌, get_or, drop, All,
}

-- `static_cast<uint8_t>(v >> k)`.
abbrev pub byte_at : ℕ → ℕ → ℕ
byte_at v k = v / 2 ^ k % 256

-- A buffer of bytes.
abbrev pub IsBytes : List ℕ → Type 0
IsBytes = All (λ b. b < 256)

-- WriteU16, WriteBe16 and the same two stores written out in the frame builders.
abbrev pub write_u16 : ℕ → List ℕ
write_u16 v = byte_at v 8 ∷ byte_at v 0 ∷ []

-- ReadU16, ReadBe16, HdReadMeshDst.
unfoldable pub read_u16 : List ℕ → ℕ
read_u16 p = bit_or (get_or p 0 0 * 2 ^ 8) (get_or p 1 0) % 2 ^ 16

-- The three length bytes of an HD frame header.
abbrev pub write_u24 : ℕ → List ℕ
write_u24 v = byte_at v 16 ∷ byte_at v 8 ∷ byte_at v 0 ∷ []

unfoldable pub read_u24 : List ℕ → ℕ
read_u24 p = bit_or (bit_or (get_or p 0 0 * 2 ^ 16) (get_or p 1 0 * 2 ^ 8)) (get_or p 2 0)

-- WriteBe32 and the length bytes of a DERP frame header.
abbrev pub write_u32 : ℕ → List ℕ
write_u32 v = byte_at v 24 ∷ byte_at v 16 ∷ byte_at v 8 ∷ byte_at v 0 ∷ []

-- ReadBe32, ReadPayloadLen.
unfoldable pub read_u32 : List ℕ → ℕ
read_u32 p =
    bit_or (bit_or (bit_or (get_or p 0 0 * 2 ^ 24) (get_or p 1 0 * 2 ^ 16)) (get_or p 2 0 * 2 ^ 8))
      (get_or p 3 0)

-- WriteU64: `for i in 0..8: p[i] = v >> (56 - i * 8)`, with `k` rounds left.
abbrev pub write_be : ℕ → ℕ → List ℕ
write_be zero v = []
write_be (suc k) v = byte_at v (8 * k) ∷ write_be k v

abbrev pub write_u64 : ℕ → List ℕ
write_u64 v = write_be 8 v

-- ReadU64: `for i in 0..8: v = (v << 8) | p[i]`, on 64 bits.
unfoldable pub read_be : ℕ → ℕ → List ℕ → ℕ
read_be zero v p = v
read_be (suc k) v p = read_be k (bit_or (v * 2 ^ 8 % 2 ^ 64) (get_or p 0 0)) (drop 1 p)

unfoldable pub read_u64 : List ℕ → ℕ
unfolding read_be
read_u64 p = read_be 8 0 p
