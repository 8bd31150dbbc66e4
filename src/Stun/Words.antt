-- ===== src/Stun/Words.antt =====
-- The numbers of src/stun.cc: the padding to four bytes and the class of an error code.
use hyper_derp.Prelude.{ℕ, ◌+◌, ◌-◌, ◌*◌, ◌/◌, ◌^◌, ◌≤◌, ◌<◌, ◌≡◌, bit_and, arith}
use hyper_derp.Prelude.Bits.{bit_and_step, bit_and-ones}
use hyper_derp.Stun.{pad_to4}

-- PadTo4 rounds up to a multiple of four.
pub pad_to4_lem : (len : ℕ) → len < 2 ^ 31 → pad_to4 len ≡ (len + 3) / 4 * 4
unfolding pad_to4
pad_to4_lem len h =
    let x = len + 3 in
    let top = bit_and-ones 30 (x / 2 / 2) (omega arith) in
    omega (arith, bit_and_step x (2 ^ 32 - 4), bit_and_step (x / 2) ((2 ^ 32 - 4) / 2), top)

pub pad_to4_bounds : (len : ℕ) → len < 2 ^ 31 → (len ≤ pad_to4 len) × (pad_to4 len ≤ len + 3)
pad_to4_bounds len h = omega (arith, pad_to4_lem len h)

pub error_class : (c : ℕ) → c < 8 → bit_and c 0x07 ≡ c
error_class c h = bit_and-ones 3 c h
