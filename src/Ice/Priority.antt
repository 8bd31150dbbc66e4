-- ===== src/Ice/Priority.antt =====
-- The priorities of src/ice.cc against the sums of RFC 8445 that its comments quote.
use hyper_derp.Prelude.{
  ℕ, ◌+◌, ◌-◌, ◌*◌, ◌%◌, ◌^◌, ◌≤◌, ◌<◌, ◌≡◌, min, max, if◌then◌else◌, ltb, arith,
}
use hyper_derp.Prelude.Bits.{bit_or_shifted}
use hyper_derp.Ice.{type_pref, calc_priority, calc_pair_priority}

type_pref-le : (ctype : ℕ) → type_pref ctype ≤ 126
unfolding type_pref
type_pref-le ctype = ground arith

-- IceCalcPriority gives the sum of RFC 8445, below 2^31.
pub calc_priority-sum :
    (ctype local_pref component : ℕ)
    → local_pref < 2 ^ 16
    → 1 ≤ component
    → (calc_priority ctype local_pref component
        ≡ type_pref ctype * 2 ^ 24 + local_pref * 2 ^ 8 + (256 - component))
      × (calc_priority ctype local_pref component < 2 ^ 31)
unfolding calc_priority
calc_priority-sum ctype local_pref component pref comp =
    let t = type_pref ctype in
    let le = type_pref-le ctype in
    let high : t * 2 ^ 24 % 2 ^ 32 ≡ t * 2 ^ 24 = omega (arith, le) in
    let mid : local_pref * 2 ^ 8 % 2 ^ 32 ≡ local_pref * 2 ^ 8 = omega arith in
    let two = bit_or_shifted 24 t (local_pref * 2 ^ 8) (omega arith) in
    let whole : t * 2 ^ 24 + local_pref * 2 ^ 8 ≡ (t * 2 ^ 16 + local_pref) * 2 ^ 8 = omega arith in
    let three = bit_or_shifted 8 (t * 2 ^ 16 + local_pref) (256 - component) (omega arith) in
    let sum : calc_priority ctype local_pref component
        ≡ t * 2 ^ 24 + local_pref * 2 ^ 8 + (256 - component) =
      rw (high, mid, two, whole, three) (omega arith) in
    (sum, omega (arith, sum, le))

-- For priorities below 2^31 IceCalcPairPriority gives the sum of RFC 8445, 2^32*min(G,D) +
-- 2*max(G,D) + (G>D), within 64 bits.
pub calc_pair_priority-sum :
    (g d : ℕ)
    → g < 2 ^ 31
    → d < 2 ^ 31
    → (calc_pair_priority g d ≡ 2 ^ 32 * min g d + 2 * max g d + (if ltb d g then 1 else 0))
      × (calc_pair_priority g d < 2 ^ 64)
unfolding calc_pair_priority
calc_pair_priority-sum g d small_g small_d =
    let lo = min g d in
    let hi = max g d in
    let le : max g d < 2 ^ 31 = omega arith in
    let tie : ℕ = if ltb d g then 1 else 0 in
    let bit : tie < 2 = ground arith in
    let high : lo * 2 ^ 32 % 2 ^ 64 ≡ lo * 2 ^ 32 = omega arith in
    let mid : hi * 2 % 2 ^ 64 ≡ hi * 2 = omega arith in
    let two = bit_or_shifted 32 lo (hi * 2) (omega arith) in
    let whole : lo * 2 ^ 32 + hi * 2 ≡ (lo * 2 ^ 31 + hi) * 2 ^ 1 = omega arith in
    let three = bit_or_shifted 1 (lo * 2 ^ 31 + hi) tie bit in
    let sum : calc_pair_priority g d ≡ 2 ^ 32 * lo + 2 * hi + tie =
      rw (high, mid, two, whole, three) (omega arith) in
    (sum, omega (arith, sum, bit))
