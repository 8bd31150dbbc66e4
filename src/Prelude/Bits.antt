-- ===== src/Prelude/Bits.antt =====
-- Facts about `bit_and` and `bit_or` at variables: the two low bits of an `and`, which the
-- routing-mode masks need, and an `or` of disjoint bits, which the byte readers need.
use Prim.Native.Nat.{
  ℕ, zero, suc, ◌+◌, ◌-◌, ◌*◌, ◌/◌, ◌%◌, ◌^◌, ◌≤◌, ◌<◌, min, max, bit_and, bit_or, digits, bit_xor,
  bit_and-bitwise, bit_or-bitwise, bit_xor-bitwise, differ,
}
use mathlib.Core.Path.{◌≡◌, refl, ap, sym, subst, ◌∙◌}
use native.Mathlib.Nat.{pow-suc, div-div-eq-div-mul}
use native.Mathlib.Omega.{arith}

-- An operation on words given by what it does to the single digits `f`, and by `z` where the left
-- word has run out.
module _ (z : ℕ → ℕ) (f : ℕ → ℕ → ℕ) where
  exhausted : (rounds y : ℕ) → digits z f rounds 0 y ≡ z y
  exhausted zero y = refl
  exhausted (suc rounds) y = refl

  -- Rounds that are left over once the left word is used up.
  spare_rounds :
      (many enough x y : ℕ)
      → x ≤ enough
      → enough ≤ many
      → digits z f many x y ≡ digits z f enough x y
  spare_rounds (suc many) (suc enough) (suc x) y fits more =
      ap (λ high. high * 2 + f (suc x % 2) (y % 2))
        (spare_rounds many enough (suc x / 2) (y / 2) (omega arith) (omega arith))
  spare_rounds (suc many) (suc enough) zero y fits more = refl
  spare_rounds zero (suc enough) x y fits more = absurd (omega arith)
  spare_rounds many zero (suc x) y fits more = absurd (omega arith)
  spare_rounds many zero zero y fits more = exhausted many y

  module _ (op : ℕ → ℕ → ℕ) (meaning : (x y : ℕ) → op x y ≡ digits z f x x y)
      (used_up : (y : ℕ) → z y ≡ z (y / 2) * 2 + f 0 (y % 2)) where
    -- The lowest digits apart from the others.
    lowest : (x y : ℕ) → op x y ≡ op (x / 2) (y / 2) * 2 + f (x % 2) (y % 2)
    lowest zero y =
        meaning 0 y ∙ used_up y ∙ ap (λ high. high * 2 + f 0 (y % 2)) (sym (meaning 0 (y / 2)))
    lowest (suc x) y =
        let half = suc x / 2 in
        let enough = spare_rounds x half half (y / 2) (omega arith) (omega arith) in
        meaning (suc x) y
        ∙ ap (λ high. high * 2 + f (suc x % 2) (y % 2)) (enough ∙ sym (meaning half (y / 2)))

-- The two operations by their lowest digits.
pub bit_and_step : (x y : ℕ) → bit_and x y ≡ bit_and (x / 2) (y / 2) * 2 + min (x % 2) (y % 2)
bit_and_step = lowest (λ y. 0) min bit_and bit_and-bitwise (λ y. omega arith)

pub bit_or_step : (x y : ℕ) → bit_or x y ≡ bit_or (x / 2) (y / 2) * 2 + max (x % 2) (y % 2)
bit_or_step = lowest (λ y. y) max bit_or bit_or-bitwise (λ y. omega arith)

pub bit_xor_step : (x y : ℕ) → bit_xor x y ≡ bit_xor (x / 2) (y / 2) * 2 + differ (x % 2) (y % 2)
bit_xor_step = lowest (λ y. y) differ bit_xor bit_xor-bitwise (λ y. ground arith)

-- Bit 0 and bit 1 of a word.
abbrev pub bit0 : ℕ → ℕ
bit0 a = a % 2

abbrev pub bit1 : ℕ → ℕ
bit1 a = a / 2 % 2

pub bit0-and : (a b : ℕ) → bit0 (bit_and a b) ≡ min (bit0 a) (bit0 b)
bit0-and a b = omega (arith, bit_and_step a b)

pub bit1-and : (a b : ℕ) → bit1 (bit_and a b) ≡ min (bit1 a) (bit1 b)
bit1-and a b = omega (arith, bit_and_step a b, bit_and_step (a / 2) (b / 2))

and_nothing_below : (bound word : ℕ) → word < bound → bit_and word 0 ≡ 0
and_nothing_below zero word lt = absurd (omega arith)
and_nothing_below (suc bound) zero lt = bit_and-bitwise 0 0
and_nothing_below (suc bound) (suc word) lt =
    let half = and_nothing_below bound (suc word / 2) (omega arith) in
    omega (arith, half, bit_and_step (suc word) 0)

pub bit_and-zero : (word : ℕ) → bit_and word 0 ≡ 0
bit_and-zero word = and_nothing_below (suc word) word (omega arith)

or_nothing_below : (bound word : ℕ) → word < bound → bit_or word 0 ≡ word
or_nothing_below zero word lt = absurd (omega arith)
or_nothing_below (suc bound) zero lt = bit_or-bitwise 0 0
or_nothing_below (suc bound) (suc word) lt =
    let half = or_nothing_below bound (suc word / 2) (omega arith) in
    omega (arith, half, bit_or_step (suc word) 0)

pub bit_or-zero : (word : ℕ) → bit_or word 0 ≡ word
bit_or-zero word = or_nothing_below (suc word) word (omega arith)

-- A mask with one of the two low bits, or with both.
pub bit_and-one : (a : ℕ) → bit_and a 1 ≡ bit0 a
bit_and-one a = omega (arith, bit_and_step a 1, bit_and-zero (a / 2))

pub bit_and-two : (a : ℕ) → bit_and a 2 ≡ bit1 a * 2
bit_and-two a = omega (arith, bit_and_step a 2, bit_and-one (a / 2))

pub bit_and-three : (a : ℕ) → bit_and a 3 ≡ bit1 a * 2 + bit0 a
bit_and-three a = omega (arith, bit_and_step a 3, bit_and-one (a / 2))

-- `(a << k) | b` is a sum when `b` fits `k` bits.
pub bit_or_shifted : (k a b : ℕ) → b < 2 ^ k → bit_or (a * 2 ^ k) b ≡ a * 2 ^ k + b
bit_or_shifted zero a b h = ground (arith, bit_or-zero a)
bit_or_shifted (suc k) a b h = ground (
  arith,
  bit_or_step (a * 2 ^ suc k) b,
  twice,
  bit_or_shifted k a (b / 2) (omega (arith, pow-suc 2 k)),
)
  where
    twice : a * 2 ^ suc k ≡ 2 * (a * 2 ^ k)
    twice = omega (arith, ap (λ (t : ℕ). a * t) (pow-suc 2 k))

-- A mask of the `n` lowest bits on a word of at most `n` bits.
pub bit_and-ones : (n x : ℕ) → x < 2 ^ n → bit_and x (2 ^ n - 1) ≡ x
bit_and-ones zero x h = omega (arith, bit_and-zero x)
bit_and-ones (suc n) x h =
    let half : (2 ^ suc n - 1) / 2 ≡ 2 ^ n - 1 = omega (arith, pow-suc 2 n, pos_pow n) in
    let odd : (2 ^ suc n - 1) % 2 ≡ 1 = omega (arith, pow-suc 2 n, pos_pow n) in
    let rest : bit_and (x / 2) ((2 ^ suc n - 1) / 2) ≡ x / 2 =
      rw half (bit_and-ones n (x / 2) (omega (arith, pow-suc 2 n))) in
    omega (arith, bit_and_step x (2 ^ suc n - 1), rest, odd)
  where
    pos_pow : (k : ℕ) → 0 < 2 ^ k
    pos_pow zero = omega arith
    pos_pow (suc k) = omega (arith, pow-suc 2 k, pos_pow k)

differ_digits : (a b : ℕ) → a < 2 → b < 2 → differ a b ≡ (a + b) % 2
differ_digits zero b h k = omega arith
differ_digits (suc zero) zero h k = refl
differ_digits (suc zero) (suc zero) h k = refl
differ_digits (suc zero) (suc (suc b)) h k = absurd (omega arith)
differ_digits (suc (suc a)) b h k = absurd (omega arith)

-- The lowest digit of an exclusive or, by arithmetic.
xor_digit : (a b : ℕ) → bit_xor a b ≡ bit_xor (a / 2) (b / 2) * 2 + (a % 2 + b % 2) % 2
xor_digit a b = omega (arith, bit_xor_step a b, differ_digits (a % 2) (b % 2))

pub bit_xor_lt : (n a b : ℕ) → a < 2 ^ n → b < 2 ^ n → bit_xor a b < 2 ^ n
bit_xor_lt zero a b h k =
    let p : a ≡ 0 = omega arith in
    let q : b ≡ 0 = omega arith in rw (p, q) (omega (arith, bit_xor-bitwise 0 0))
bit_xor_lt (suc n) a b h k = omega (arith, xor_digit a b, bit_xor_lt n (a / 2) (b / 2), pow-suc 2 n)

-- An exclusive or with the same word twice.
pub bit_xor_twice : (n a b : ℕ) → a < 2 ^ n → b < 2 ^ n → bit_xor (bit_xor a b) b ≡ a
bit_xor_twice zero a b h k =
    let p : a ≡ 0 = omega arith in
    let q : b ≡ 0 = omega arith in
    rw (p, q) (ap (λ x. bit_xor x 0) (bit_xor-bitwise 0 0) ∙ bit_xor-bitwise 0 0)
bit_xor_twice (suc n) a b h k =
    let x = bit_xor a b in
    let high : x / 2 ≡ bit_xor (a / 2) (b / 2) = omega (arith, xor_digit a b) in
    let rest : bit_xor (x / 2) (b / 2) ≡ a / 2 =
      rw high (
        bit_xor_twice n (a / 2) (b / 2) (omega (arith, pow-suc 2 n))
          (omega (arith, pow-suc 2 n))) in
    omega (arith, xor_digit x b, xor_digit a b, rest)

-- A mask that leaves out the `k` lowest bits of a word of `n + k` bits.
pub bit_and-high :
    (n k x : ℕ) → x < 2 ^ (n + k) → bit_and x (2 ^ (n + k) - 2 ^ k) ≡ x / 2 ^ k * 2 ^ k
bit_and-high n zero x h =
    let plain : n + 0 ≡ n = omega arith in
    let kept : x / 1 * 1 ≡ x = omega arith in
    ap (λ (m : ℕ). bit_and x (2 ^ m - 1)) plain
    ∙ bit_and-ones n x (subst (λ (m : ℕ). x < 2 ^ m) plain h)
    ∙ sym kept
bit_and-high n (suc k) x h =
    let whole = 2 ^ (n + k) in
    let part = 2 ^ k in
    let mask = 2 ^ (n + suc k) - 2 ^ suc k in
    let shift : n + suc k ≡ suc (n + k) = omega arith in
    let twice : 2 ^ (n + suc k) ≡ whole * 2 = ap (λ (m : ℕ). 2 ^ m) shift ∙ pow-suc 2 (n + k) in
    let double : 2 ^ suc k ≡ part * 2 = pow-suc 2 k in
    let half : mask / 2 ≡ whole - part = omega (arith, twice, double) in
    let even : mask % 2 ≡ 0 = omega (arith, twice, double) in
    let rest : bit_and (x / 2) (mask / 2) ≡ x / 2 / part * part =
      rw half (bit_and-high n k (x / 2) (omega (arith, twice))) in
    let nested : x / 2 / part ≡ x / 2 ^ suc k =
      div-div-eq-div-mul x 2 part ∙ ap (λ (d : ℕ). x / d) (omega (arith, double)) in
    let regroup : x / 2 ^ suc k * 2 ^ suc k ≡ x / 2 ^ suc k * part * 2 =
      ap (λ (d : ℕ). x / 2 ^ suc k * d) double ∙ omega arith in
    omega (arith, bit_and_step x mask, rest, even, ap (λ (q : ℕ). q * part) nested, regroup)
