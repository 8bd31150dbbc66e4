-- ===== src/Peers/Access/Ranges.antt =====
-- Ranges of addresses, ParseCidrV4 and its use in HdPolicyAllows of src/hd_peers.cc.
use hyper_derp.Prelude.{
  ℕ, zero, suc, ◌+◌, ◌-◌, ◌*◌, ◌/◌, ◌%◌, ◌^◌, ◌≤◌, ◌<◌, ◌≡◌, ◌≢◌, refl, ap, sym, ◌∙◌, ◌⊎◌, ◌↔◌, inl,
  inr, true, false, if◌then◌else◌, ltb, leb, ◌==◌, Option, none, some, List, [], ◌∷◌, ◌++◌, All,
  length, arith, Bool-cases, subst, bit_and, take-append, drop-append_add,
}
use native.Mathlib.Nat.{pow-suc, mul-div_cancel, div-mul-le_self}
use hyper_derp.Prelude.Bits.{bit_and-high}
use hyper_derp.Prelude.Slots.{find_index, find_index-append}
use hyper_derp.Peers.Access.{
  is_slash, allows, invalid_ip_range, parse_bits, mask_of, in_range, network, parse_addr,
  parse_cidr_at, parse_cidr_v4, ip_allowed,
}

-- The number that decimal digits write, behind the digits read so far.
abbrev pub number : List ℕ → ℕ → ℕ
number [] so_far = so_far
number (c ∷ cs) so_far = number cs (so_far * 10 + (c - 48))

abbrev pub IsDigits : List ℕ → Type 0
IsDigits digits = All (λ c. (48 ≤ c) × (c ≤ 57)) digits

abbrev pub NoSlash : List ℕ → Type 0
NoSlash text = All (λ c. c ≢ 47) text

-- What htonl does to words: it permutes their bytes.
pub record IsByteOrder (htonl : ℕ → ℕ) : Type 0 where
  pub order_and :
      (x y : ℕ) → x < 2 ^ 32 → y < 2 ^ 32 → bit_and (htonl x) (htonl y) ≡ htonl (bit_and x y)
  pub order_inj : (x y : ℕ) → x < 2 ^ 32 → y < 2 ^ 32 → htonl x ≡ htonl y → x ≡ y

number_grows : (cs : List ℕ) (so_far : ℕ) → so_far ≤ number cs so_far
number_grows [] so_far = omega arith
number_grows (c ∷ cs) so_far = omega (arith, number_grows cs (so_far * 10 + (c - 48)))

parse_bits-number :
    (cs : List ℕ) (so_far : ℕ)
    → IsDigits cs
    → number cs so_far < 2 ^ 32
    → parse_bits cs so_far ≡ some (number cs so_far)
unfolding parse_bits
parse_bits-number [] so_far digits small = refl
parse_bits-number (c ∷ cs) so_far digits small =
    let next = so_far * 10 + (c - 48) in
    let whole : next % 2 ^ 32 ≡ next = omega (arith, number_grows cs next) in
    rw whole (ground (arith, digits.0, parse_bits-number cs next digits.1 small))

NoSlash-find_index : (text : List ℕ) → NoSlash text → find_index is_slash text ≡ none
unfolding find_index
NoSlash-find_index [] h = refl
NoSlash-find_index (c ∷ cs) h = ground (arith, h.0, NoSlash-find_index cs h.1)

mask_of-high : (bits : ℕ) → bits ≤ 32 → mask_of bits ≡ 2 ^ (bits + (32 - bits)) - 2 ^ (32 - bits)
unfolding mask_of
mask_of-high zero h = refl
mask_of-high (suc bits) h =
    let whole : suc bits + (32 - suc bits) ≡ 32 = omega arith in rw whole refl

pow_positive : (k : ℕ) → 0 < 2 ^ k
pow_positive zero = omega arith
pow_positive (suc k) = omega (arith, pow-suc 2 k, pow_positive k)

-- The mask keeps the prefix.
masked :
    (bits x : ℕ)
    → bits ≤ 32
    → x < 2 ^ 32
    → bit_and x (mask_of bits) ≡ x / 2 ^ (32 - bits) * 2 ^ (32 - bits)
masked bits x h small =
    let whole : bits + (32 - bits) ≡ 32 = omega arith in
    ap (bit_and x) (mask_of-high bits h)
    ∙ bit_and-high bits (32 - bits) x (subst (λ (m : ℕ). x < 2 ^ m) (sym whole) small)

module _ (inet_aton : List ℕ → Option ℕ) (htonl : ℕ → ℕ) where
  -- A text with a slash in it.
  pub parse_cidr_v4-slash :
      (addr digits : List ℕ)
      → NoSlash addr
      → parse_cidr_v4 inet_aton htonl (addr ++ (47 ∷ digits))
        ≡ parse_addr inet_aton htonl addr (parse_bits digits 0)
  unfolding parse_cidr_v4 parse_cidr_at
  parse_cidr_v4-slash addr digits plain =
      let at = find_index-append is_slash addr 47 digits (NoSlash-find_index addr plain) refl in
      ap (parse_cidr_at inet_aton htonl (addr ++ (47 ∷ digits))) at
      ∙ rw
          (
            take-append (length addr) addr (47 ∷ digits) refl,
            drop-append_add (length addr) 1 addr (47 ∷ digits) refl,
          )
          refl

  -- The test of an address against a network, by the prefixes.
  in_network-prefix :
      IsByteOrder htonl
      → (bits x a : ℕ) → bits ≤ 32
      → x < 2 ^ 32
      → a < 2 ^ 32
      → (bit_and (htonl x) (htonl (mask_of bits)) ≡ bit_and (htonl a) (htonl (mask_of bits)))
        ↔ (x / 2 ^ (32 - bits) ≡ a / 2 ^ (32 - bits))
  in_network-prefix order bits x a h small small_a = (forth, back)
    where
      part : ℕ
      part = 2 ^ (32 - bits)

      mask_small : mask_of bits < 2 ^ 32
      mask_small =
          let whole : bits + (32 - bits) ≡ 32 = omega arith in
          let top = ap (λ (m : ℕ). 2 ^ m) whole in
          omega (arith, mask_of-high bits h, top, pow_positive (32 - bits))

      cut :
          (y : ℕ) → y < 2 ^ 32 → bit_and (htonl y) (htonl (mask_of bits)) ≡ htonl (y / part * part)
      cut y s = order.order_and y (mask_of bits) s mask_small ∙ ap htonl (masked bits y h s)

      below : (y : ℕ) → y < 2 ^ 32 → y / part * part < 2 ^ 32
      below y s = omega (arith, div-mul-le_self y part)

      positive : 0 < part
      positive = pow_positive (32 - bits)

      forth :
          bit_and (htonl x) (htonl (mask_of bits)) ≡ bit_and (htonl a) (htonl (mask_of bits))
          → x / part ≡ a / part
      forth e =
          let same =
            order.order_inj (x / part * part) (a / part * part) (below x small) (below a small_a)
              (sym (cut x small) ∙ e ∙ cut a small_a) in
          sym (mul-div_cancel (x / part) positive)
          ∙ ap (λ (y : ℕ). y / part) same
          ∙ mul-div_cancel (a / part) positive

      back :
          x / part ≡ a / part
          → bit_and (htonl x) (htonl (mask_of bits)) ≡ bit_and (htonl a) (htonl (mask_of bits))
      back e = cut x small ∙ ap (λ (q : ℕ). htonl (q * part)) e ∙ sym (cut a small_a)

  -- A range that is set, for an address that is known.
  pub ranged :
      (addr rest : List ℕ) (ip : ℕ)
      → ip_allowed inet_aton htonl (addr ++ (47 ∷ rest)) ip ≡ (
          if ip == 0
          then allows
          else in_range ip (parse_cidr_v4 inet_aton htonl (addr ++ (47 ∷ rest))))
  unfolding ip_allowed
  ranged [] rest ip = refl
  ranged (c ∷ cs) rest ip = refl

  pub parsed :
      (addr digits : List ℕ)
      → NoSlash addr
      → IsDigits digits
      → number digits 0 < 2 ^ 31
      → parse_cidr_v4 inet_aton htonl (addr ++ (47 ∷ digits)) ≡ (
          if ltb 32 (number digits 0)
          then none
          else network inet_aton htonl (number digits 0) (inet_aton addr))
  unfolding parse_addr
  parsed addr digits plain decimal small =
      let nonnegative : leb (2 ^ 31) (number digits 0) ≡ false = ground arith in
      parse_cidr_v4-slash addr digits plain
      ∙ ap (parse_addr inet_aton htonl addr) (parse_bits-number digits 0 decimal (omega arith))
      ∙ rw nonnegative refl

  -- The test on a network that was read.
  in_range-network :
      IsByteOrder htonl
      → (bits x a : ℕ) → bits ≤ 32
      → x < 2 ^ 32
      → a < 2 ^ 32
      → (in_range (htonl x) (network inet_aton htonl bits (some (htonl a))) ≡ allows)
        ↔ (x / 2 ^ (32 - bits) ≡ a / 2 ^ (32 - bits))
  unfolding in_range network
  in_range-network order bits x a h small small_a =
      let same = in_network-prefix order bits x a h small small_a in
      (λ e. same.0 (ground arith), λ e. let hit = same.1 e in ground arith)

  -- A range of an address, a slash and decimal digits lets an address pass that is 0 or shares
  -- the prefix, which has at most 32 bits.
  pub ip_allowed-prefix :
      IsByteOrder htonl
      → (addr digits : List ℕ) (x a : ℕ) → NoSlash addr
      → IsDigits digits
      → number digits 0 < 2 ^ 31
      → x < 2 ^ 32
      → a < 2 ^ 32
      → inet_aton addr ≡ some (htonl a)
      → (ip_allowed inet_aton htonl (addr ++ (47 ∷ digits)) (htonl x) ≡ allows) ↔ (
          (htonl x ≡ 0)
          ⊎ ((number digits 0 ≤ 32)
              × (x / 2 ^ (32 - number digits 0) ≡ a / 2 ^ (32 - number digits 0))))
  unfolding in_range
  ip_allowed-prefix order addr digits x a plain decimal small small_x small_a known =
      elim (Bool-cases (htonl x == 0)) [
        | inl zero_ip ↦ ((λ e. inl (ground arith)), λ m. run ∙ rw zero_ip refl)
        | inr some_ip ↦ elim (Bool-cases (ltb 32 bits)) [
          | inl long ↦
              let refused : ip_allowed inet_aton htonl (addr ++ (47 ∷ digits)) (htonl x)
                  ≡ invalid_ip_range =
                run ∙ rw (some_ip, long) refl in
              ((λ e. absurd (distinct (sym refused ∙ e))), λ m. absurd (neither some_ip long m))
          | inr short ↦
              let tested : ip_allowed inet_aton htonl (addr ++ (47 ∷ digits)) (htonl x)
                  ≡ in_range (htonl x) (network inet_aton htonl bits (some (htonl a))) =
                run ∙ rw (some_ip, short, known) refl in
              let same = in_range-network order bits x a (ground arith) small_x small_a in
              (
                (λ e. inr (ground arith, same.0 (sym tested ∙ e))),
                λ m. tested ∙ same.1 (prefix some_ip m),
              )
        ]
      ]
    where
      bits : ℕ
      bits = number digits 0

      run : ip_allowed inet_aton htonl (addr ++ (47 ∷ digits)) (htonl x) ≡ (
          if htonl x == 0
          then allows
          else in_range
              (htonl x)
              (if ltb 32 bits then none else network inet_aton htonl bits (inet_aton addr)))
      run =
          ranged addr digits (htonl x)
          ∙ ap (λ o. if htonl x == 0 then allows else in_range (htonl x) o)
              (parsed addr digits plain decimal small)

      distinct : invalid_ip_range ≢ allows
      distinct e = cc

      neither :
          (htonl x == 0) ≡ false
          → ltb 32 bits ≡ true
          → ¬ ((htonl x ≡ 0) ⊎ ((bits ≤ 32) × (x / 2 ^ (32 - bits) ≡ a / 2 ^ (32 - bits))))
      neither some_ip long (inl e) = absurd (ground arith)
      neither some_ip long (inr m) = let within = m.0 in absurd (ground arith)

      prefix :
          (htonl x == 0) ≡ false
          → ((htonl x ≡ 0) ⊎ ((bits ≤ 32) × (x / 2 ^ (32 - bits) ≡ a / 2 ^ (32 - bits))))
          → x / 2 ^ (32 - bits) ≡ a / 2 ^ (32 - bits)
      prefix some_ip (inl e) = absurd (ground arith)
      prefix some_ip (inr m) = m.1
