-- ===== src/Peers/Access/Enrolling.antt =====
-- HdPolicyAllows of src/hd_peers.cc: exactly whom it lets enroll, and a range without a length.
use hyper_derp.Prelude.{
  ℕ, zero, suc, ◌-◌, ◌/◌, ◌^◌, ◌≤◌, ◌<◌, ◌≡◌, refl, ap, sym, ◌∙◌, ◌⊎◌, ◌↔◌, inl, inr, Bool, true,
  false, not, if◌then◌else◌, ◌==◌, Option, some, List, [], ◌∷◌, ◌++◌, drop, arith,
}
use hyper_derp.Prelude.Int.{ℤ, pos, negsuc}
use hyper_derp.Prelude.Bits.{bit_and-zero}
use hyper_derp.Peers.Access.{
  allows, Verdict, HdEnrollPolicy, at_capacity, key_allowed, in_range, ip_allowed, policy_allows,
  network, mask_of, max_peers_exceeded, key_not_allowed,
}
use hyper_derp.Peers.Access.Federation.{SomeMatch, any_matched, any_matching}
use hyper_derp.Peers.Access.Ranges.{
  number, IsDigits, NoSlash, IsByteOrder, ip_allowed-prefix, ranged, parsed,
}

-- Below the cap, where there is one.
abbrev pub HasRoom : ℤ → ℕ → Type 0
HasRoom (pos (suc cap)) n = n ≤ cap
HasRoom (pos zero) n = Unit {0}
HasRoom (negsuc cap) n = Unit {0}

room : (cap : ℤ) (n : ℕ) → (at_capacity cap (pos n) ≡ false) ↔ HasRoom cap n
unfolding at_capacity
room (pos (suc cap)) n = ((λ h. ground arith), λ h. ground arith)
room (pos zero) n = ((λ h. tt), λ h. refl)
room (negsuc cap) n = ((λ h. tt), λ h. refl)

keyed :
    (ks : List (List ℕ)) (key : List ℕ)
    → (key_allowed ks key ≡ true) ↔ ((ks ≡ []) ⊎ SomeMatch ks key (drop 3 key))
unfolding key_allowed
keyed [] key = ((λ h. inl refl), λ m. refl)
keyed (k ∷ ks) key = ((λ h. inr (any_matched key (drop 3 key) (k ∷ ks) h)), listed)
  where
    listed : ((k ∷ ks ≡ []) ⊎ SomeMatch (k ∷ ks) key (drop 3 key)) → key_allowed (k ∷ ks) key ≡ true
    listed (inl e) = absurd (ground arith)
    listed (inr m) = any_matching key (drop 3 key) (k ∷ ks) m

module _ (inet_aton : List ℕ → Option ℕ) (htonl : ℕ → ℕ) where
  -- The three tests in their order.
  three_tests :
      (pol : HdEnrollPolicy) (n : ℤ) (key : List ℕ) (ip : ℕ)
      → (policy_allows inet_aton htonl pol n key ip ≡ allows) ↔ (
          (at_capacity pol.max_enrolled n ≡ false)
          × (key_allowed pol.allowed_keys key ≡ true)
          × (ip_allowed inet_aton htonl pol.require_ip_range ip ≡ allows))
  unfolding policy_allows
  three_tests pol n key ip = (
    (λ h. (ground arith, ground arith, ground arith)),
    λ (capped, listed, addressed). rw (capped, listed) addressed,
  )

  -- When require_ip_range is an address without a slash, a slash and decimal digits of a value
  -- below 2^31, and inet_aton reads the address, HdPolicyAllows lets an enrollment pass exactly
  -- when the peers are fewer than the cap, where there is one, a pattern of allowed_keys matches
  -- the key's string, where there are any, and the peer's address is 0 or shares with the range's
  -- address the first so many bits as the digits say, at most 32.
  pub policy_allows-prefix :
      IsByteOrder htonl
      → (pol : HdEnrollPolicy) (n : ℕ) (key addr digits : List ℕ) (x a : ℕ)
      → pol.require_ip_range ≡ addr ++ (47 ∷ digits)
      → NoSlash addr
      → IsDigits digits
      → number digits 0 < 2 ^ 31
      → x < 2 ^ 32
      → a < 2 ^ 32
      → inet_aton addr ≡ some (htonl a)
      → (policy_allows inet_aton htonl pol (pos n) key (htonl x) ≡ allows) ↔ (
          HasRoom pol.max_enrolled n
          × ((pol.allowed_keys ≡ []) ⊎ SomeMatch pol.allowed_keys key (drop 3 key))
          × ((htonl x ≡ 0)
              ⊎ ((number digits 0 ≤ 32)
                  × (x / 2 ^ (32 - number digits 0) ≡ a / 2 ^ (32 - number digits 0)))))
  policy_allows-prefix order pol n key addr digits x a range plain decimal small small_x small_a
        known =
      let tests = three_tests pol (pos n) key (htonl x) in
      let fits =
        ip_allowed-prefix inet_aton htonl order addr digits x a plain decimal small small_x small_a
          known in
      let here = ap (λ (s : List ℕ). ip_allowed inet_aton htonl s (htonl x)) range in
      (
        λ h.
            let (capped, listed, addressed) = tests.0 h in
            (
              (room pol.max_enrolled n).0 capped,
              (keyed pol.allowed_keys key).0 listed,
              fits.0 (sym here ∙ addressed),
            ),
        λ (capped, listed, addressed). tests.1 (
          (room pol.max_enrolled n).1 capped,
          (keyed pol.allowed_keys key).1 listed,
          here ∙ fits.1 addressed,
        ),
      )

  -- When require_ip_range is an address that inet_aton reads and a slash without digits,
  -- HdPolicyAllows answers as it does without a range, whatever the peer's address.
  pub policy_allows-no_length :
      (pol : HdEnrollPolicy) (n : ℤ) (key addr : List ℕ) (ip a : ℕ)
      → NoSlash addr
      → inet_aton addr ≡ some a
      → htonl 0 ≡ 0
      → policy_allows inet_aton htonl (record pol { require_ip_range = addr ++ (47 ∷ []) }) n key ip
        ≡ policy_allows inet_aton htonl (record pol { require_ip_range = [] }) n key ip
  unfolding policy_allows ip_allowed in_range network mask_of
  policy_allows-no_length pol n key addr ip a plain known order =
      ap
        (λ (v : Verdict).
          if at_capacity pol.max_enrolled n
          then max_peers_exceeded
          else if not (key_allowed pol.allowed_keys key)
          then key_not_allowed
          else v)
        passed
    where
      in_all : in_range ip (network inet_aton htonl 0 (inet_aton addr)) ≡ allows
      in_all = rw (known, order, bit_and-zero ip, bit_and-zero a) refl

      either : (b : Bool) → (if b then allows else allows) ≡ allows
      either true = refl
      either false = refl

      passed : ip_allowed inet_aton htonl (addr ++ (47 ∷ [])) ip ≡ allows
      passed =
          ranged inet_aton htonl addr [] ip
          ∙ ap (λ o. if ip == 0 then allows else in_range ip o)
              (parsed inet_aton htonl addr [] plain tt (omega arith))
          ∙ ap (λ (v : Verdict). if ip == 0 then allows else v) in_all
          ∙ either (ip == 0)
