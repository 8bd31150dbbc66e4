-- ===== src/Resolver/Decide.antt =====
-- HdResolve of src/hd_resolver.cc against what each layer permits: the mode it picks, and when it
-- denies.
use hyper_derp.Prelude.{ℕ, ◌≡◌, refl, Bool, true, false, ◌&&◌, bit_and, if◌then◌else◌, ◌==◌, arith}
use mathlib.Core.Path.{ap₂}
use hyper_derp.Prelude.Bits.{
  bit0, bit1, bit0-and, bit1-and, bit_and-one, bit_and-two, bit_and-three,
}
use hyper_derp.HdProtocol.{
  HdIntent, prefer_direct, require_direct, prefer_relay, require_relay, HdConnMode, direct, relayed,
}
use hyper_derp.Resolver.{
  HdLayerView, HdClientView, HdCapability, HdDecision, effective_intent, apply_intent,
  apply_capability, resolve, is_require_direct,
}

-- Which modes an intent accepts, and the order in which it wants them, from the documentation of
-- the intents: a "require" accepts one mode, all others both.
abbrev pub accepts_direct : HdIntent → Bool
accepts_direct require_relay = false
accepts_direct _ = true

abbrev pub accepts_relayed : HdIntent → Bool
accepts_relayed require_direct = false
accepts_relayed _ = true

abbrev pub wants_direct : HdIntent → Bool
wants_direct prefer_direct = true
wants_direct require_direct = true
wants_direct _ = false

-- A mode bit of a mask as a truth value.
abbrev pub has_direct : ℕ → Bool
has_direct m = bit0 m == 1

abbrev pub has_relayed : ℕ → Bool
has_relayed m = bit1 m == 1

-- The mode for an intent, when the direct and the relayed mode are open or not.
abbrev pub choose : HdIntent → Bool → Bool → HdConnMode
choose i d r =
    if wants_direct i
    then (if d then direct else if r then relayed else HdConnMode.denied)
    else (if r then relayed else if d then direct else HdConnMode.denied)

apply_intent_mode :
    (d : HdDecision) (m : ℕ) (i : HdIntent) (pinned : Bool)
    → (apply_intent d m i pinned).mode
      ≡ choose i (has_direct m && accepts_direct i) (has_relayed m && accepts_relayed i)
unfolding apply_intent
apply_intent_mode d m prefer_direct pinned =
    ground (arith, bit_and-three m, bit_and-one (bit_and m 3))
apply_intent_mode d m require_direct pinned =
    ground (arith, bit_and-one m, bit_and-one (bit_and m 1))
apply_intent_mode d m prefer_relay pinned =
    ground (arith, bit_and-three m, bit_and-two (bit_and m 3), bit_and-one (bit_and m 3))
apply_intent_mode d m require_relay pinned =
    ground (arith, bit_and-two m, bit_and-two (bit_and m 2), bit_and-one (bit_and m 2))
apply_intent_mode d m (HdIntent.other n) pinned =
    ground (arith, bit_and-three m, bit_and-two (bit_and m 3), bit_and-one (bit_and m 3))

-- Clearing the direct bit.
cleared_bits :
    (m : ℕ) → (has_direct (bit_and m 0xfe) ≡ false) × (has_relayed (bit_and m 0xfe) ≡ has_relayed m)
cleared_bits m =
    let low = bit0-and m 0xfe in
    let high = bit1-and m 0xfe in (ground (arith, low), rw (high-eq) refl)
  where
    high-eq : bit1 (bit_and m 0xfe) ≡ bit1 m
    high-eq = omega (arith, bit1-and m 0xfe)

apply_capability_mode :
    (d : HdDecision) (m : ℕ) (i : HdIntent) (pinned can_direct : Bool)
    → (apply_capability d m i pinned can_direct).mode
      ≡ choose i
          (has_direct m && accepts_direct i && can_direct)
          (has_relayed m && accepts_relayed i)
unfolding apply_capability is_require_direct
apply_capability_mode d m i pinned true = ground (arith, apply_intent_mode d m i pinned)
apply_capability_mode d m prefer_direct pinned false =
    ground (arith, apply_intent_mode d (bit_and m 0xfe) prefer_direct pinned, cleared_bits m)
apply_capability_mode d m require_direct pinned false = ground arith
apply_capability_mode d m prefer_relay pinned false =
    ground (arith, apply_intent_mode d (bit_and m 0xfe) prefer_relay pinned, cleared_bits m)
apply_capability_mode d m require_relay pinned false =
    ground (arith, apply_intent_mode d (bit_and m 0xfe) require_relay pinned, cleared_bits m)
apply_capability_mode d m (HdIntent.other n) pinned false =
    ground (arith, apply_intent_mode d (bit_and m 0xfe) (HdIntent.other n) pinned, cleared_bits m)

choose_sound :
    (i : HdIntent) (d r : Bool)
    → (choose i d r ≡ direct → d ≡ true)
      × (choose i d r ≡ relayed → r ≡ true)
      × (choose i d r ≡ HdConnMode.denied → (d ≡ false) × (r ≡ false))
choose_sound i true true = ((λ h. refl), (λ h. refl), λ h. absurd (ground arith))
choose_sound i true false = ((λ h. refl), (λ h. absurd (ground arith)), λ h. absurd (ground arith))
choose_sound i false true = ((λ h. absurd (ground arith)), (λ h. refl), λ h. absurd (ground arith))
choose_sound i false false =
    ((λ h. absurd (ground arith)), (λ h. absurd (ground arith)), λ h. (refl, refl))

module _ (fleet federation relay peer : HdLayerView) (client : HdClientView)
    (cap : HdCapability) where
  -- The intent that counts: the first pin from the fleet down, else the client's.
  abbrev pub ruling : HdIntent
  ruling =
      (effective_intent fleet.pinned_intent federation.pinned_intent relay.pinned_intent
        peer.pinned_intent client.intent).0

  -- A mode is open where all four masks have its bit, the intent accepts it, and for the direct
  -- mode the pair is capable of it.
  abbrev pub direct_open : Bool
  direct_open =
      has_direct fleet.allowed
      && has_direct federation.allowed
      && has_direct relay.allowed
      && has_direct peer.allowed
      && accepts_direct ruling
      && cap.can_direct

  abbrev pub relayed_open : Bool
  relayed_open =
      has_relayed fleet.allowed
      && has_relayed federation.allowed
      && has_relayed relay.allowed
      && has_relayed peer.allowed
      && accepts_relayed ruling

  masks :
      (has_direct
          (bit_and (bit_and (bit_and fleet.allowed federation.allowed) relay.allowed) peer.allowed)
        ≡ (has_direct fleet.allowed
            && has_direct federation.allowed
            && has_direct relay.allowed
            && has_direct peer.allowed))
      × (has_relayed (
            bit_and (bit_and (bit_and fleet.allowed federation.allowed) relay.allowed) peer.allowed)
          ≡ (has_relayed fleet.allowed
              && has_relayed federation.allowed
              && has_relayed relay.allowed
              && has_relayed peer.allowed))
  masks =
      let ab = bit_and fleet.allowed federation.allowed in
      let abc = bit_and ab relay.allowed in
      (
        ground (
          arith,
          bit0-and abc peer.allowed,
          bit0-and ab relay.allowed,
          bit0-and fleet.allowed federation.allowed,
        ),
        ground (
          arith,
          bit1-and abc peer.allowed,
          bit1-and ab relay.allowed,
          bit1-and fleet.allowed federation.allowed,
        ),
      )

  -- For a local target, HdResolve picks the first choice of the ruling intent among the modes that
  -- all four layers, the intent and the pair's capability leave open, and denies when none is
  -- open.
  pub resolve_mode :
      (resolve fleet federation relay peer client cap 0).mode
      ≡ choose ruling direct_open relayed_open
  unfolding resolve
  resolve_mode = rw apply_capability_mode (ap₂ (choose ruling) (rw masks.0) (rw masks.1))

  -- For a local target, HdResolve answers direct only when the direct mode is open in every layer,
  -- to the intent and to the pair, relayed only when the relayed mode is open, and denied only
  -- when neither is.
  pub resolve-permitted :
      (((resolve fleet federation relay peer client cap 0).mode ≡ direct) → direct_open ≡ true)
      × (((resolve fleet federation relay peer client cap 0).mode ≡ relayed) → relayed_open ≡ true)
      × (((resolve fleet federation relay peer client cap 0).mode ≡ HdConnMode.denied)
          → (direct_open ≡ false) × (relayed_open ≡ false))
  resolve-permitted = rw resolve_mode (choose_sound ruling direct_open relayed_open)
