-- ===== src/Resolver/Views.antt =====
-- HdBuildRelayView, HdBuildFleetView, HdApplyPeerPolicyIntent and HdBuildPeerView of
-- src/hd_resolver.cc, alone and as the layers that HdResolve reads.
use hyper_derp.Prelude.{◌≡◌, refl, Bool, true, false, ◌&&◌, none, arith, not}
use hyper_derp.Prelude.Bits.{bit0-and, bit1-and}
use hyper_derp.HdProtocol.{
  HdIntent, prefer_direct, require_direct, prefer_relay, require_relay, direct, relayed,
}
use hyper_derp.Resolver.{
  HdLayerView, HdClientView, HdCapability, HdRelayPolicy, HdFleetPolicy, HdPeerPolicy, clear_if,
  build_relay_view, build_fleet_view, apply_peer_policy_intent, view_of_intent, narrow_by_pin,
  build_peer_view, resolve,
}
use hyper_derp.Resolver.Decide.{has_direct, has_relayed, resolve-permitted}

-- The view of a relay policy keeps exactly the modes that the policy does not forbid, that of a
-- fleet policy exactly the modes that it allows, and neither pins an intent.
pub policy_views :
    (r : HdRelayPolicy) (f : HdFleetPolicy)
    → (has_direct (build_relay_view r).allowed ≡ not r.forbid_direct)
      × (has_relayed (build_relay_view r).allowed ≡ not r.forbid_relayed)
      × (has_direct (build_fleet_view f).allowed ≡ f.allow_direct)
      × (has_relayed (build_fleet_view f).allowed ≡ f.allow_relayed)
      × ((build_relay_view r).pinned_intent ≡ none)
      × ((build_fleet_view f).pinned_intent ≡ none)
unfolding build_relay_view build_fleet_view clear_if
policy_views r f =
    (ground arith, ground arith, ground arith, ground arith, ground arith, ground arith)

-- An overriding pin of a peer decides that peer's view alone: the intent that the client sent on
-- the wire does not matter.
pub override_pin :
    (p : HdPeerPolicy) (wire wire' : HdIntent)
    → p.has_pin ≡ true
    → p.override_client ≡ true
    → build_peer_view p (apply_peer_policy_intent p wire)
      ≡ build_peer_view p (apply_peer_policy_intent p wire')
unfolding apply_peer_policy_intent
override_pin p wire wire' a b = ground arith

-- What a pin leaves of the two modes, for a peer policy that does not override the client.
abbrev pub pin_keeps_direct : HdIntent → Bool
pin_keeps_direct prefer_relay = false
pin_keeps_direct require_relay = false
pin_keeps_direct _ = true

abbrev pub pin_keeps_relayed : HdIntent → Bool
pin_keeps_relayed prefer_direct = false
pin_keeps_relayed require_direct = false
pin_keeps_relayed _ = true

narrow_by_pin_modes :
    (q : HdIntent) (v : HdLayerView)
    → (has_direct (narrow_by_pin q v).allowed ≡ (has_direct v.allowed && pin_keeps_direct q))
      × (has_relayed (narrow_by_pin q v).allowed ≡ (has_relayed v.allowed && pin_keeps_relayed q))
      × ((narrow_by_pin q v).pinned_intent ≡ v.pinned_intent)
unfolding narrow_by_pin
narrow_by_pin_modes prefer_direct v =
    (ground (arith, bit0-and v.allowed 1), ground (arith, bit1-and v.allowed 1), refl)
narrow_by_pin_modes require_direct v =
    (ground (arith, bit0-and v.allowed 1), ground (arith, bit1-and v.allowed 1), refl)
narrow_by_pin_modes prefer_relay v =
    (ground (arith, bit0-and v.allowed 2), ground (arith, bit1-and v.allowed 2), refl)
narrow_by_pin_modes require_relay v =
    (ground (arith, bit0-and v.allowed 2), ground (arith, bit1-and v.allowed 2), refl)
narrow_by_pin_modes (HdIntent.other n) v = (ground arith, ground arith, refl)

-- A pin that does not override the client narrows the view: only a mode of the pinned kind stays,
-- and of those only what the view of the intent itself had.
pub narrowing_pin :
    (p : HdPeerPolicy) (i : HdIntent)
    → p.has_pin ≡ true
    → p.override_client ≡ false
    → (has_direct (build_peer_view p i).allowed
        ≡ (has_direct (view_of_intent i).allowed && pin_keeps_direct p.pinned_intent))
      × (has_relayed (build_peer_view p i).allowed
          ≡ (has_relayed (view_of_intent i).allowed && pin_keeps_relayed p.pinned_intent))
      × ((build_peer_view p i).pinned_intent ≡ (view_of_intent i).pinned_intent)
unfolding build_peer_view
narrowing_pin p i a b = rw (a, b) (narrow_by_pin_modes p.pinned_intent (view_of_intent i))

-- A tunnel that HdResolve grants from the views of the operators' policies is one that the fleet
-- policy and the relay policy both allow, and a direct one needs a capable pair.
pub resolve-policies :
    (f : HdFleetPolicy) (federation : HdLayerView) (r : HdRelayPolicy) (peer : HdLayerView)
    (client : HdClientView) (cap : HdCapability)
    → ((resolve (build_fleet_view f) federation (build_relay_view r) peer client cap 0).mode
          ≡ direct
        → (f.allow_direct ≡ true) × (r.forbid_direct ≡ false) × (cap.can_direct ≡ true))
      × ((resolve (build_fleet_view f) federation (build_relay_view r) peer client cap 0).mode
            ≡ relayed
          → (f.allow_relayed ≡ true) × (r.forbid_relayed ≡ false))
resolve-policies f federation r peer client cap =
    let ok =
      resolve-permitted (build_fleet_view f) federation (build_relay_view r) peer client cap in
    let views = policy_views r f in
    ((λ h. ground (arith, ok.0 h, views.0, views.2)), λ h. ground (arith, ok.1 h, views.1, views.3))
