-- ===== src/Resolver.antt =====
-- The five-layer routing policy: include/hyper_derp/hd_resolver.h and src/hd_resolver.cc, with the
-- policy records of include/hyper_derp/hd_peers.h that its views are built from.
pub mod Decide
pub mod Pins
pub mod Views
use hyper_derp.Prelude.{
  ℕ, ◌+◌, ◌≡◌, Bool, true, false, ◌&&◌, not, Option, none, some, bit_and, if◌then◌else◌, ◌==◌, List,
  inl, inr, ◌⊎◌,
}
use hyper_derp.HdProtocol.{
  HdIntent, prefer_direct, require_direct, prefer_relay, require_relay, HdConnMode, direct, relayed,
  HdDenyReason, no_reason, policy_forbids, fleet_routing_not_implemented, nat_incompatible,
  peer_override, reason_code, intent_code,
}

-- kModeDirect, kModeRelayed, kModeAny: the bits of an allowed-mode mask.
abbrev pub mode_direct : ℕ
mode_direct = 1

abbrev pub mode_relayed : ℕ
mode_relayed = 2

abbrev pub mode_any : ℕ
mode_any = 3

-- `~kModeDirect` and `~kModeRelayed` on the 8 bits of a mask.
abbrev not_direct : ℕ
not_direct = 0xfe

abbrev not_relayed : ℕ
not_relayed = 0xfd

pub record HdLayerView : Type 0 where
  pub allowed : ℕ
  pub pinned_intent : Option HdIntent

-- `HdLayerView v;`
abbrev pub default_view : HdLayerView
default_view = record { allowed = mode_any; pinned_intent = none }

pub record HdClientView : Type 0 where
  pub intent : HdIntent
  pub allow_upgrade : Bool
  pub allow_downgrade : Bool

pub record HdCapability : Type 0 where
  pub can_direct : Bool

-- HdDecision::layer_allowed, one field for each index of HdLayer.
pub record LayerAllowed : Type 0 where
  pub fleet : ℕ
  pub federation : ℕ
  pub relay : ℕ
  pub peer : ℕ
  pub client : ℕ

pub record HdDecision : Type 0 where
  pub mode : HdConnMode
  pub deny_reason : HdDenyReason
  pub sub_reason : ℕ
  pub resolved_intent : HdIntent
  pub allow_upgrade : Bool
  pub allow_downgrade : Bool
  pub layer_allowed : LayerAllowed

abbrev pub default_decision : HdDecision
default_decision = record {
  mode = HdConnMode.denied;
  deny_reason = no_reason;
  sub_reason = 0;
  resolved_intent = prefer_direct;
  allow_upgrade = true;
  allow_downgrade = true;
  layer_allowed = record {
    fleet = mode_any;
    federation = mode_any;
    relay = mode_any;
    peer = mode_any;
    client = mode_any;
  };
}

-- IntentNeed: "prefer" intents, and bytes that name no intent, accept either mode.
unfoldable pub intent_need : HdIntent → ℕ
intent_need prefer_direct = mode_any
intent_need require_direct = mode_direct
intent_need prefer_relay = mode_any
intent_need require_relay = mode_relayed
intent_need (HdIntent.other n) = mode_any

unfoldable pub intent_preferred : HdIntent → HdConnMode
intent_preferred prefer_direct = direct
intent_preferred require_direct = direct
intent_preferred prefer_relay = relayed
intent_preferred require_relay = relayed
intent_preferred (HdIntent.other n) = relayed

is_require_direct : HdIntent → Bool
is_require_direct require_direct = true
is_require_direct _ = false

-- `preferred == HdConnMode::kDirect ? kModeDirect : kModeRelayed`
pref_bit : HdConnMode → ℕ
pref_bit direct = mode_direct
pref_bit _ = mode_relayed

-- Step 2: the first layer that pins an intent wins, and else the client's intent stands.
unfoldable pub effective_intent :
    Option HdIntent
    → Option HdIntent
    → Option HdIntent
    → Option HdIntent
    → HdIntent
    → HdIntent × Bool
effective_intent (some i) federation relay peer client = (i, true)
effective_intent none (some i) relay peer client = (i, true)
effective_intent none none (some i) peer client = (i, true)
effective_intent none none none (some i) client = (i, true)
effective_intent none none none none client = (client, false)

-- Step 4 and the choice of the mode, from the mask that is left and the intent.
unfoldable pub apply_intent : HdDecision → ℕ → HdIntent → Bool → HdDecision
unfolding intent_need intent_preferred pref_bit
apply_intent d allowed effective pinned =
    let want = intent_need effective in
    let feasible = bit_and allowed want in
    let preferred = intent_preferred effective in
    let l = d.layer_allowed in
    let d' = record d { layer_allowed = record l { client = want } } in
    if feasible == 0
    then record d' {
      mode = HdConnMode.denied;
      deny_reason = policy_forbids;
      sub_reason = if pinned then bit_and (reason_code peer_override) 0xff else d.sub_reason;
    }
    else if not (bit_and feasible (pref_bit preferred) == 0)
    then record d' { mode = preferred; deny_reason = no_reason }
    else record d' {
      mode = if not (bit_and feasible mode_direct == 0) then direct else relayed;
      deny_reason = no_reason;
    }

-- Step 3 and what follows it.
unfoldable pub apply_capability : HdDecision → ℕ → HdIntent → Bool → Bool → HdDecision
unfolding apply_intent is_require_direct
apply_capability d allowed effective pinned can_direct =
    if can_direct
    then apply_intent d allowed effective pinned
    else if is_require_direct effective
    then record d { mode = HdConnMode.denied; deny_reason = nat_incompatible }
    else apply_intent d (bit_and allowed not_direct) effective pinned

-- The decision before the first test, and with the layers' masks and the intent recorded.
abbrev pub flagged : HdClientView → HdDecision
flagged client = record default_decision {
  allow_upgrade = client.allow_upgrade;
  allow_downgrade = client.allow_downgrade;
}

abbrev pub recorded :
    HdLayerView → HdLayerView → HdLayerView → HdLayerView → HdClientView → HdIntent → HdDecision
recorded fleet federation relay peer client effective = record flagged_client {
  layer_allowed = record {
    fleet = fleet.allowed;
    federation = federation.allowed;
    relay = relay.allowed;
    peer = peer.allowed;
    client = mode_any;
  };
  resolved_intent = effective;
}
  where
    flagged_client : HdDecision
    flagged_client = flagged client

-- HdResolve.
unfoldable pub resolve :
    HdLayerView
    → HdLayerView
    → HdLayerView
    → HdLayerView
    → HdClientView
    → HdCapability
    → ℕ
    → HdDecision
unfolding apply_capability effective_intent
resolve fleet federation relay peer client cap target_relay_id =
    let allowed =
      bit_and (bit_and (bit_and fleet.allowed federation.allowed) relay.allowed) peer.allowed in
    let (effective, pinned) =
      effective_intent fleet.pinned_intent federation.pinned_intent relay.pinned_intent
        peer.pinned_intent client.intent in
    if not (target_relay_id == 0)
    then record (flagged client) {
      mode = HdConnMode.denied;
      deny_reason = fleet_routing_not_implemented;
    }
    else apply_capability (recorded fleet federation relay peer client effective) allowed effective
        pinned cap.can_direct

-- HdRelayPolicy, HdFleetPolicy and HdPeerPolicy of include/hyper_derp/hd_peers.h.
pub record HdRelayPolicy : Type 0 where
  pub default_mode : HdIntent
  pub forbid_direct : Bool
  pub forbid_relayed : Bool
  pub max_direct_peers : ℕ
  pub audit_relayed_traffic : Bool

pub record HdFleetPolicy : Type 0 where
  pub allow_direct : Bool
  pub allow_relayed : Bool
  pub require_relay_for_cross_region : Bool

pub record HdPeerPolicy : Type 0 where
  pub override_client : Bool
  pub has_pin : Bool
  pub pinned_intent : HdIntent
  pub audit_tag : List ℕ
  pub reason : List ℕ

-- `if (forbid) v.allowed &= ~bit;`
unfoldable pub clear_if : Bool → ℕ → HdLayerView → HdLayerView
clear_if true mask v = record v { allowed = bit_and v.allowed mask }
clear_if false mask v = v

unfoldable pub build_relay_view : HdRelayPolicy → HdLayerView
unfolding clear_if
build_relay_view p =
    clear_if p.forbid_relayed not_relayed (clear_if p.forbid_direct not_direct default_view)

unfoldable pub build_fleet_view : HdFleetPolicy → HdLayerView
unfolding clear_if
build_fleet_view p =
    clear_if (not p.allow_relayed) not_relayed
      (clear_if (not p.allow_direct) not_direct default_view)

unfoldable pub apply_peer_policy_intent : HdPeerPolicy → HdIntent → HdIntent
apply_peer_policy_intent p wire_intent =
    if p.has_pin && p.override_client then p.pinned_intent else wire_intent

-- The intent's part of HdBuildPeerView: a "require" pins, "prefer relay" narrows.
unfoldable pub view_of_intent : HdIntent → HdLayerView
view_of_intent require_direct = record default_view { pinned_intent = some require_direct }
view_of_intent require_relay = record default_view { pinned_intent = some require_relay }
view_of_intent prefer_relay = record default_view { allowed = mode_relayed }
view_of_intent prefer_direct = default_view
view_of_intent (HdIntent.other n) = default_view

-- The switch on a pin that does not override the client.
unfoldable pub narrow_by_pin : HdIntent → HdLayerView → HdLayerView
narrow_by_pin require_relay v = record v { allowed = bit_and v.allowed mode_relayed }
narrow_by_pin prefer_relay v = record v { allowed = bit_and v.allowed mode_relayed }
narrow_by_pin require_direct v = record v { allowed = bit_and v.allowed mode_direct }
narrow_by_pin prefer_direct v = record v { allowed = bit_and v.allowed mode_direct }
narrow_by_pin (HdIntent.other n) v = v

unfoldable pub build_peer_view : HdPeerPolicy → HdIntent → HdLayerView
unfolding view_of_intent narrow_by_pin
build_peer_view p effective =
    let v = view_of_intent effective in
    if p.has_pin && not p.override_client then narrow_by_pin p.pinned_intent v else v
