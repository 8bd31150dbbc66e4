-- ===== src/Resolver/Pins.antt =====
-- HdResolve of src/hd_resolver.cc: the reasons it reports and the cross-relay guard.
use hyper_derp.Prelude.{ℕ, ◌≡◌, ◌≢◌, Bool, true, false, ◌&&◌, if◌then◌else◌, arith, not}
use hyper_derp.HdProtocol.{
  HdIntent, require_direct, HdConnMode, no_reason, policy_forbids, fleet_routing_not_implemented,
  nat_incompatible,
}
use hyper_derp.Resolver.{
  HdLayerView, HdClientView, HdCapability, HdDecision, effective_intent, resolve,
}

abbrev pub is_denied : HdConnMode → Bool
is_denied HdConnMode.denied = true
is_denied _ = false

-- What is recorded for a mode: no reason with a granted mode, and with a refusal the capability
-- where that alone decided, else the policy, with a sub-reason where a layer pinned the intent.
abbrev pub ReasonFits : HdIntent → Bool → Bool → HdDecision → Type 0
ReasonFits i pinned incapable d =
    (d.resolved_intent ≡ i)
    × (d.deny_reason ≡ (
        if is_denied d.mode
        then (if incapable then nat_incompatible else policy_forbids)
        else no_reason))
    × (d.sub_reason ≡ (if is_denied d.mode && not incapable && pinned then 2 else 0))

-- The case that the capability decides.
abbrev pub is_incapable : HdIntent → Bool → Bool
is_incapable require_direct can_direct = not can_direct
is_incapable _ can_direct = false

module _ (fleet federation relay peer : HdLayerView) (client : HdClientView)
    (cap : HdCapability) where
  -- Whether some layer pinned the intent.
  abbrev pub is_pinned : Bool
  is_pinned =
      (effective_intent fleet.pinned_intent federation.pinned_intent relay.pinned_intent
        peer.pinned_intent client.intent).1

  -- A target on another relay is refused with its own reason, whatever the layers say.
  pub resolve_cross_relay :
      (target : ℕ)
      → target ≢ 0
      → ((resolve fleet federation relay peer client cap target).mode ≡ HdConnMode.denied)
        × ((resolve fleet federation relay peer client cap target).deny_reason
            ≡ fleet_routing_not_implemented)
  unfolding resolve
  resolve_cross_relay target h = (ground arith, ground arith)
